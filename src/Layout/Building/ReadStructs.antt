-- ===== src/Layout/Building/ReadStructs.antt =====
-- A struct that was initialised, and the reader of the segments that the message is written out as
-- (src/private/layout.rs): `init_struct_pointer` and `read_struct_pointer`.
use capnproto_rust.Base.{
  ℕ, ◌+◌, ◌-◌, ◌*◌, ◌^◌, ◌≤◌, ◌<◌, ◌≡◌, refl, ap, ◌∙◌, true, false, ◌==◌, some, none, length, arith,
}
use capnproto_rust.Base.Outcome.{ok}
use capnproto_rust.Arena.{SegmentReader, offset, contains_interval}
use capnproto_rust.Arena.Builder.{Allocator}
use capnproto_rust.Arena.Granted.{IsBuilt}
use capnproto_rust.Arena.Allocation.{Supplies}
use capnproto_rust.Arena.Apart.{IsLaidOut, Separates}
use capnproto_rust.Arena.Reader.{ReaderArena, new_arena}
use capnproto_rust.Layout.Pointer.{
  struct, is_null, kind, target, data_size, ptr_count, StructSize, total,
}
use capnproto_rust.Layout.Memory.{Memory, pointer_at, ReadState, ◌⟫=◌, bounds_check}
use capnproto_rust.Layout.Reading.{
  StructReader, Followed, follow_fars, struct_target, read_struct_pointer,
}
use capnproto_rust.Layout.Building.{BuildState}
use capnproto_rust.Layout.Building.Written.{halves}
use capnproto_rust.Layout.Building.Objects.{Allocation}
use capnproto_rust.Layout.Building.Structs.{StructBuilder, init_struct_pointer}
use capnproto_rust.Layout.Building.Stands.{Stands, outputs}
use capnproto_rust.Layout.Building.Readable.{
  whole, whole-granted, ReaderFinds-way, reader_of_outputs,
}
use capnproto_rust.Layout.Building.Leads.{Leads, Keeps, Keeps-same, with_upper, Leads-upper}
use capnproto_rust.Layout.Building.Finds.{InUse}
use capnproto_rust.Layout.Building.Found.{allocate_object_lem}
use capnproto_rust.Layout.Building.Returned.{made_struct, struct_half, init_struct_pointer-ok}

abbrev pub read_struct : SegmentReader → Allocation → StructSize → ℕ → StructReader
read_struct seg new size nesting_limit = record {
  segment = some seg;
  data_section = new.ptr;
  pointers = offset new.ptr size.data_words;
  data_size = size.data_words * 64;
  pointer_count = size.pointers;
  nesting_limit = nesting_limit - 1;
}

module _ {Cap : Type 0} (mem : Memory) (size : StructSize) (nesting_limit : ℕ) where
  -- A struct pointer to words that the segment has and the limit allows
  struct_target-ok :
      (new : Allocation) (seg : SegmentReader) (o limit' : ℕ) (r : ReadState Cap)
      → pointer_at mem new.reff ≡ halves o (struct_half size)
      → kind (pointer_at mem new.reff) ≡ ok struct
      → size.data_words < 65536
      → contains_interval seg new.ptr (offset new.ptr (total size)) r.limit ≡ (true, limit')
      → struct_target mem nesting_limit
          (record { reff = new.reff; ptr = new.ptr; segment = some seg })
          r
        ≡ (ok (read_struct seg new size nesting_limit), record r { limit = limit' })
  unfolding ◌⟫=◌ struct_target bounds_check
  struct_target-ok new seg o limit' r e k d g =
      let ds : data_size (pointer_at mem new.reff) ≡ size.data_words =
        ap data_size e ∙ omega (arith, d) in
      let pointers : ptr_count (pointer_at mem new.reff) ≡ size.pointers =
        ap ptr_count e ∙ omega (arith, d) in
      rw (struct_target, k, ds, pointers, bounds_check, g) refl

  read_struct_pointer-ok :
      (reff : ℕ) (start : SegmentReader) (r r' after : ReadState Cap) (f : Followed)
      (found : StructReader)
      → is_null (pointer_at mem reff) ≡ false
      → 0 < nesting_limit
      → follow_fars mem reff (target reff (pointer_at mem reff)) (some start) r ≡ (ok f, r')
      → struct_target mem nesting_limit f r' ≡ (ok found, after)
      → read_struct_pointer mem (some start) reff none nesting_limit r ≡ (ok found, after)
  unfolding ◌⟫=◌ read_struct_pointer
  read_struct_pointer-ok reff start r r' after f found filled deep e q =
      let n : (nesting_limit == 0) ≡ false = ground (arith, deep) in
      rw (read_struct_pointer, filled, n, e) q

module _ {A : Allocator} {Cap : Type 0} where
  -- A struct that the root leads to, whatever has been written elsewhere since
  pub struct_found :
      (reff nesting_limit limit : ℕ) (size : StructSize) (new : Allocation) (s t : BuildState A Cap)
      (st : Stands A Cap t.arena (total size) new)
      → Leads reff 0 (total size) struct new s
      → Keeps reff new.reff (with_upper new.reff (struct_half size) s) t
      → size.data_words < 65536
      → size.pointers < 65536
      → total size + 1 ≤ limit
      → 0 < nesting_limit
      → (readers : ReaderArena Cap) × (after : ReadState Cap) × (new_arena Cap (outputs t.arena)
          ≡ ok readers)
        × (read_struct_pointer t.memory
              (some readers.segment0)
              reff
              none
              nesting_limit
              (record { arena = readers; limit = limit })
            ≡ (ok (read_struct (whole st) new size nesting_limit), after))
  struct_found reff nesting_limit limit size new s t st leads kept d p allowed deep =
      let u = struct_half size in
      let u_small : u < 2 ^ 32 = omega (arith, d, p) in
      let (readers, opened, c, over, begins) = reader_of_outputs t.arena in
      let r0 : ReadState Cap = record { arena = readers; limit = limit } in
      let (r', follows, paid) =
        ReaderFinds-way t reff 0 (total size) struct new st readers.segment0 r0 leads.near
          (leads.way u t u_small kept) (leads.at u t u_small kept) c over begins
          (omega (arith, allowed)) in
      let (described, has_kind) = Leads-upper u leads u_small in
      let granted = whole-granted (total size) new st r'.limit (omega (arith, paid, allowed)) in
      let after : ReadState Cap = record r' { limit = r'.limit - total size } in
      (
        readers,
        after,
        opened,
        read_struct_pointer-ok t.memory size nesting_limit reff readers.segment0 r0 r' after
            (record { reff = new.reff; ptr = new.ptr; segment = some (whole st) })
            (read_struct (whole st) new size nesting_limit)
            (ap is_null kept.first ∙ leads.filled u u_small (λ g. omega (arith, g))) deep follows
            (struct_target-ok t.memory size nesting_limit new (whole st)
              (pointer_at s.memory new.reff).offset_and_kind (r'.limit - total size) r'
              (kept.second ∙ described) (ap kind kept.second ∙ has_kind) d granted),
      )

  -- Initialising a struct of `u16` sizes at a null pointer that is a word in use of the first segment, in
  -- a message whose segments are valid and lie apart, with an allocator that keeps its promises: it
  -- succeeds. A reader of the segments that the message is written out as, whose traversal limit allows
  -- the words of the struct and one more, and whose nesting limit is not 0, finds the struct at this
  -- pointer, through whatever far pointer was made, with the same sections and sizes.
  pub init_struct-read_struct :
      (Valid : A.State → Type 0) (fuel reff nesting_limit limit : ℕ) (size : StructSize)
      (s : BuildState A Cap)
      → size.data_words < 65536
      → size.pointers < 65536
      → is_null (pointer_at s.memory reff) ≡ true
      → InUse A Cap s.arena 0 reff
      → IsBuilt A Cap s.arena
      → IsLaidOut A Cap s.arena
      → Supplies A Valid (total size + 1) s.arena.allocator
      → Separates A Cap s.arena (total size + 1)
      → Valid s.arena.allocator
      → length s.arena.more_segments + 1 < 2 ^ 32
      → total size + 1 ≤ limit
      → 0 < nesting_limit
      → (b : StructBuilder) × (t : BuildState A Cap) × (readers : ReaderArena Cap)
        × (r : StructReader) × (after : ReadState Cap) × (init_struct_pointer fuel reff 0 size s
            ≡ (ok b, t))
        × (new_arena Cap (outputs t.arena) ≡ ok readers)
        × (read_struct_pointer t.memory
              (some readers.segment0)
              reff
              none
              nesting_limit
              (record { arena = readers; limit = limit })
            ≡ (ok r, after))
        × (r.data_section ≡ b.data_section)
        × (r.pointers ≡ b.pointers)
        × (r.data_size ≡ b.data_size)
        × (r.pointer_count ≡ b.pointer_count)
  init_struct-read_struct Valid fuel reff nesting_limit limit size s d p null w b l supplies
        separates v few allowed deep =
      let (new, s', e, leads, st, fresh) =
        allocate_object_lem Valid fuel reff 0 (total size) struct s (λ q. absurd cc)
          (omega (arith, d, p)) null w b l supplies separates v few in
      let t = with_upper new.reff (struct_half size) s' in
      let (readers, after, opened, reads) =
        struct_found reff nesting_limit limit size new s' t st leads (Keeps-same reff new.reff t) d
          p allowed deep in
      (
        made_struct new size,
        t,
        readers,
        read_struct (whole st) new size nesting_limit,
        after,
        init_struct_pointer-ok fuel reff 0 size new s s' e,
        opened,
        reads,
        refl,
        refl,
        refl,
        refl,
      )
