-- ===== src/Layout/Building/ReadData.antt =====
-- Data that was set, and the reader of the segments that the message is written out as
-- (src/private/layout.rs): `set_data_pointer` and `read_data_pointer`.
use capnproto_rust.Base.{
  ℕ, ◌+◌, ◌-◌, ◌^◌, ◌≤◌, ◌<◌, ◌≡◌, refl, ap, ◌∙◌, true, false, some, List, length, All, arith,
}
use capnproto_rust.Base.Outcome.{ok}
use capnproto_rust.Arena.{SegmentReader, offset, contains_interval}
use capnproto_rust.Arena.Builder.{Allocator}
use capnproto_rust.Arena.Granted.{IsBuilt}
use capnproto_rust.Arena.Allocation.{Supplies}
use capnproto_rust.Arena.Apart.{IsLaidOut, Separates}
use capnproto_rust.Arena.Reader.{ReaderArena, new_arena}
use capnproto_rust.Layout.Pointer.{
  WirePointer, list, byte, is_null, kind, target, round_bytes_up_to_words,
}
use capnproto_rust.Layout.Fields.{size_of_bits}
use capnproto_rust.Layout.Memory.{Memory, pointer_at, ReadState, ◌⟫=◌, bounds_check}
use capnproto_rust.Layout.Reading.{Followed, follow_fars}
use capnproto_rust.Layout.Texts.{Slice, slice_bytes, byte_list, read_data_pointer}
use capnproto_rust.Layout.Building.{BuildState}
use capnproto_rust.Layout.Building.Objects.{Allocation}
use capnproto_rust.Layout.Building.Blobs.{set_data_pointer}
use capnproto_rust.Layout.Building.Stands.{outputs}
use capnproto_rust.Layout.Building.Readable.{
  whole, whole-granted, ReaderFinds-way, reader_of_outputs,
}
use capnproto_rust.Layout.Building.Leads.{with_upper, Leads-upper}
use capnproto_rust.Layout.Building.Finds.{InUse}
use capnproto_rust.Layout.Building.Found.{allocate_object_lem}
use capnproto_rust.Layout.Building.ReturnedLists.{list_half}
use capnproto_rust.Layout.Building.ReturnedData.{
  written, written-Keeps, set_data_pointer-ok, slice_bytes-write_bytes,
}

module _ {Cap : Type 0} (mem : Memory) where
  -- A pointer to a list of bytes that the segment has and the limit allows
  pub byte_list-ok :
      (new : Allocation) (seg : SegmentReader) (n limit' : ℕ) (r : ReadState Cap)
      → (pointer_at mem new.reff).upper32bits ≡ list_half n byte
      → kind (pointer_at mem new.reff) ≡ ok list
      → contains_interval seg new.ptr (offset new.ptr (round_bytes_up_to_words n)) r.limit
        ≡ (true, limit')
      → byte_list mem (record { reff = new.reff; ptr = new.ptr; segment = some seg }) r
        ≡ (ok n, record r { limit = limit' })
  unfolding ◌⟫=◌ byte_list bounds_check
  byte_list-ok new seg n limit' r e k g =
      let (is_size, is_count) = size_of_bits (pointer_at mem new.reff) byte n e in
      rw (byte_list, k, is_size, is_count, bounds_check, g) refl

  read_data_pointer-ok :
      (reff n : ℕ) (start : SegmentReader) (r r' after : ReadState Cap) (f : Followed)
      → is_null (pointer_at mem reff) ≡ false
      → follow_fars mem reff (target reff (pointer_at mem reff)) (some start) r ≡ (ok f, r')
      → byte_list mem f r' ≡ (ok n, after)
      → read_data_pointer mem (some start) reff 0 0 r
        ≡ (ok (record { ptr = f.ptr; size = n }), after)
  unfolding ◌⟫=◌ read_data_pointer
  read_data_pointer-ok reff n start r r' after f filled e q =
      rw (read_data_pointer, filled, e, q) refl

module _ {A : Allocator} {Cap : Type 0} where
  -- Setting fewer than 2 ^ 29 bytes at a null pointer that is a word in use of the first segment, in a
  -- message whose segments are valid and lie apart, with an allocator that keeps its promises: it
  -- succeeds. A reader of the segments that the message is written out as, whose traversal limit allows
  -- the words of the data and one more, finds data at this pointer, through whatever far pointer was
  -- made, which is exactly these bytes.
  pub set_data-read_data :
      (Valid : A.State → Type 0) (fuel reff limit : ℕ) (value : List ℕ) (s : BuildState A Cap)
      → length value < 2 ^ 29
      → All (λ b. b < 256) value
      → is_null (pointer_at s.memory reff) ≡ true
      → InUse A Cap s.arena 0 reff
      → IsBuilt A Cap s.arena
      → IsLaidOut A Cap s.arena
      → Supplies A Valid (round_bytes_up_to_words (length value) + 1) s.arena.allocator
      → Separates A Cap s.arena (round_bytes_up_to_words (length value) + 1)
      → Valid s.arena.allocator
      → length s.arena.more_segments + 1 < 2 ^ 32
      → round_bytes_up_to_words (length value) + 1 ≤ limit
      → (home : ℕ) × (b d : Slice) × (t : BuildState A Cap) × (readers : ReaderArena Cap)
        × (after : ReadState Cap) × (set_data_pointer fuel reff 0 value s
            ≡ (ok (record { segment = home; value = b }), t))
        × (new_arena Cap (outputs t.arena) ≡ ok readers)
        × (read_data_pointer t.memory
              (some readers.segment0)
              reff
              0
              0
              (record { arena = readers; limit = limit })
            ≡ (ok d, after))
        × (slice_bytes t.memory d.ptr d.size ≡ value)
  set_data-read_data Valid fuel reff limit value s small bytes null w b l supplies separates v few
        allowed =
      let n = length value in
      let (new, s', e, leads, st, fresh) =
        allocate_object_lem Valid fuel reff 0 (round_bytes_up_to_words n) list s (λ q. absurd cc)
          (omega (arith, small)) null w b l supplies separates v few in
      let u = list_half n byte in
      let u_small : u < 2 ^ 32 = omega (arith, small) in
      let t = written fuel reff 0 value small new s' in
      let kept = written-Keeps fuel reff 0 value small new s' leads in
      let (readers, opened, c, over, begins) = reader_of_outputs t.arena in
      let r0 : ReadState Cap = record { arena = readers; limit = limit } in
      let (r', follows, paid) =
        ReaderFinds-way t reff 0 (round_bytes_up_to_words n) list new st readers.segment0 r0
          leads.near (leads.way u t u_small kept) (leads.at u t u_small kept) c over begins
          (omega (arith, allowed)) in
      let (described, has_kind) = Leads-upper u leads u_small in
      let granted =
        whole-granted (round_bytes_up_to_words n) new st r'.limit (omega (arith, paid, allowed)) in
      let after : ReadState Cap = record r' { limit = r'.limit - round_bytes_up_to_words n } in
      (
        new.segment,
        record { ptr = new.ptr; size = n },
        record { ptr = new.ptr; size = n },
        t,
        readers,
        after,
        set_data_pointer-ok fuel reff 0 value small new s s' e,
        opened,
        read_data_pointer-ok t.memory reff n readers.segment0 r0 r' after
            (record { reff = new.reff; ptr = new.ptr; segment = some (whole st) })
            (ap is_null kept.first ∙ leads.filled u u_small (λ g. omega arith)) follows
            (byte_list-ok t.memory new (whole st) n (r'.limit - round_bytes_up_to_words n) r'
              (ap (λ (x : WirePointer). x.upper32bits) (kept.second ∙ described))
              (ap kind kept.second ∙ has_kind) granted),
        slice_bytes-write_bytes value new.ptr (with_upper new.reff (list_half n byte) s').memory
            bytes,
      )
