-- ===== src/Layout/Builders/Returned.antt =====
-- From `init_struct_pointer` and `set_data_field_mask` to `read_struct_pointer` and `get_data_field_mask`
-- (src/private/layout.rs), over the segments that the message is written out as.
use capnproto_rust.Base.{
  ℕ, suc, ◌+◌, ◌*◌, ◌^◌, ◌≤◌, ◌<◌, ◌≡◌, ◌⊎◌, inl, inr, refl, true, some, none, length, arith,
}
use capnproto_rust.Base.Outcome.{ok}
use capnproto_rust.Arena.Builder.{Allocator}
use capnproto_rust.Arena.Granted.{IsBuilt}
use capnproto_rust.Arena.Allocation.{Supplies}
use capnproto_rust.Arena.Apart.{IsLaidOut, Separates}
use capnproto_rust.Arena.Reader.{ReaderArena, new_arena}
use capnproto_rust.Layout.Pointer.{struct, is_null, StructSize, total}
use capnproto_rust.Layout.Memory.{Memory, pointer_at, ReadState}
use capnproto_rust.Layout.Reading.{StructReader, read_struct_pointer}
use capnproto_rust.Layout.Readers.{mask, get_data_field, get_data_field_mask}
use capnproto_rust.Layout.Building.{BuildState}
use capnproto_rust.Layout.Building.Written.{pointer_at-same, write_number-off}
use capnproto_rust.Layout.Building.Structs.{StructBuilder, init_struct_pointer}
use capnproto_rust.Layout.Building.Stands.{outputs}
use capnproto_rust.Layout.Building.Readable.{whole}
use capnproto_rust.Layout.Building.Leads.{Keeps, with_upper}
use capnproto_rust.Layout.Building.Finds.{InUse}
use capnproto_rust.Layout.Building.Found.{allocate_object_lem}
use capnproto_rust.Layout.Building.Returned.{made_struct, struct_half, init_struct_pointer-ok}
use capnproto_rust.Layout.Building.ReadStructs.{read_struct, struct_found}
use capnproto_rust.Layout.Builders.StructFields.{as_reader, set_data_field, set_data_field_mask}
use capnproto_rust.Layout.Builders.Stored.{set_data_field-get_data_field}

-- A data field that the struct has lies in the words of the struct, so a pointer apart from them is as
-- it was.
kept_by_field :
    (bytes : ℕ) (b : StructBuilder) (i value m amount q : ℕ) (mem : Memory)
    → (i + 1) * (8 * bytes) ≤ 64 * amount
    → (q + 8 ≤ b.data_section) ⊎ (b.data_section + 8 * amount ≤ q)
    → pointer_at (set_data_field_mask bytes b i value m mem) q ≡ pointer_at mem q
unfolding set_data_field_mask set_data_field
kept_by_field bytes b i value m amount q mem l (inl h) =
    pointer_at-same (set_data_field_mask bytes b i value m mem) mem q (λ n u.
      write_number-off (b.data_section + i * bytes) bytes (mask (8 * bytes) value m) mem (q + n)
        (inl (omega (arith, h, u))))
kept_by_field bytes b i value m amount q mem l (inr h) =
    pointer_at-same (set_data_field_mask bytes b i value m mem) mem q (λ n u.
      write_number-off (b.data_section + i * bytes) bytes (mask (8 * bytes) value m) mem (q + n)
        (inr (omega (arith, h, l))))

module _ {A : Allocator} {Cap : Type 0} where
  -- Initialising a struct of `u16` sizes at a null pointer that is a word in use of the first segment, in
  -- a message whose segments are valid and lie apart, with an allocator that keeps its promises, and
  -- storing a number in a data field that the struct has, for a type of `bytes` bytes whose default is
  -- `m`: a reader of the segments that the message is written out as, whose traversal limit allows the
  -- words of the struct and one more, and whose nesting limit is not 0, finds a struct at this pointer,
  -- through whatever far pointer was made, and the number in its field.
  pub set_data_field-read_struct :
      (Valid : A.State → Type 0) (fuel reff nesting_limit limit bytes i value m : ℕ)
      (size : StructSize) (s : BuildState A Cap)
      → size.data_words < 65536
      → size.pointers < 65536
      → value < 256 ^ bytes
      → (i + 1) * (8 * bytes) ≤ size.data_words * 64
      → is_null (pointer_at s.memory reff) ≡ true
      → InUse A Cap s.arena 0 reff
      → IsBuilt A Cap s.arena
      → IsLaidOut A Cap s.arena
      → Supplies A Valid (total size + 1) s.arena.allocator
      → Separates A Cap s.arena (total size + 1)
      → Valid s.arena.allocator
      → length s.arena.more_segments + 1 < 2 ^ 32
      → total size + 1 ≤ limit
      → 0 < nesting_limit
      → (b : StructBuilder) × (t : BuildState A Cap) × (readers : ReaderArena Cap)
        × (r : StructReader) × (after : ReadState Cap) × (init_struct_pointer fuel reff 0 size s
            ≡ (ok b, t))
        × (new_arena Cap (outputs t.arena) ≡ ok readers)
        × (read_struct_pointer
              (set_data_field_mask bytes b i value m t.memory)
              (some readers.segment0)
              reff
              none
              nesting_limit
              (record { arena = readers; limit = limit })
            ≡ (ok r, after))
        × (get_data_field_mask (set_data_field_mask bytes b i value m t.memory) bytes r i m ≡ value)
  unfolding get_data_field_mask get_data_field as_reader
  set_data_field-read_struct Valid fuel reff nesting_limit limit bytes i value m size s d p small
        fits null w b l supplies separates v few allowed deep =
      let (new, s', e, leads, st, fresh) =
        allocate_object_lem Valid fuel reff 0 (total size) struct s (λ q. absurd cc)
          (omega (arith, d, p)) null w b l supplies separates v few in
      let made = made_struct new size in
      let t = with_upper new.reff (struct_half size) s' in
      let mem = set_data_field_mask bytes made i value m t.memory in
      let room : (i + 1) * (8 * bytes) ≤ 64 * total size = omega (arith, fits) in
      let kept : Keeps reff new.reff t (record t { memory = mem }) = record {
        arena = refl;
        first = kept_by_field bytes made i value m (total size) reff t.memory room leads.from_reff;
        second =
            kept_by_field bytes made i value m (total size) new.reff t.memory room leads.from_new;
      } in
      let (readers, after, opened, reads) =
        struct_found reff nesting_limit limit size new s' (record t { memory = mem }) st leads kept
          d p allowed deep in
      let (stored, others) =
        set_data_field-get_data_field bytes made (whole st) i (suc i) value m t.memory small fits
          (λ q. absurd (omega (arith, q))) in
      (
        made,
        t,
        readers,
        read_struct (whole st) new size nesting_limit,
        after,
        init_struct_pointer-ok fuel reff 0 size new s s' e,
        opened,
        reads,
        stored,
      )
