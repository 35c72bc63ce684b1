-- ===== src/Layout/Building/Structs.antt =====
-- `StructBuilder`, and the struct pointers of a message that is built (src/private/layout.rs).
use capnproto_rust.Base.{ℕ, zero, suc, ◌+◌, ◌*◌, Option, some, ltb, ◌||◌, if◌then◌else◌}
use capnproto_rust.Base.Outcome.{panicked, not_a_struct}
use capnproto_rust.Arena.{offset}
use capnproto_rust.Arena.Builder.{Allocator}
use capnproto_rust.Layout.Pointer.{
  struct, kind, is_null, target, data_size, ptr_count, StructSize, total, set_struct_ref,
}
use capnproto_rust.Layout.Reading.{null_default}
use capnproto_rust.Layout.Building.{
  Build, ◌≫=◌, ◌≫◌, from_outcome, done, refuse, crash, write, read_memory, read_pointer,
  change_pointer, zero_words, copy_words,
}
use capnproto_rust.Layout.Building.Objects.{
  Allocation, allocate_object, follow_builder_fars, zero_pointer_and_fars, transfer_pointer,
}

-- `segment` is a null pointer where the struct is in the default list.
pub record StructBuilder : Type 0 where
  pub segment : Option ℕ
  pub data_section : ℕ
  pub pointers : ℕ
  pub data_size : ℕ
  pub pointer_count : ℕ

abbrev pub maximum : ℕ → ℕ → ℕ
maximum a b = if ltb a b then b else a

module _ {A : Allocator} {Cap : Type 0} where
  -- The loop over `count` pointers of a struct that moves
  unfoldable pub transfer_pointers :
      (dst_segment dst src_segment src count : ℕ) → Build A Cap (Unit {0})
  transfer_pointers dst_segment dst src_segment src zero = done tt
  transfer_pointers dst_segment dst src_segment src (suc count) =
      transfer_pointer dst_segment dst src_segment src
      ≫ transfer_pointers dst_segment (offset dst 1) src_segment (offset src 1) count

module _ {A : Allocator} {Cap : Type 0} (fuel : ℕ) where
  unfoldable pub init_struct_pointer : (reff segment : ℕ) → StructSize → Build A Cap StructBuilder
  init_struct_pointer reff segment size =
      allocate_object fuel reff segment (total size) struct ≫= λ new.
      change_pointer new.reff (set_struct_ref size.data_words size.pointers)
      ≫ done (record {
        segment = some new.segment;
        data_section = new.ptr;
        pointers = offset new.ptr size.data_words;
        data_size = size.data_words * 64;
        pointer_count = size.pointers;
      })

  -- The struct is too small for `size`: it moves to a larger place.
  unfoldable pub upgrade_struct :
      (reff segment : ℕ)
      → StructSize
      → Allocation
      → (old_data_size old_pointer_count : ℕ) → Build A Cap StructBuilder
  upgrade_struct reff segment size old old_data_size old_pointer_count =
      let new_data_size = maximum old_data_size size.data_words in
      let new_pointer_count = maximum old_pointer_count size.pointers in
      let old_pointer_section = offset old.ptr old_data_size in
      zero_pointer_and_fars segment reff
      ≫ (allocate_object fuel reff segment (new_data_size + new_pointer_count * 1) struct ≫= λ new.
          let new_pointer_section = offset new.ptr new_data_size in
          change_pointer new.reff (set_struct_ref new_data_size new_pointer_count)
          ≫ write (copy_words old.ptr new.ptr old_data_size)
          ≫ transfer_pointers new.segment new_pointer_section old.segment old_pointer_section
              old_pointer_count
          ≫ write (zero_words old.ptr (old_data_size + old_pointer_count))
          ≫ done (record {
            segment = some new.segment;
            data_section = new.ptr;
            pointers = new_pointer_section;
            data_size = new_data_size * 64;
            pointer_count = new_pointer_count;
          }))

  unfoldable pub writable_struct :
      (reff segment : ℕ) → StructSize → Allocation → Build A Cap StructBuilder
  writable_struct reff segment size old = read_pointer old.reff ≫= λ t.
      from_outcome (kind t) ≫= λ k. elim k [
        | struct ↦
            if ltb (data_size t) size.data_words || ltb (ptr_count t) size.pointers
            then upgrade_struct reff segment size old (data_size t) (ptr_count t)
            else done (record {
              segment = some old.segment;
              data_section = old.ptr;
              pointers = offset old.ptr (data_size t);
              data_size = data_size t * 64;
              pointer_count = ptr_count t;
            })
        | _ ↦ refuse not_a_struct
      ]

  unfoldable pub get_writable_struct_pointer :
      (reff segment : ℕ) → StructSize → Option ℕ → Build A Cap StructBuilder
  get_writable_struct_pointer reff segment size default_value = read_pointer reff ≫= λ p.
      if is_null p
      then (read_memory (λ mem. null_default mem default_value) ≫= λ no_default.
          if no_default then init_struct_pointer reff segment size else crash panicked)
      else follow_builder_fars reff (target reff p) segment ≫= writable_struct reff segment size
