-- ===== src/Layout/Building/StructLists.antt =====
-- The pointers to lists of structs of a message that is built (src/private/layout.rs), and the upgrade of
-- other lists to them.
use capnproto_rust.Base.{
  ℕ, zero, suc, ◌+◌, ◌*◌, ◌/◌, ◌%◌, ◌^◌, Bool, true, false, Option, some, leb, ◌&&◌, if◌then◌else◌,
}
use capnproto_rust.Base.Outcome.{panicked, non_struct_inline_composite, incompatible_element}
use capnproto_rust.Arena.{offset}
use capnproto_rust.Arena.Builder.{Allocator}
use capnproto_rust.Layout.Pointer.{
  ElementSize, bit, pointer, struct, list, kind, data_size, ptr_count, StructSize, total,
  set_struct_ref, set_inline_composite, element_size, element_count,
  inline_composite_list_element_count, set_kind_and_inline_composite_list_element_count,
  data_bits_per_element, pointers_per_element, round_bits_up_to_bytes,
}
use capnproto_rust.Layout.Reading.{is_void}
use capnproto_rust.Layout.Building.{
  Build, ◌≫=◌, ◌≫◌, from_outcome, done, refuse, crash, write, read_pointer, change_pointer,
  try_change_pointer, zero_bytes, copy_bytes,
}
use capnproto_rust.Layout.Building.Objects.{
  Allocation, allocate_object, zero_pointer_and_fars, transfer_pointer,
}
use capnproto_rust.Layout.Building.Structs.{maximum}
use capnproto_rust.Layout.Building.ListPointers.{ListBuilder, is_inline_composite, existing_list}

abbrev pub is_pointer_size : ElementSize → Bool
is_pointer_size pointer = true
is_pointer_size _ = false

abbrev pub is_bit : ElementSize → Bool
is_bit bit = true
is_bit _ = false

module _ {A : Allocator} {Cap : Type 0} where
  -- The loops that move the elements of a list of pointers, or of data, into structs
  unfoldable pub transfer_elements :
      (step dst_segment dst src_segment src count : ℕ) → Build A Cap (Unit {0})
  transfer_elements step dst_segment dst src_segment src zero = done tt
  transfer_elements step dst_segment dst src_segment src (suc count) =
      transfer_pointer dst_segment dst src_segment src
      ≫ transfer_elements step dst_segment (offset dst step) src_segment (offset src 1) count

  unfoldable pub copy_elements : (bytes step dst src count : ℕ) → Build A Cap (Unit {0})
  copy_elements bytes step dst src zero = done tt
  copy_elements bytes step dst src (suc count) =
      write (copy_bytes src dst bytes)
      ≫ copy_elements bytes step (offset dst step) ((src + bytes) % 2 ^ 64) count

module _ {A : Allocator} {Cap : Type 0} (fuel : ℕ) where
  -- The list reference and the tag of a list of structs whose words are allocated
  unfoldable pub tag_struct_list :
      Allocation
      → (element_count word_count words_per_element : ℕ) → StructSize
      → Build A Cap ListBuilder
  tag_struct_list new element_count word_count words_per_element size =
      try_change_pointer new.reff (set_inline_composite word_count)
      ≫ change_pointer new.ptr
          (set_kind_and_inline_composite_list_element_count struct element_count)
      ≫ change_pointer new.ptr (set_struct_ref size.data_words size.pointers)
      ≫ done (record {
        segment = some new.segment;
        ptr = offset new.ptr 1;
        element_count = element_count;
        step = words_per_element * 64;
        struct_data_size = size.data_words * 64;
        struct_pointer_count = size.pointers;
      })

  unfoldable pub init_struct_list_pointer :
      (reff segment element_count : ℕ) → StructSize → Build A Cap ListBuilder
  init_struct_list_pointer reff segment element_count size =
      let words_per_element = total size in
      let word_count = element_count * words_per_element % 2 ^ 32 in
      allocate_object fuel reff segment ((1 + word_count) % 2 ^ 32) list ≫= λ new.
      tag_struct_list new element_count word_count words_per_element size

  -- A list of other elements becomes a list of structs.
  unfoldable pub upgrade_list :
      (reff segment : ℕ) → ElementSize → StructSize → ℕ → Allocation → Build A Cap ListBuilder
  upgrade_list reff segment old_size size element_count old =
      let old_data_size = data_bits_per_element old_size in
      let old_step = old_data_size + pointers_per_element old_size * 64 in
      let is_pointers = is_pointer_size old_size in
      let new_size : StructSize = record {
        data_words = if is_pointers then size.data_words else maximum size.data_words 1;
        pointers = if is_pointers then maximum size.pointers 1 else size.pointers;
      } in
      let new_step = total new_size in
      let total_words = element_count * new_step % 2 ^ 32 in
      zero_pointer_and_fars segment reff
      ≫ (allocate_object fuel reff segment ((total_words + 1) % 2 ^ 32) list ≫= λ new.
          tag_struct_list new element_count total_words new_step new_size ≫= λ upgraded.
          (if is_pointers
            then transfer_elements new_step new.segment (offset upgraded.ptr new_size.data_words)
                old.segment old.ptr element_count
            else copy_elements (old_data_size / 8) new_step upgraded.ptr old.ptr element_count)
          ≫ write (zero_bytes old.ptr (round_bits_up_to_bytes (old_step * element_count)))
          ≫ done upgraded)

  unfoldable pub struct_list_from :
      (reff segment : ℕ) → ElementSize → StructSize → ℕ → Allocation → Build A Cap ListBuilder
  struct_list_from reff segment old_size size element_count old =
      if is_void old_size
      then init_struct_list_pointer reff segment element_count size
      else if is_bit old_size
      then refuse incompatible_element
      else upgrade_list reff segment old_size size element_count old

  -- The expansion of structs that are too small is `unimplemented!`.
  unfoldable pub writable_struct_composite : StructSize → Allocation → Build A Cap ListBuilder
  writable_struct_composite size old = read_pointer old.ptr ≫= λ tag.
      from_outcome (kind tag) ≫= λ k. elim k [
        | struct ↦
            if leb size.data_words (data_size tag) && leb size.pointers (ptr_count tag)
            then done (record {
              segment = some old.segment;
              ptr = offset old.ptr 1;
              element_count = inline_composite_list_element_count tag;
              step = (data_size tag + ptr_count tag * 1) * 64;
              struct_data_size = data_size tag * 64;
              struct_pointer_count = ptr_count tag;
            })
            else crash panicked
        | _ ↦ refuse non_struct_inline_composite
      ]

  unfoldable pub get_writable_struct_list_pointer :
      (reff segment : ℕ) → StructSize → Option ℕ → Build A Cap ListBuilder
  get_writable_struct_list_pointer reff segment size default_value =
      existing_list reff segment default_value (λ old. read_pointer old.reff ≫= λ t.
      from_outcome (element_size t) ≫= λ old_size.
      if is_inline_composite old_size
      then writable_struct_composite size old
      else struct_list_from reff segment old_size size (element_count t) old)
