-- ===== src/Layout/Building/Copying.antt =====
-- Copies of structs, lists and pointers from a message that is read into one that is built
-- (src/private/layout.rs). `copy_pointer` goes down the nesting limit.
use capnproto_rust.Base.{
  ℕ, zero, suc, ◌+◌, ◌*◌, ◌/◌, ◌%◌, ◌^◌, Option, none, some, ltb, leb, ◌==◌, if◌then◌else◌,
}
use capnproto_rust.Base.Outcome.{
  Outcome, ok, fault, panicked, overrun, too_deeply_nested, unknown_pointer, invalid_capability,
  non_struct_inline_composite, elements_overrun,
}
use capnproto_rust.Arena.{SegmentReader, offset}
use capnproto_rust.Arena.Builder.{Allocator, inject_cap}
use capnproto_rust.Arena.Reader.{extract_cap}
use capnproto_rust.Layout.Pointer.{
  ElementSize, void, bit, byte, two_bytes, four_bytes, eight_bytes, pointer, struct, list, far,
  other, WirePointer, kind, is_null, target, data_size, ptr_count, word_size, set_struct_ref,
  set_list_ref, set_inline_composite, element_size, element_count, inline_composite_word_count,
  inline_composite_list_element_count, set_kind_and_inline_composite_list_element_count,
  is_capability, cap_index, set_cap, data_bits_per_element, pointers_per_element,
  round_bits_up_to_words,
}
use capnproto_rust.Layout.Memory.{bounds_check, check_amplified}
use capnproto_rust.Layout.Reading.{StructReader, ListReader, Followed, follow_fars, is_void}
use capnproto_rust.Layout.Readers.{get_bool_field}
use capnproto_rust.Layout.Building.{
  Build, ◌≫=◌, ◌≫◌, from_outcome, done, refuse, crash, write, reading, read_memory, read_pointer,
  change_pointer, try_change_pointer, zero_words, copy_words, write_number,
}
use capnproto_rust.Layout.Building.Objects.{Allocation, allocate_object}
use capnproto_rust.Layout.Building.ListPointers.{is_inline_composite}
use capnproto_rust.Layout.Building.Blobs.{SegmentAnd}

-- The element size of a list of data, from its step
unfoldable pub size_of_step : ℕ → Outcome ElementSize
size_of_step step =
    if step == 0
    then ok void
    else if step == 1
    then ok bit
    else if step == 8
    then ok byte
    else if step == 16
    then ok two_bytes
    else if step == 32
    then ok four_bytes
    else if step == 64
    then ok eight_bytes
    else fault panicked

module _ {A : Allocator} {Cap : Type 0} where
  unfoldable pub set_capability_pointer : (segment reff : ℕ) → Cap → Build A Cap (Unit {0})
  set_capability_pointer segment reff cap =
      (λ s.
        let (index, arena) = inject_cap A Cap s.arena cap in (ok index, record s { arena = arena }))
      ≫= λ index. change_pointer reff (set_cap index)

  -- `(*src_segment).arena.extract_cap`, on a segment that is not null.
  unfoldable pub copy_capability :
      (dst_segment dst : ℕ) → Followed → WirePointer → Build A Cap (SegmentAnd ℕ)
  copy_capability dst_segment dst f p =
      if is_capability p
      then elim f.segment [
        | none ↦ crash overrun
        | some _ ↦ λ s. elim (extract_cap s.source.arena (cap_index p)) [
          | none ↦ refuse invalid_capability s
          | some cap ↦
              (set_capability_pointer dst_segment dst cap
                  ≫ done (record { segment = dst_segment; value = 0 }))
                s
        ]
      ]
      else refuse unknown_pointer

module _ {A : Allocator} {Cap : Type 0} (fuel : ℕ)
    (copy : (dst_segment dst : ℕ) → Option SegmentReader → ℕ → Build A Cap (SegmentAnd ℕ)) where
  -- The loop over `count` pointers of the source
  unfoldable pub copy_pointers :
      (segment dst : ℕ) → Option SegmentReader → (src count : ℕ) → Build A Cap (Unit {0})
  copy_pointers segment dst from src zero = done tt
  copy_pointers segment dst from src (suc count) = copy segment dst from src ≫= λ _.
      copy_pointers segment (offset dst 1) from (offset src 1) count

  unfoldable pub copy_data_section : StructReader → ℕ → Build A Cap (Unit {0})
  copy_data_section value ptr =
      if value.data_size == 1
      then (read_memory (λ mem. get_bool_field mem value 0) ≫= λ b.
          write (write_number ptr 1 (if b then 1 else 0)))
      else write (copy_words value.data_section ptr (value.data_size / 64))

  unfoldable pub set_struct_pointer : (segment reff : ℕ) → StructReader → Build A Cap (SegmentAnd ℕ)
  set_struct_pointer segment reff value =
      let data_size = round_bits_up_to_words value.data_size in
      allocate_object fuel reff segment (data_size + value.pointer_count * 1) struct ≫= λ new.
      change_pointer new.reff (set_struct_ref (data_size % 65536) value.pointer_count)
      ≫ copy_data_section value new.ptr
      ≫ copy_pointers new.segment (offset new.ptr data_size) value.segment value.pointers
          value.pointer_count
      ≫ done (record { segment = new.segment; value = new.ptr })

  -- The structs of a list, from `src` to `dst`
  unfoldable pub copy_structs :
      (segment : ℕ) → ListReader → (data_size dst src count : ℕ) → Build A Cap (Unit {0})
  copy_structs segment value data_size dst src zero = done tt
  copy_structs segment value data_size dst src (suc count) =
      let pointer_count = value.struct_pointer_count in
      let dst' = offset dst data_size in
      let src' = offset src data_size in
      write (copy_words src dst (value.struct_data_size / 64))
      ≫ copy_pointers segment dst' value.segment src' pointer_count
      ≫ copy_structs segment value data_size (offset dst' pointer_count) (offset src' pointer_count)
          count

  unfoldable pub set_plain_list : ListReader → ℕ → Allocation → Build A Cap (SegmentAnd ℕ)
  set_plain_list value total_size new =
      (if value.struct_pointer_count == 1
        then try_change_pointer new.reff (set_list_ref pointer value.element_count)
          ≫ copy_pointers new.segment new.ptr value.segment value.ptr value.element_count
        else from_outcome (size_of_step value.step) ≫= λ size.
            try_change_pointer new.reff (set_list_ref size value.element_count)
            ≫ write (copy_words value.ptr new.ptr total_size))
      ≫ done (record { segment = new.segment; value = new.ptr })

  unfoldable pub set_struct_list : ListReader → ℕ → Allocation → Build A Cap (SegmentAnd ℕ)
  set_struct_list value total_size new =
      let data_size = round_bits_up_to_words value.struct_data_size in
      try_change_pointer new.reff (set_inline_composite total_size)
      ≫ change_pointer new.ptr
          (set_kind_and_inline_composite_list_element_count struct value.element_count)
      ≫ change_pointer new.ptr (set_struct_ref (data_size % 65536) value.struct_pointer_count)
      ≫ copy_structs new.segment value data_size (offset new.ptr 1) value.ptr value.element_count
      ≫ done (record { segment = new.segment; value = new.ptr })

  -- The number of bits is a `u32` product, which wraps in a release build.
  unfoldable pub set_list_pointer : (segment reff : ℕ) → ListReader → Build A Cap (SegmentAnd ℕ)
  set_list_pointer segment reff value =
      let total_size = round_bits_up_to_words (value.element_count * value.step % 2 ^ 32) in
      if leb value.step 64
      then allocate_object fuel reff segment total_size list ≫= set_plain_list value total_size
      else allocate_object fuel reff segment ((total_size + 1) % 2 ^ 32) list
        ≫= set_struct_list value total_size

  unfoldable pub copy_struct :
      (dst_segment dst nesting_limit : ℕ) → Followed → WirePointer → Build A Cap (SegmentAnd ℕ)
  copy_struct dst_segment dst nesting_limit f p =
      reading (λ mem. bounds_check f.segment f.ptr (offset f.ptr (word_size p)))
      ≫ set_struct_pointer dst_segment dst (record {
        segment = f.segment;
        data_section = f.ptr;
        pointers = offset f.ptr (data_size p);
        data_size = data_size p * 64;
        pointer_count = ptr_count p;
        nesting_limit = nesting_limit;
      })

  unfoldable pub copy_composite :
      (dst_segment dst nesting_limit : ℕ) → Followed → WirePointer → Build A Cap (SegmentAnd ℕ)
  copy_composite dst_segment dst nesting_limit f p =
      let word_count = inline_composite_word_count p in
      let ptr = offset f.ptr 1 in
      reading (λ mem. bounds_check f.segment f.ptr (offset ptr word_count))
      ≫ (read_pointer f.ptr ≫= λ tag. from_outcome (kind tag) ≫= λ k. elim k [
        | struct ↦
            let count = inline_composite_list_element_count tag in
            let words = word_size tag in
            if ltb word_count (words * count)
            then refuse elements_overrun
            else (if words == 0 then reading (λ mem. check_amplified f.segment count) else done tt)
              ≫ set_list_pointer dst_segment dst (record {
                segment = f.segment;
                ptr = ptr;
                element_count = count;
                step = words * 64;
                struct_data_size = data_size tag * 64;
                struct_pointer_count = ptr_count tag;
                nesting_limit = nesting_limit;
              })
        | _ ↦ refuse non_struct_inline_composite
      ])

  unfoldable pub copy_plain :
      (dst_segment dst nesting_limit : ℕ) → ElementSize → Followed → ℕ → Build A Cap (SegmentAnd ℕ)
  copy_plain dst_segment dst nesting_limit size f count =
      let step = data_bits_per_element size + pointers_per_element size * 64 in
      reading
        (λ mem. bounds_check f.segment f.ptr (offset f.ptr (round_bits_up_to_words (count * step))))
      ≫ (if is_void size then reading (λ mem. check_amplified f.segment count) else done tt)
      ≫ set_list_pointer dst_segment dst (record {
        segment = f.segment;
        ptr = f.ptr;
        element_count = count;
        step = step;
        struct_data_size = data_bits_per_element size;
        struct_pointer_count = pointers_per_element size;
        nesting_limit = nesting_limit;
      })

unfoldable pub copy_pointer :
    {A : Allocator} {Cap : Type 0}
    → (fuel nesting_limit dst_segment dst : ℕ) → Option SegmentReader
    → ℕ
    → Build A Cap (SegmentAnd ℕ)
copy_pointer fuel zero dst_segment dst src_segment src = read_pointer src ≫= λ p.
    if is_null p
    then write (zero_words dst 1) ≫ done (record { segment = dst_segment; value = 0 })
    else reading (λ mem. follow_fars mem src (target src p) src_segment) ≫= λ f.
        read_pointer f.reff ≫= λ q. from_outcome (kind q) ≫= λ k. elim k [
          | struct ↦ refuse too_deeply_nested
          | list ↦ from_outcome (element_size q) ≫= λ size. refuse too_deeply_nested
          | far ↦ crash panicked
          | other ↦ copy_capability dst_segment dst f q
        ]
copy_pointer fuel (suc nesting_limit) dst_segment dst src_segment src =
    let copy = copy_pointer fuel nesting_limit in
    read_pointer src ≫= λ p.
    if is_null p
    then write (zero_words dst 1) ≫ done (record { segment = dst_segment; value = 0 })
    else reading (λ mem. follow_fars mem src (target src p) src_segment) ≫= λ f.
        read_pointer f.reff ≫= λ q. from_outcome (kind q) ≫= λ k. elim k [
          | struct ↦ copy_struct fuel copy dst_segment dst nesting_limit f q
          | list ↦ from_outcome (element_size q) ≫= λ size.
              if is_inline_composite size
              then copy_composite fuel copy dst_segment dst nesting_limit f q
              else copy_plain fuel copy dst_segment dst nesting_limit size f (element_count q)
          | far ↦ crash panicked
          | other ↦ copy_capability dst_segment dst f q
        ]
