-- ===== src/Layout/Size.antt =====
-- `wire_helpers::total_size` (src/private/layout.rs), by recursion on the nesting limit.
pub mod Bounded
use capnproto_rust.Base.{
  ℕ, zero, suc, ◌+◌, ◌*◌, ◌/◌, ◌%◌, ◌^◌, Bool, true, false, Option, none, some, ◌==◌, ltb,
  if◌then◌else◌,
}
use capnproto_rust.Base.Outcome.{
  fault, panicked, too_deeply_nested, unknown_pointer, non_struct_inline_composite,
  elements_overrun,
}
use capnproto_rust.Arena.{SegmentReader, offset}
use capnproto_rust.Layout.Pointer.{
  ElementSize, void, bit, byte, two_bytes, four_bytes, eight_bytes, pointer, inline_composite,
  struct, list, far, other, kind, is_null, target, data_size, ptr_count, word_size, element_size,
  element_count, inline_composite_word_count, is_capability, inline_composite_list_element_count,
  data_bits_per_element, round_bits_up_to_words,
}
use capnproto_rust.Layout.Memory.{
  Memory, pointer_at, Run, ◌⟫=◌, ◌⟫◌, lift, pure, fail, bounds_check,
}
use capnproto_rust.Layout.Reading.{Followed, follow_fars, StructReader}

-- `MessageSize` of src/lib.rs
pub record MessageSize : Type 0 where
  pub word_count : ℕ
  pub cap_count : ℕ

unfoldable pub plus_eq : MessageSize → MessageSize → MessageSize
plus_eq a b = record {
  word_count = (a.word_count + b.word_count) % 2 ^ 64;
  cap_count = (a.cap_count + b.cap_count) % 2 ^ 32;
}

abbrev pub words : ℕ → MessageSize
words n = record { word_count = n; cap_count = 0 }

module _ {Cap : Type 0} (mem : Memory)
    (recur : Option SegmentReader → ℕ → Run Cap MessageSize) where
  -- The loop over `count` pointers from an address on
  unfoldable pub sum_pointers : Option SegmentReader → ℕ → ℕ → MessageSize → Run Cap MessageSize
  sum_pointers segment zero pos result = pure result
  sum_pointers segment (suc count) pos result =
      recur segment pos ⟫= λ r. sum_pointers segment count (offset pos 1) (plus_eq result r)

  -- The loop over the structs of an inline composite list
  unfoldable pub sum_elements :
      Option SegmentReader
      → (data_size pointer_count : ℕ) → ℕ
      → ℕ
      → MessageSize
      → Run Cap MessageSize
  sum_elements segment data_size pointer_count zero pos result = pure result
  sum_elements segment data_size pointer_count (suc count) pos result =
      let pos' = offset pos data_size in
      sum_pointers segment pointer_count pos' result ⟫= λ result'.
      sum_elements segment data_size pointer_count count (offset pos' pointer_count) result'

  unfoldable pub size_struct : Followed → Run Cap MessageSize
  size_struct f =
      let p = pointer_at mem f.reff in
      bounds_check f.segment f.ptr (offset f.ptr (word_size p))
      ⟫ sum_pointers f.segment (ptr_count p) (offset f.ptr (data_size p)) (words (word_size p))

  unfoldable pub size_composite : Followed → Run Cap MessageSize
  size_composite f =
      let word_count = inline_composite_word_count (pointer_at mem f.reff) in
      let tag = pointer_at mem f.ptr in
      let count = inline_composite_list_element_count tag in
      bounds_check f.segment f.ptr (offset f.ptr (word_count + 1))
      ⟫ (if word_count == 0
          then pure (words (word_count + 1))
          else lift (kind tag) ⟫= λ k. elim k [
            | struct ↦
                if ltb word_count (word_size tag * count)
                then fail elements_overrun
                else sum_elements f.segment (data_size tag) (ptr_count tag) count (offset f.ptr 1)
                    (words (word_count + 1))
            | _ ↦ fail non_struct_inline_composite
          ])

  unfoldable pub size_list : ElementSize → Followed → Run Cap MessageSize
  size_list void f = pure (words 0)
  size_list pointer f =
      let count = element_count (pointer_at mem f.reff) in
      bounds_check f.segment f.ptr (offset f.ptr count)
      ⟫ sum_pointers f.segment count f.ptr (words count)
  size_list inline_composite f = size_composite f
  size_list size f =
      let count = element_count (pointer_at mem f.reff) in
      let total_words = round_bits_up_to_words (count * data_bits_per_element size) in
      bounds_check f.segment f.ptr (offset f.ptr total_words) ⟫ pure (words total_words)

  unfoldable pub size_target : Followed → Run Cap MessageSize
  size_target f =
      let p = pointer_at mem f.reff in
      lift (kind p) ⟫= λ k. elim k [
        | struct ↦ size_struct f
        | list ↦ lift (element_size p) ⟫= λ size. size_list size f
        | far ↦ lift (fault panicked)
        | other ↦
            if is_capability p
            then pure (record { word_count = 0; cap_count = 1 })
            else fail unknown_pointer
      ]

unfoldable pub total_size :
    {Cap : Type 0} → Memory → ℕ → Option SegmentReader → ℕ → Run Cap MessageSize
total_size mem zero segment reff =
    if is_null (pointer_at mem reff) then pure (words 0) else fail too_deeply_nested
total_size mem (suc nesting_limit) segment reff =
    let p = pointer_at mem reff in
    if is_null p
    then pure (words 0)
    else follow_fars mem reff (target reff p) segment
      ⟫= size_target mem (total_size mem nesting_limit)

-- `StructReader::total_size`
unfoldable pub struct_total_size : {Cap : Type 0} → Memory → StructReader → Run Cap MessageSize
struct_total_size mem r =
    sum_pointers mem (total_size mem r.nesting_limit) r.segment r.pointer_count r.pointers
      (words (round_bits_up_to_words r.data_size + r.pointer_count * 1))
