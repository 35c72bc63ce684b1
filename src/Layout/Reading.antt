-- ===== src/Layout/Reading.antt =====
-- The reading functions of `wire_helpers` and the readers they make (src/private/layout.rs). A null
-- `*const SegmentReader` is `none`, and so is a null default value.
pub mod Safety
pub mod Structs
pub mod ListBounds
pub mod ListTargets
pub mod CompositeTargets
pub mod Lists
use capnproto_rust.Base.{
  ℕ, zero, suc, ◌+◌, ◌-◌, ◌*◌, ◌/◌, ◌%◌, ◌^◌, Bool, true, false, Option, none, some, ◌==◌, ltb,
  ◌&&◌, ◌||◌, if◌then◌else◌,
}
use capnproto_rust.Base.Outcome.{
  Outcome, fault, panicked, Error, too_deeply_nested, not_a_struct, not_a_list, not_a_capability,
  unknown_pointer, invalid_capability, non_struct_inline_composite, elements_overrun,
  incompatible_element, not_bytes, no_nul_terminator,
}
use capnproto_rust.Arena.{SegmentReader, offset}
use capnproto_rust.Arena.Reader.{extract_cap}
use capnproto_rust.Layout.Pointer.{
  ElementSize, void, bit, byte, two_bytes, four_bytes, eight_bytes, pointer, inline_composite,
  WirePointerKind, struct, list, far, other, WirePointer, kind, is_null, target, data_size,
  ptr_count, word_size, element_size, element_count, inline_composite_word_count, segment_id,
  cap_index, is_capability, inline_composite_list_element_count, far_position_in_segment,
  is_double_far, data_bits_per_element, pointers_per_element, round_bits_up_to_words,
}
use capnproto_rust.Layout.Memory.{
  Memory, pointer_at, ReadState, Run, ◌⟫=◌, ◌⟫◌, lift, pure, fail, arena_segment, bounds_check,
  check_amplified,
}

pub record StructReader : Type 0 where
  pub segment : Option SegmentReader
  pub data_section : ℕ
  pub pointers : ℕ
  pub data_size : ℕ
  pub pointer_count : ℕ
  pub nesting_limit : ℕ

-- `StructReader::new_default`, with null pointers
abbrev pub default_struct : StructReader
default_struct = record {
  segment = none;
  data_section = 0;
  pointers = 0;
  data_size = 0;
  pointer_count = 0;
  nesting_limit = 2147483647;
}

pub record ListReader : Type 0 where
  pub segment : Option SegmentReader
  pub ptr : ℕ
  pub element_count : ℕ
  pub step : ℕ
  pub struct_data_size : ℕ
  pub struct_pointer_count : ℕ
  pub nesting_limit : ℕ

-- `ListReader::new_default`
abbrev pub default_list : ListReader
default_list = record {
  segment = none;
  ptr = 0;
  element_count = 0;
  step = 0;
  struct_data_size = 0;
  struct_pointer_count = 0;
  nesting_limit = 2147483647;
}

-- What `follow_fars` returns: the new `reff`, the target, and the new `segment`.
pub record Followed : Type 0 where
  pub reff : ℕ
  pub ptr : ℕ
  pub segment : Option SegmentReader

-- Whether `default_value` is null, or points to a null pointer.
abbrev pub null_default : Memory → Option ℕ → Bool
null_default mem none = true
null_default mem (some d) = is_null (pointer_at mem d)

abbrev pub is_void : ElementSize → Bool
is_void void = true
is_void _ = false

module _ {Cap : Type 0} (mem : Memory) where
  unfoldable pub follow_double_far : ℕ → Run Cap Followed
  follow_double_far pad = arena_segment (segment_id (pointer_at mem pad)) ⟫= λ s. pure (record {
    reff = offset pad 1;
    ptr = offset s.ptr (far_position_in_segment (pointer_at mem pad));
    segment = some s;
  })

  -- The case of a far pointer `p`
  unfoldable pub follow_far : WirePointer → Run Cap Followed
  follow_far p = arena_segment (segment_id p) ⟫= λ s.
      let ptr = offset s.ptr (far_position_in_segment p) in
      bounds_check (some s) ptr (offset ptr (if is_double_far p then 2 else 1))
      ⟫ (if is_double_far p
          then follow_double_far ptr
          else pure
              (record { reff = ptr; ptr = target ptr (pointer_at mem ptr); segment = some s }))

  unfoldable pub follow_fars : ℕ → ℕ → Option SegmentReader → Run Cap Followed
  follow_fars reff ref_target none = pure (record { reff = reff; ptr = ref_target; segment = none })
  follow_fars reff ref_target (some s) = lift (kind (pointer_at mem reff)) ⟫= λ k. elim k [
    | far ↦ follow_far (pointer_at mem reff)
    | _ ↦ pure (record { reff = reff; ptr = ref_target; segment = some s })
  ]

  -- A struct pointer that has been followed
  unfoldable pub struct_target : ℕ → Followed → Run Cap StructReader
  struct_target nesting_limit f =
      let p = pointer_at mem f.reff in
      lift (kind p) ⟫= λ k. elim k [
        | struct ↦
            bounds_check f.segment f.ptr (offset f.ptr (word_size p))
            ⟫ pure (record {
              segment = f.segment;
              data_section = f.ptr;
              pointers = offset f.ptr (data_size p);
              data_size = data_size p * 64;
              pointer_count = ptr_count p;
              nesting_limit = nesting_limit - 1;
            })
        | _ ↦ fail not_a_struct
      ]

  unfoldable pub read_struct_pointer :
      Option SegmentReader → ℕ → Option ℕ → ℕ → Run Cap StructReader
  read_struct_pointer segment reff default_value nesting_limit =
      let p = pointer_at mem reff in
      if is_null p
      then (if null_default mem default_value then pure default_struct else lift (fault panicked))
      else if nesting_limit == 0
      then fail too_deeply_nested
      else follow_fars reff (target reff p) segment ⟫= struct_target nesting_limit

  unfoldable pub read_capability_pointer : ℕ → Run Cap Cap
  read_capability_pointer reff s =
      let p = pointer_at mem reff in
      if is_null p
      then lift (fault panicked) s
      else if is_capability p
      then elim (extract_cap s.arena (cap_index p)) [
        | none ↦ fail invalid_capability s
        | some cap ↦ pure cap s
      ]
      else fail not_a_capability s

  -- What an inline composite list must have for the elements that are expected of it, and where they
  -- begin: `ptr` is the first element.
  unfoldable pub composite_start : ElementSize → WirePointer → ℕ → Run Cap ℕ
  composite_start void tag ptr = pure ptr
  composite_start bit tag ptr = fail incompatible_element
  composite_start pointer tag ptr =
      if ptr_count tag == 0 then fail incompatible_element else pure (offset ptr (data_size tag))
  composite_start inline_composite tag ptr = pure ptr
  composite_start _ tag ptr = if data_size tag == 0 then fail incompatible_element else pure ptr

  -- The branch `InlineComposite`. The tag stands before the elements.
  unfoldable pub composite_target : ElementSize → ℕ → Followed → Run Cap ListReader
  composite_target expected nesting_limit f =
      let word_count = inline_composite_word_count (pointer_at mem f.reff) in
      let tag = pointer_at mem f.ptr in
      let ptr = offset f.ptr 1 in
      let size = inline_composite_list_element_count tag in
      let words_per_element = word_size tag in
      bounds_check f.segment f.ptr (offset ptr word_count)
      ⟫ (lift (kind tag) ⟫= λ k. elim k [
        | struct ↦
            if ltb word_count (size * words_per_element)
            then fail elements_overrun
            else (if words_per_element == 0 then check_amplified f.segment size else pure tt)
              ⟫ (composite_start expected tag ptr ⟫= λ start. pure (record {
                segment = f.segment;
                ptr = start;
                element_count = size;
                step = words_per_element * 64 % 2 ^ 32;
                struct_data_size = data_size tag * 64;
                struct_pointer_count = ptr_count tag;
                nesting_limit = nesting_limit - 1;
              }))
        | _ ↦ fail non_struct_inline_composite
      ])

  -- The other branch: a list of primitives or pointers, of element size `size`.
  unfoldable pub plain_target : ElementSize → ElementSize → ℕ → Followed → Run Cap ListReader
  plain_target size expected nesting_limit f =
      let bits = data_bits_per_element size in
      let pointers = pointers_per_element size in
      let count = element_count (pointer_at mem f.reff) in
      let step = bits + pointers * 64 in
      bounds_check f.segment f.ptr (offset f.ptr (round_bits_up_to_words (count * step)))
      ⟫ ((if is_void size then check_amplified f.segment count else pure tt)
          ⟫ (if ltb bits (data_bits_per_element expected)
                || ltb pointers (pointers_per_element expected)
              then fail incompatible_element
              else pure (record {
                segment = f.segment;
                ptr = f.ptr;
                element_count = count;
                step = step;
                struct_data_size = bits;
                struct_pointer_count = pointers;
                nesting_limit = nesting_limit - 1;
              })))

  abbrev pub sized_target : ElementSize → ElementSize → ℕ → Followed → Run Cap ListReader
  sized_target inline_composite expected nesting_limit f = composite_target expected nesting_limit f
  sized_target size expected nesting_limit f = plain_target size expected nesting_limit f

  unfoldable pub list_target : ElementSize → ℕ → Followed → Run Cap ListReader
  list_target expected nesting_limit f =
      let p = pointer_at mem f.reff in
      lift (kind p) ⟫= λ k. elim k [
        | list ↦ lift (element_size p) ⟫= λ size. sized_target size expected nesting_limit f
        | _ ↦ fail not_a_list
      ]

  unfoldable pub read_list_pointer :
      Option SegmentReader → ℕ → Option ℕ → ElementSize → ℕ → Run Cap ListReader
  read_list_pointer segment reff default_value expected nesting_limit =
      let p = pointer_at mem reff in
      if is_null p
      then (if null_default mem default_value then pure default_list else lift (fault panicked))
      else if nesting_limit == 0
      then fail too_deeply_nested
      else follow_fars reff (target reff p) segment ⟫= list_target expected nesting_limit
