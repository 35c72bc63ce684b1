-- ===== src/Layout/Building/ListPointers.antt =====
-- `ListBuilder`, and the list pointers of a message that is built (src/private/layout.rs).
use capnproto_rust.Base.{
  ℕ, ◌+◌, ◌*◌, Bool, true, false, Option, none, some, ltb, ◌||◌, not, if◌then◌else◌,
}
use capnproto_rust.Base.Outcome.{
  panicked, assert, not_a_list, non_struct_inline_composite, incompatible_element,
}
use capnproto_rust.Arena.{offset}
use capnproto_rust.Arena.Builder.{Allocator}
use capnproto_rust.Layout.Pointer.{
  ElementSize, void, bit, pointer, inline_composite, struct, list, WirePointer, kind, is_null,
  target, data_size, ptr_count, word_size, set_list_ref, element_size, element_count,
  inline_composite_list_element_count, data_bits_per_element, pointers_per_element,
  round_bits_up_to_words,
}
use capnproto_rust.Layout.Reading.{null_default}
use capnproto_rust.Layout.Building.{
  Build, ◌≫=◌, ◌≫◌, from_outcome, done, refuse, crash, read_memory, read_pointer,
  try_change_pointer,
}
use capnproto_rust.Layout.Building.Objects.{Allocation, allocate_object, follow_builder_fars}

-- `segment` is a null pointer in the default list.
pub record ListBuilder : Type 0 where
  pub segment : Option ℕ
  pub ptr : ℕ
  pub element_count : ℕ
  pub step : ℕ
  pub struct_data_size : ℕ
  pub struct_pointer_count : ℕ

-- `ListBuilder::new_default`
abbrev pub default_list_builder : ListBuilder
default_list_builder = record {
  segment = none;
  ptr = 0;
  element_count = 0;
  step = 0;
  struct_data_size = 0;
  struct_pointer_count = 0;
}

abbrev pub is_inline_composite : ElementSize → Bool
is_inline_composite inline_composite = true
is_inline_composite _ = false

module _ {A : Allocator} {Cap : Type 0} where
  -- The list that a pointer leads to
  unfoldable pub listed :
      (Allocation → Build A Cap ListBuilder) → Allocation → Build A Cap ListBuilder
  listed k old = read_pointer old.reff ≫= λ t.
      from_outcome (kind t) ≫= λ kd. elim kd [ list ↦ k old | _ ↦ refuse not_a_list ]

  -- What every getter does first: the default where the pointer is null, or the list that it leads to.
  unfoldable pub existing_list :
      (reff segment : ℕ)
      → Option ℕ
      → (Allocation → Build A Cap ListBuilder)
      → Build A Cap ListBuilder
  existing_list reff segment default_value k = read_pointer reff ≫= λ p.
      if is_null p
      then (read_memory (λ mem. null_default mem default_value) ≫= λ no_default.
          if no_default then done default_list_builder else crash panicked)
      else follow_builder_fars reff (target reff p) segment ≫= listed k

  -- Where the elements begin for what is expected of an inline composite list
  unfoldable pub composite_elements : ElementSize → WirePointer → ℕ → Build A Cap ℕ
  composite_elements void tag ptr = done ptr
  composite_elements bit tag ptr = refuse incompatible_element
  composite_elements pointer tag ptr =
      if ltb (ptr_count tag) 1
      then refuse incompatible_element
      else done (offset ptr (data_size tag))
  composite_elements inline_composite tag ptr = crash panicked
  composite_elements _ tag ptr =
      if ltb (data_size tag) 1 then refuse incompatible_element else done ptr

  unfoldable pub writable_composite : ElementSize → Allocation → Build A Cap ListBuilder
  writable_composite expected old = read_pointer old.ptr ≫= λ tag. from_outcome (kind tag) ≫= λ k.
      elim k [
        | struct ↦ composite_elements expected tag (offset old.ptr 1) ≫= λ ptr. done (record {
          segment = some old.segment;
          ptr = ptr;
          element_count = inline_composite_list_element_count tag;
          step = word_size tag * 64;
          struct_data_size = data_size tag * 64;
          struct_pointer_count = ptr_count tag;
        })
        | _ ↦ refuse non_struct_inline_composite
      ]

  unfoldable pub writable_plain :
      (size expected : ElementSize) → ℕ → Allocation → Build A Cap ListBuilder
  writable_plain size expected count old =
      let bits = data_bits_per_element size in
      let pointers = pointers_per_element size in
      if ltb bits (data_bits_per_element expected) || ltb pointers (pointers_per_element expected)
      then refuse incompatible_element
      else done (record {
        segment = some old.segment;
        ptr = old.ptr;
        element_count = count;
        step = bits + pointers * 64;
        struct_data_size = bits;
        struct_pointer_count = pointers;
      })

  unfoldable pub writable_list : ElementSize → Allocation → Build A Cap ListBuilder
  writable_list expected old = read_pointer old.reff ≫= λ t.
      from_outcome (element_size t) ≫= λ size.
      if is_inline_composite size
      then writable_composite expected old
      else writable_plain size expected (element_count t) old

  unfoldable pub get_writable_list_pointer :
      (reff segment : ℕ) → ElementSize → Option ℕ → Build A Cap ListBuilder
  get_writable_list_pointer reff segment expected default_value =
      from_outcome (assert (not (is_inline_composite expected)))
      ≫ existing_list reff segment default_value (writable_list expected)

module _ {A : Allocator} {Cap : Type 0} (fuel : ℕ) where
  unfoldable pub init_list_pointer :
      (reff segment element_count : ℕ) → ElementSize → Build A Cap ListBuilder
  init_list_pointer reff segment element_count size =
      let data_size = data_bits_per_element size in
      let pointer_count = pointers_per_element size in
      let step = data_size + pointer_count * 64 in
      from_outcome (assert (not (is_inline_composite size)))
      ≫ (allocate_object fuel reff segment (round_bits_up_to_words (element_count * step)) list
          ≫= λ new.
              try_change_pointer new.reff (set_list_ref size element_count)
              ≫ done (record {
                segment = some new.segment;
                ptr = new.ptr;
                element_count = element_count;
                step = step;
                struct_data_size = data_size;
                struct_pointer_count = pointer_count;
              }))
