-- ===== src/Layout/Readers/Elements.antt =====
-- The pointers of a struct and the elements of a list (src/private/layout.rs, `get_pointer_field` and
-- `get_struct_element`) of what was read from a message.
use capnproto_rust.Base.{
  ℕ, ◌+◌, ◌-◌, ◌*◌, ◌/◌, ◌%◌, ◌^◌, ◌≤◌, ◌<◌, ◌≡◌, ◌⊎◌, inl, inr, refl, ap, ◌∙◌, some, ltb, arith,
  Bool-cases, ltb→lt, ltb_false→le,
}
use capnproto_rust.Arena.{offset}
use capnproto_rust.Arena.Reader.{RawSegments}
use capnproto_rust.Layout.Pointer.{inline_composite}
use capnproto_rust.Layout.Contract.Checks.{Mapped, InMessage-IsPlaced}
use capnproto_rust.Layout.Reading.{StructReader, ListReader}
use capnproto_rust.Layout.Reading.Structs.{StructInside}
use capnproto_rust.Layout.Reading.ListTargets.{ListInside}
use capnproto_rust.Layout.Readers.{get_pointer_field, get_struct_element, default_pointer}

-- A pointer field of a struct that was read from a mapped message is the default pointer if the struct
-- does not have it, and else a word of the segment in which the struct lies, at the same nesting limit.
pub get_pointer_field-inside :
    (table : RawSegments) (nesting_limit : ℕ) (r : StructReader) (i : ℕ)
    (s : StructInside table nesting_limit r)
    → Mapped table
    → ((r.pointer_count ≤ i) × (get_pointer_field r i ≡ default_pointer))
      ⊎ ((i < r.pointer_count)
          × (s.home.ptr ≤ (get_pointer_field r i).pointer)
          × ((get_pointer_field r i).pointer + 8 ≤ s.home.ptr + 8 * s.home.size)
          × ((get_pointer_field r i).segment ≡ some s.home)
          × ((get_pointer_field r i).nesting_limit + 1 ≡ nesting_limit))
unfolding get_pointer_field
get_pointer_field-inside table nesting_limit r i s mapped =
    elim (Bool-cases (ltb i r.pointer_count)) [
      | inr e ↦ inl (ltb_false→le i r.pointer_count e, rw e refl)
      | inl e ↦
          let l = ltb→lt i r.pointer_count e in
          let placed = InMessage-IsPlaced s.home mapped s.in_message in
          let at : offset r.pointers i ≡ r.pointers + 8 * i =
            omega (arith, l, s.ends, placed.in_memory) in
          inr (
            l,
            rw e (omega (arith, at, s.starts, s.pointers_after)),
            rw e (omega (arith, at, l, s.ends)),
            rw e s.segment_is,
            rw e s.nested,
          )
    ]

-- An element of a list that was read as a list of structs from a mapped message, whose steps are whole
-- bytes: the struct that `get_struct_element` gives has the data size and the count of pointers of the
-- list's elements and one level of nesting less, its pointers stand right behind its data, and both
-- its sections, by the sizes it has itself, lie in the segment of the list, which it keeps.
pub get_struct_element-inside :
    (table : RawSegments) (nesting_limit : ℕ) (r : ListReader) (index : ℕ)
    (l : ListInside table inline_composite nesting_limit r)
    → Mapped table
    → r.step % 8 ≡ 0
    → index < r.element_count
    → let e = get_struct_element r index in
      (l.home.ptr ≤ e.data_section)
      × (e.pointers ≡ e.data_section + e.data_size / 8)
      × (e.pointers + 8 * e.pointer_count ≤ l.home.ptr + 8 * l.home.size)
      × (e.segment ≡ some l.home)
      × (e.data_size ≡ r.struct_data_size)
      × (e.pointer_count ≡ r.struct_pointer_count)
      × (e.nesting_limit ≡ r.nesting_limit - 1)
unfolding get_struct_element
get_struct_element-inside table nesting_limit r index l mapped whole i =
    let (starts, ends) = l.elements index i in
    let placed = InMessage-IsPlaced l.home mapped l.in_message in
    let q = r.step / 8 in
    let bytes : r.step ≡ 8 * q = omega (arith, whole) in
    let product : index * r.step ≡ 8 * (index * q) = ap (λ k. index * k) bytes ∙ omega arith in
    let at : (r.ptr + index * r.step / 8) % 2 ^ 64 ≡ r.ptr + index * q =
      omega (arith, product, ends, placed.in_memory) in
    let behind : ((r.ptr + index * r.step / 8) % 2 ^ 64 + r.struct_data_size / 8) % 2 ^ 64
        ≡ r.ptr + index * q + r.struct_data_size / 8 =
      omega (arith, at, product, ends, placed.in_memory, l.step_is) in
    (
      omega (arith, at, starts),
      omega (arith, at, behind),
      omega (arith, behind, product, ends, l.step_is),
      l.segment_is,
      refl,
      refl,
      refl,
    )
