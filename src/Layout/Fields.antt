-- ===== src/Layout/Fields.antt =====
-- Setting and getting the fields of a `WirePointer` (src/private/layout.rs).
use capnproto_rust.Base.{
  ℕ, ◌+◌, ◌*◌, ◌/◌, ◌%◌, ◌^◌, ◌≤◌, ◌<◌, ◌≡◌, ◌⊎◌, inl, inr, refl, ap, Bool, true, false, ◌==◌, ltb,
  not, arith, Bool-cases, ltb→lt, ltb_false→le,
}
use capnproto_rust.Base.Outcome.{ok, fault, panicked}
use capnproto_rust.Layout.Pointer.{
  ElementSize, void, bit, byte, two_bytes, four_bytes, eight_bytes, pointer, inline_composite,
  size_code, size_from, WirePointerKind, struct, list, far, other, kind_code, kind_from,
  WirePointer, kind, target, offset_bits, set_kind_and_target,
  set_kind_and_inline_composite_list_element_count, inline_composite_list_element_count, set_far,
  far_position_in_segment, is_double_far, set_list_ref, element_size, element_count, set_struct_ref,
  data_size, ptr_count, word_size, set_kind_and_target_for_empty_struct, is_null,
}

kind_from-kind_code : (k : WirePointerKind) → kind_from (kind_code k) ≡ ok k
unfolding kind_from
kind_from-kind_code struct = refl
kind_from-kind_code list = refl
kind_from-kind_code far = refl
kind_from-kind_code other = refl

size_from-size_code : (s : ElementSize) → size_from (size_code s) ≡ ok s
unfolding size_from
size_from-size_code void = refl
size_from-size_code bit = refl
size_from-size_code byte = refl
size_from-size_code two_bytes = refl
size_from-size_code four_bytes = refl
size_from-size_code eight_bytes = refl
size_from-size_code pointer = refl
size_from-size_code inline_composite = refl

pub kind_code_lt : (k : WirePointerKind) → kind_code k < 4
kind_code_lt struct = omega arith
kind_code_lt list = omega arith
kind_code_lt far = omega arith
kind_code_lt other = omega arith

pub size_code_lt : (s : ElementSize) → size_code s < 8
size_code_lt void = omega arith
size_code_lt bit = omega arith
size_code_lt byte = omega arith
size_code_lt two_bytes = omega arith
size_code_lt four_bytes = omega arith
size_code_lt eight_bytes = omega arith
size_code_lt pointer = omega arith
size_code_lt inline_composite = omega arith

-- The kind of a pointer whose two lowest bits are those of `k`.
kind_of_bits :
    (p : WirePointer) (k : WirePointerKind) (n : ℕ)
    → p.offset_and_kind ≡ n * 4 + kind_code k
    → kind p ≡ ok k
unfolding kind
kind_of_bits p k n h =
    let e : p.offset_and_kind % 256 % 4 ≡ kind_code k = omega (arith, h, kind_code_lt k) in
    rw (kind, e) (kind_from-kind_code k)

-- `addr` can be reached from a pointer at `this`: whole words away, and no more than 2 ^ 29 of them.
pub data Reaches (this addr : ℕ) : Type 0 where
  forwards : (d : ℕ) → d ≤ 2 ^ 29 → addr ≡ this + 8 * d → Reaches this addr
  backwards : (d : ℕ) → d < 2 ^ 29 → this ≡ addr + 8 * d → Reaches this addr

module _ (this addr : ℕ) where
  pub offset_bits_mod : Reaches this addr → (n : ℕ) × (offset_bits this addr ≡ n * 4)
  unfolding offset_bits
  offset_bits_mod (forwards d h e) = (offset_bits this addr / 4, ground (arith, h, e))
  offset_bits_mod (backwards d h e) = (offset_bits this addr / 4, ground (arith, h, e))

  target_offset :
      (k c : ℕ)
      → c < 4
      → this < 2 ^ 64
      → addr < 2 ^ 64
      → Reaches this addr
      → target this (record { offset_and_kind = offset_bits this addr + c; upper32bits = k }) ≡ addr
  unfolding offset_bits target
  target_offset k c l t a (forwards d h e) = ground (arith, h, e)
  target_offset k c l t a (backwards d h e) = ground (arith, h, e)

-- A pointer that is set to a target within 2 ^ 29 words of it, in either direction, has that target
-- and that kind. The other half of it is as it was.
pub target-set_kind_and_target :
    (this addr : ℕ) (k : WirePointerKind) (p : WirePointer)
    → this < 2 ^ 64
    → addr < 2 ^ 64
    → Reaches this addr
    → (target this (set_kind_and_target this k addr p) ≡ addr)
      × (kind (set_kind_and_target this k addr p) ≡ ok k)
      × ((set_kind_and_target this k addr p).upper32bits ≡ p.upper32bits)
unfolding set_kind_and_target
target-set_kind_and_target this addr k p t a r =
    let (n, e) = offset_bits_mod this addr r in
    (
      target_offset this addr p.upper32bits (kind_code k) (kind_code_lt k) t a r,
      kind_of_bits (set_kind_and_target this k addr p) k n (ap (λ x. x + kind_code k) e),
      refl,
    )

-- The pointer to an empty struct is a struct pointer whose target is the pointer itself, and it is
-- not null although its other half is 0.
pub empty_struct_lem :
    (this : ℕ) (p : WirePointer)
    → this < 2 ^ 64
    → (kind (set_kind_and_target_for_empty_struct p) ≡ ok struct)
      × (target this (set_kind_and_target_for_empty_struct p) ≡ this)
      × (is_null (set_kind_and_target_for_empty_struct p) ≡ false)
unfolding target
empty_struct_lem this p t = (
  kind_of_bits (set_kind_and_target_for_empty_struct p) struct 1073741823 refl,
  ground (arith, t),
  refl,
)

-- A far pointer gives back whether it is double, and any position below 2 ^ 29.
pub set_far_lem :
    (double : Bool) (pos : ℕ) (p : WirePointer)
    → pos < 2 ^ 29
    → (kind (set_far double pos p) ≡ ok far)
      × (far_position_in_segment (set_far double pos p) ≡ pos)
      × (is_double_far (set_far double pos p) ≡ double)
unfolding set_far
set_far_lem true pos p h =
    let e : (pos * 8 % 2 ^ 32 + 4 + 2) / 4 % 2 ≡ 1 = omega (arith, h) in
    (
      kind_of_bits (set_far true pos p) far (pos * 2 + 1) (omega (arith, h)),
      omega (arith, h),
      ap (λ x. not (x == 0)) e,
    )
set_far_lem false pos p h =
    let e : (pos * 8 % 2 ^ 32 + 0 + 2) / 4 % 2 ≡ 0 = omega (arith, h) in
    (
      kind_of_bits (set_far false pos p) far (pos * 2) (omega (arith, h)),
      omega (arith, h),
      ap (λ x. not (x == 0)) e,
    )

pub size_of_bits :
    (p : WirePointer) (s : ElementSize) (n : ℕ)
    → p.upper32bits ≡ n * 8 + size_code s
    → (element_size p ≡ ok s) × (element_count p ≡ n)
unfolding element_size
size_of_bits p s n h =
    let e : p.upper32bits % 256 % 8 ≡ size_code s = omega (arith, h, size_code_lt s) in
    (rw (element_size, e) (size_from-size_code s), omega (arith, h, size_code_lt s))

-- A list reference gives back its element size and count. A count of 2 ^ 29 or more is refused by a
-- panic.
pub set_list_ref_lem :
    (es : ElementSize) (ec : ℕ) (p : WirePointer)
    → ((ec < 2 ^ 29)
        × (q : WirePointer) × (set_list_ref es ec p ≡ ok q)
        × (element_size q ≡ ok es)
        × (element_count q ≡ ec)
        × (q.offset_and_kind ≡ p.offset_and_kind))
      ⊎ ((2 ^ 29 ≤ ec) × (set_list_ref es ec p ≡ fault panicked))
unfolding set_list_ref
set_list_ref_lem es ec p = elim (Bool-cases (ltb ec (2 ^ 29))) [
  | inl e ↦
      let q : WirePointer = record p { upper32bits = ec * 8 + size_code es } in
      let (s, c) = size_of_bits q es ec refl in inl (ltb→lt ec (2 ^ 29) e, q, rw e refl, s, c, refl)
  | inr e ↦ inr (ltb_false→le ec (2 ^ 29) e, rw e refl)
]

-- The tag of an inline composite list gives back any count below 2 ^ 30.
pub inline_composite_tag_lem :
    (k : WirePointerKind) (count : ℕ) (p : WirePointer)
    → count < 2 ^ 30
    → (kind (set_kind_and_inline_composite_list_element_count k count p) ≡ ok k)
      × (inline_composite_list_element_count
            (set_kind_and_inline_composite_list_element_count k count p)
          ≡ count)
unfolding set_kind_and_inline_composite_list_element_count
inline_composite_tag_lem k count p h = (
  kind_of_bits (set_kind_and_inline_composite_list_element_count k count p) k count
      (omega (arith, h)),
  omega (arith, h, kind_code_lt k),
)

-- A struct reference gives back its two sizes.
pub set_struct_ref_lem :
    (ds rc : ℕ) (p : WirePointer)
    → ds < 65536
    → (data_size (set_struct_ref ds rc p) ≡ ds)
      × (ptr_count (set_struct_ref ds rc p) ≡ rc)
      × (word_size (set_struct_ref ds rc p) ≡ ds + rc)
unfolding set_struct_ref
set_struct_ref_lem ds rc p h = (omega (arith, h), omega (arith, h), omega (arith, h))
