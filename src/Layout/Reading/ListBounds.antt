-- ===== src/Layout/Reading/ListBounds.antt =====
-- The arithmetic of list pointers (src/private/layout.rs, `read_list_pointer`): 29-bit counts, steps in
-- bits, and where the elements of an inline composite list begin and end.
use capnproto_rust.Base.{
  ◌⊎◌, ==→eq, ℕ, ◌+◌, ◌*◌, ◌/◌, ◌%◌, ◌^◌, ◌≤◌, ◌<◌, ◌≡◌, ◌≢◌, inl, inr, refl, ap, ◌∙◌, Bool, true,
  false, ◌==◌, if◌then◌else◌, arith, Bool-cases, ltb, ◌||◌, ltb_false→le,
}
use capnproto_rust.Base.Outcome.{ok}
use capnproto_rust.Arena.{offset}
use capnproto_rust.Layout.Pointer.{
  ElementSize, void, bit, byte, two_bytes, four_bytes, eight_bytes, pointer, inline_composite,
  WirePointer, word_size, element_size, element_count,
}
use capnproto_rust.Layout.Memory.{Memory, pointer_at}
use native.Mathlib.Nat.{mul-le-mul, mul-le-mul_right}
use capnproto_rust.Layout.Pointer.{
  size_from, data_bits_per_element, pointers_per_element, round_bits_up_to_words,
}
use capnproto_rust.Layout.Reading.{is_void}

pub element_count_u32 :
    (mem : Memory) (a : ℕ) → ((b : ℕ) → mem b < 256) → element_count (pointer_at mem a) < 2 ^ 29
unfolding pointer_at
element_count_u32 mem a bytes =
    omega (arith, bytes (a + 4), bytes (a + 5), bytes (a + 6), bytes (a + 7))

pub word_size_u32 :
    (mem : Memory) (a : ℕ) → ((b : ℕ) → mem b < 256) → word_size (pointer_at mem a) < 131072
unfolding pointer_at
word_size_u32 mem a bytes =
    omega (arith, bytes (a + 4), bytes (a + 5), bytes (a + 6), bytes (a + 7))

size_lem : (v : ℕ) → v < 8 → (s : ElementSize) × (size_from v ≡ ok s)
unfolding size_from
size_lem v h = elim (Bool-cases (v == 0)) [
  | inl e ↦ rw e (void, refl)
  | inr n0 ↦ rw n0 (elim (Bool-cases (v == 1)) [
    | inl e ↦ rw e (bit, refl)
    | inr n1 ↦ rw n1 (elim (Bool-cases (v == 2)) [
      | inl e ↦ rw e (byte, refl)
      | inr n2 ↦ rw n2 (elim (Bool-cases (v == 3)) [
        | inl e ↦ rw e (two_bytes, refl)
        | inr n3 ↦ rw n3 (elim (Bool-cases (v == 4)) [
          | inl e ↦ rw e (four_bytes, refl)
          | inr n4 ↦ rw n4 (elim (Bool-cases (v == 5)) [
            | inl e ↦ rw e (eight_bytes, refl)
            | inr n5 ↦ rw n5 (elim (Bool-cases (v == 6)) [
              | inl e ↦ rw e (pointer, refl)
              | inr n6 ↦
                  let e : (v == 7) ≡ true = ground (arith, h, n0, n1, n2, n3, n4, n5, n6) in
                  rw (n6, e) (inline_composite, refl)
            ])
          ])
        ])
      ])
    ])
  ])
]

pub element_size_lem : (p : WirePointer) → (s : ElementSize) × (element_size p ≡ ok s)
unfolding element_size
element_size_lem p = size_lem (p.upper32bits % 256 % 8) (omega arith)

pub bits_rounded :
    (bits : ℕ)
    → bits < 2 ^ 37
    → (round_bits_up_to_words bits < 2 ^ 61) × (bits ≤ 64 * round_bits_up_to_words bits)
bits_rounded bits h = (omega (arith, h), omega (arith, h))

pub step_small :
    (size : ElementSize) → data_bits_per_element size + pointers_per_element size * 64 ≤ 64
step_small void = omega arith
step_small bit = omega arith
step_small byte = omega arith
step_small two_bytes = omega arith
step_small four_bytes = omega arith
step_small eight_bytes = omega arith
step_small pointer = omega arith
step_small inline_composite = omega arith

-- Only void elements have no bits, among those that are not structs.
pub step_void :
    (size : ElementSize)
    → size ≢ inline_composite
    → is_void size ≡ (data_bits_per_element size + pointers_per_element size * 64 == 0)
step_void void h = refl
step_void bit h = refl
step_void byte h = refl
step_void two_bytes h = refl
step_void four_bytes h = refl
step_void eight_bytes h = refl
step_void pointer h = refl
step_void inline_composite h = absurd (h refl)

pub mul_small : (m n : ℕ) → m < 2 ^ 29 → n ≤ 64 → m * n < 2 ^ 37
mul_small m n h k =
    let h' : m ≤ 536870911 = omega (arith, h) in
    let e : m * n ≤ 536870911 * 64 = mul-le-mul h' k in omega (arith, e)

pub offset-offset : (ptr n : ℕ) → offset ptr (n + 1) ≡ offset (offset ptr 1) n
offset-offset ptr n = omega arith

composite_start_le :
    (b : Bool) (hp hs ptr wc ds count w start bits : ℕ)
    → hp ≤ ptr
    → ptr + 8 * (wc + 1) ≤ hp + 8 * hs
    → hp + 8 * hs < 2 ^ 64
    → start ≡ offset (offset ptr 1) (if b then ds else 0)
    → count * w ≤ wc
    → bits ≡ 64 * (count * w)
    → w ≤ count * w
    → ds ≤ w
    → (hp ≤ start) × (8 * start + bits ≤ 8 * (hp + 8 * hs) + (if b then ds * 64 else 0))
composite_start_le true hp hs ptr wc ds count w start bits h e m at fit all one d =
    let s : start ≡ ptr + 8 + 8 * ds = omega (arith, at, e, m, d, one, fit) in
    (omega (arith, s, h), omega (arith, s, e, all, fit))
composite_start_le false hp hs ptr wc ds count w start bits h e m at fit all one d =
    let s : start ≡ ptr + 8 = omega (arith, at, e, m) in
    (omega (arith, s, h), omega (arith, s, e, all, fit))

composite_elements :
    (b : Bool) (hp hs ptr wc ds pc count start : ℕ)
    → hp ≤ ptr
    → ptr + 8 * (wc + 1) ≤ hp + 8 * hs
    → hp + 8 * hs < 2 ^ 64
    → start ≡ offset (offset ptr 1) (if b then ds else 0)
    → count * (ds + pc * 1) ≤ wc
    → ds + pc * 1 < 131072
    → 0 < count
    → (hp ≤ start)
      × (8 * start + count * ((ds + pc * 1) * 64 % 2 ^ 32)
          ≤ 8 * (hp + 8 * hs) + (if b then ds * 64 else 0))
composite_elements b hp hs ptr wc ds pc count start h e m at fit small some_element =
    let w = ds + pc * 1 in
    let one : 1 * w ≤ count * w = mul-le-mul_right w some_element in
    let step : w * 64 % 2 ^ 32 ≡ w * 64 = omega (arith, small) in
    let all : count * (w * 64 % 2 ^ 32) ≡ 64 * (count * w) =
      ap (λ k. count * k) step ∙ omega arith in
    composite_start_le b hp hs ptr wc ds count w start (count * (w * 64 % 2 ^ 32)) h e m at fit all
      (omega (arith, one)) (omega arith)

pub composite_elements_or_none :
    (b : Bool) (hp hs ptr wc ds pc count start : ℕ)
    → hp ≤ ptr
    → ptr + 8 * (wc + 1) ≤ hp + 8 * hs
    → hp + 8 * hs < 2 ^ 64
    → start ≡ offset (offset ptr 1) (if b then ds else 0)
    → count * (ds + pc * 1) ≤ wc
    → ds + pc * 1 < 131072
    → (count ≡ 0)
      ⊎ ((hp ≤ start)
          × (8 * start + count * ((ds + pc * 1) * 64 % 2 ^ 32)
              ≤ 8 * (hp + 8 * hs) + (if b then ds * 64 else 0)))
composite_elements_or_none b hp hs ptr wc ds pc count start h e m at fit small =
    elim (Bool-cases (count == 0)) [
      | inl z ↦ inl (==→eq count 0 z)
      | inr z ↦ inr (
          composite_elements b hp hs ptr wc ds pc count start h e m at fit small
            (ground (arith, z)))
    ]

-- The element of index `i`, or its pointers, where the elements fit as a whole
pub each_element :
    (b : Bool) (hp hs start step data_bits pointers count : ℕ)
    → (count ≡ 0)
      ⊎ ((hp ≤ start)
          × (8 * start + count * step ≤ 8 * (hp + 8 * hs) + (if b then data_bits else 0)))
    → step ≡ data_bits + 64 * pointers
    → (i : ℕ) → i < count
    → (hp ≤ start)
      × (8 * start + i * step + (if b then 64 * pointers else step) ≤ 8 * (hp + 8 * hs))
each_element b hp hs start step data_bits pointers count (inl none_at_all) sum i h =
    absurd (omega (arith, none_at_all, h))
each_element true hp hs start step data_bits pointers count (inr (starts, ends)) sum i h =
    let upto : (i + 1) * step ≤ count * step = mul-le-mul_right step (omega (arith, h)) in
    let next : (i + 1) * step ≡ i * step + step = omega arith in
    (starts, omega (arith, ends, upto, next, sum))
each_element false hp hs start step data_bits pointers count (inr (starts, ends)) sum i h =
    let upto : (i + 1) * step ≤ count * step = mul-le-mul_right step (omega (arith, h)) in
    let next : (i + 1) * step ≡ i * step + step = omega arith in
    (starts, omega (arith, ends, upto, next, sum))

pub composite_weight :
    (w count wc : ℕ)
    → w < 131072
    → count * w ≤ wc
    → (if w * 64 % 2 ^ 32 == 0 then count else count * (w * 64 % 2 ^ 32) / 64)
      ≤ 0 + (wc + 1) + (if w == 0 then count else 0)
composite_weight w count wc small fit =
    let step : w * 64 % 2 ^ 32 ≡ w * 64 = omega (arith, small) in
    elim (Bool-cases (w == 0)) [
      | inl z ↦
          let z' : (w * 64 % 2 ^ 32 == 0) ≡ true = ground (arith, z) in rw (z, z') (omega arith)
      | inr z ↦
          let z' : (w * 64 % 2 ^ 32 == 0) ≡ false = ground (arith, z, step) in
          let all : count * (w * 64 % 2 ^ 32) ≡ 64 * (count * w) =
            ap (λ k. count * k) step ∙ omega arith in
          rw (z, z') (omega (arith, all, fit))
    ]

or_false : (a b : Bool) → (a || b) ≡ false → (a ≡ false) × (b ≡ false)
or_false true b h = absurd cc
or_false false b h = (refl, h)

-- An element that is not too small for what is expected of it
pub fits_expected :
    (bits pointers expected_bits expected_pointers : ℕ)
    → (ltb bits expected_bits || ltb pointers expected_pointers) ≡ false
    → (expected_bits ≤ bits) × (expected_pointers ≤ pointers)
fits_expected bits pointers expected_bits expected_pointers e =
    let (one, rest) = or_false (ltb bits expected_bits) (ltb pointers expected_pointers) e in
    (ltb_false→le bits expected_bits one, ltb_false→le pointers expected_pointers rest)

pub le_add : (a b c : ℕ) → a ≤ b → a ≤ b + c
le_add a b c h = omega (arith, h)

pub plain_weight :
    (b : Bool) (count bits n : ℕ)
    → bits ≤ 64 * n
    → (if b then count else bits / 64) ≤ 0 + n + (if b then count else 0)
plain_weight true count bits n h = omega arith
plain_weight false count bits n h = omega (arith, h)
