-- ===== src/Layout/Readers/Fields.antt =====
-- What the fields of a struct that is read depend on (src/private/layout.rs, `StructReader`).
use capnproto_rust.Base.{
  ◌⊎◌, ℕ, zero, suc, ◌+◌, ◌*◌, ◌/◌, ◌%◌, ◌^◌, ◌≤◌, ◌<◌, ◌≡◌, inl, inr, refl, ap, ◌==◌, ltb, leb,
  not, arith, Bool-cases, ltb→lt,
}
use capnproto_rust.Layout.Memory.{Memory}
use capnproto_rust.Layout.Reading.{StructReader}
use capnproto_rust.Layout.Readers.{read_number, get_data_field, get_bool_field}

-- Two memories that hold the same bytes in `[a, a + n)`.
abbrev pub Same : Memory → Memory → ℕ → ℕ → Type 0
Same mem mem' a n = (i : ℕ) → a ≤ i → i < a + n → mem i ≡ mem' i

read_number-Same :
    (mem mem' : Memory) (n a : ℕ) → Same mem mem' a n → read_number mem a n ≡ read_number mem' a n
unfolding read_number
read_number-Same mem mem' zero a h = refl
read_number-Same mem mem' (suc n) a h = omega (
  arith,
  h a (omega arith) (omega arith),
  read_number-Same mem mem' n (a + 1) (λ i l u. h i (omega (arith, l)) (omega (arith, u))),
)

-- A data field is read from the data section: what lies outside of it does not matter, wherever the
-- field would be, and a field that does not fit into the section is 0.
pub get_data_field-Same :
    (mem mem' : Memory) (bytes : ℕ) (r : StructReader) (i : ℕ)
    → Same mem mem' r.data_section (r.data_size / 8)
    → (get_data_field mem bytes r i ≡ get_data_field mem' bytes r i)
      × (((i + 1) * (8 * bytes) ≤ r.data_size) ⊎ (get_data_field mem bytes r i ≡ 0))
unfolding get_data_field
get_data_field-Same mem mem' bytes r i h =
    elim (Bool-cases (leb ((i + 1) * (8 * bytes)) r.data_size)) [
      | inl e ↦
          let fits : (i + 1) * (8 * bytes) ≤ r.data_size = ground (arith, e) in
          rw e (
            read_number-Same mem mem' bytes (r.data_section + i * bytes)
                (λ a l u. h a (omega (arith, l)) (omega (arith, u, fits))),
            inl fits,
          )
      | inr e ↦ rw e (refl, inr refl)
    ]

-- A bool field of a data section of whole bytes is read from that section: what lies outside of it does
-- not matter, wherever the field would be.
pub get_bool_field-Same :
    (mem mem' : Memory) (r : StructReader) (i : ℕ)
    → r.data_size % 8 ≡ 0
    → Same mem mem' r.data_section (r.data_size / 8)
    → get_bool_field mem r i ≡ get_bool_field mem' r i
unfolding get_bool_field
get_bool_field-Same mem mem' r i whole h = elim (Bool-cases (ltb (i % 2 ^ 32) r.data_size)) [
  | inl e ↦
      let fits = ltb→lt (i % 2 ^ 32) r.data_size e in
      let same = h (r.data_section + i % 2 ^ 32 / 8) (omega arith) (omega (arith, fits, whole)) in
      rw e (ap (λ b. not (b / 2 ^ (i % 2 ^ 32 % 8) % 2 == 0)) same)
  | inr e ↦ rw e refl
]
