-- ===== src/Layout/Builders/Stored.antt =====
-- The fields of a struct that is built and those of its reader (src/private/layout.rs): numbers, bools,
-- and both under the mask of a default value.
use capnproto_rust.Base.{
  ℕ, zero, suc, ◌+◌, ◌*◌, ◌/◌, ◌%◌, ◌^◌, ◌≤◌, ◌<◌, ◌≡◌, ◌≢◌, ◌⊎◌, inl, inr, refl, ap, ◌∙◌, Bool,
  true, false, ltb, leb, if◌then◌else◌, arith, Bool-cases,
}
use native.Mathlib.Nat.{mul-le-mul_right, pow-suc}
use capnproto_rust.Arena.{SegmentReader}
use capnproto_rust.Layout.Memory.{Memory}
use capnproto_rust.Layout.Readers.{
  get_data_field, get_data_field_mask, mask, xor_bool, get_bool_field, get_bool_field_mask,
}
use capnproto_rust.Layout.Building.Structs.{StructBuilder}
use capnproto_rust.Layout.Building.Written.{read_number-write_number, read_number-off}
use capnproto_rust.Layout.Builders.StructFields.{
  as_reader, set_data_field, set_data_field_mask, set_bool_field, set_bool_field_mask,
}
use capnproto_rust.Layout.Builders.{read_bit}
use capnproto_rust.Layout.Builders.Bits.{read_bit-write_bit}

-- Masking twice gives the number back.
pub mask-mask : (n v m : ℕ) → v < 2 ^ n → mask n (mask n v m) m ≡ v
unfolding mask
mask-mask zero v m h = omega (arith, h)
mask-mask (suc n) v m h =
    let rest = mask-mask n (v / 2) (m / 2) (omega (arith, h)) in
    let low : ((v + m) % 2 + 2 * mask n (v / 2) (m / 2) + m) % 2 ≡ v % 2 = omega arith in
    let high : ((v + m) % 2 + 2 * mask n (v / 2) (m / 2)) / 2 ≡ mask n (v / 2) (m / 2) =
      omega arith in
    rw (low, high, rest) (omega arith)

mask-less : (n v m : ℕ) → mask n v m < 2 ^ n
unfolding mask
mask-less zero v m = omega arith
mask-less (suc n) v m = omega (arith, mask-less n (v / 2) (m / 2))

-- Two numbered slots of one width do not overlap, unless they are the same.
slots_apart :
    (start n i j : ℕ)
    → i ≢ j
    → (start + j * n + n ≤ start + i * n) ⊎ (start + i * n + n ≤ start + j * n)
slots_apart start n i j d = elim (Bool-cases (ltb i j)) [
  | inl e ↦
      let less : i + 1 ≤ j = ground (arith, e) in
      let q : (i + 1) * n ≤ j * n = mul-le-mul_right n less in inr (omega (arith, q))
  | inr e ↦
      let less : j + 1 ≤ i = ground (arith, e, d) in
      let q : (j + 1) * n ≤ i * n = mul-le-mul_right n less in inl (omega (arith, q))
]

pow_byte : (a : ℕ) → 2 ^ (suc (suc (suc (suc (suc (suc (suc (suc a)))))))) ≡ 2 ^ a * 256
pow_byte a = omega (
  arith,
  pow-suc 2 a,
  pow-suc 2 (suc a),
  pow-suc 2 (suc (suc a)),
  pow-suc 2 (suc (suc (suc a))),
  pow-suc 2 (suc (suc (suc (suc a)))),
  pow-suc 2 (suc (suc (suc (suc (suc a))))),
  pow-suc 2 (suc (suc (suc (suc (suc (suc a)))))),
  pow-suc 2 (suc (suc (suc (suc (suc (suc (suc a))))))),
)

pow_bytes : (n : ℕ) → 2 ^ (8 * n) ≡ 256 ^ n
pow_bytes zero = refl
pow_bytes (suc n) =
    let e : 8 * suc n ≡ (suc (suc (suc (suc (suc (suc (suc (suc (8 * n))))))))) = omega arith in
    ap (λ k. 2 ^ k) e ∙ omega (arith, pow_byte (8 * n), pow_bytes n, pow-suc 256 n)

-- A number that is stored in a data field of a struct of that size, for a type of `bytes` bytes whose
-- default value is `m`, is what the reader of the struct gives for this field and this default. No
-- other field of that width changes.
pub set_data_field-get_data_field :
    (bytes : ℕ) (b : StructBuilder) (segment : SegmentReader) (i j value m : ℕ) (mem : Memory)
    → value < 256 ^ bytes
    → (i + 1) * (8 * bytes) ≤ b.data_size
    → i ≢ j
    → (get_data_field_mask
          (set_data_field_mask bytes b i value m mem)
          bytes
          (as_reader segment b)
          i
          m
        ≡ value)
      × (get_data_field (set_data_field_mask bytes b i value m mem) bytes (as_reader segment b) j
          ≡ get_data_field mem bytes (as_reader segment b) j)
unfolding get_data_field_mask get_data_field set_data_field_mask set_data_field as_reader
set_data_field-get_data_field bytes b segment i j value m mem small fits d =
    let stored = mask (8 * bytes) value m in
    let w : leb ((i + 1) * (8 * bytes)) b.data_size ≡ true = ground (arith, fits) in
    let stored_small : stored < 256 ^ bytes =
      omega (arith, mask-less (8 * bytes) value m, pow_bytes bytes) in
    (
      rw (w, read_number-write_number bytes (b.data_section + i * bytes) stored mem stored_small)
          (mask-mask (8 * bytes) value m (omega (arith, small, pow_bytes bytes))),
      ap (λ x. if leb ((j + 1) * (8 * bytes)) b.data_size then x else 0)
          (read_number-off bytes bytes (b.data_section + i * bytes) (b.data_section + j * bytes)
            stored mem (slots_apart b.data_section bytes i j d)),
    )

xor_bool-xor_bool : (v m : Bool) → xor_bool (xor_bool v m) m ≡ v
xor_bool-xor_bool true true = refl
xor_bool-xor_bool true false = refl
xor_bool-xor_bool false true = refl
xor_bool-xor_bool false false = refl

-- A bool that is stored in a field of a data section of fewer than 2 ^ 32 bits, whose default value is
-- `m`, is what the reader of the struct gives for this field and this default. No other bool field of
-- an index below 2 ^ 32 changes.
pub set_bool_field-get_bool_field :
    (b : StructBuilder) (segment : SegmentReader) (i j : ℕ) (value m : Bool) (mem : Memory)
    → i < b.data_size
    → b.data_size < 2 ^ 32
    → j < 2 ^ 32
    → i ≢ j
    → (get_bool_field_mask (set_bool_field_mask b i value m mem) (as_reader segment b) i m ≡ value)
      × (get_bool_field (set_bool_field_mask b i value m mem) (as_reader segment b) j
          ≡ get_bool_field mem (as_reader segment b) j)
unfolding get_bool_field_mask get_bool_field set_bool_field_mask set_bool_field as_reader read_bit
set_bool_field-get_bool_field b segment i j value m mem fits small below d =
    let (own, others) = read_bit-write_bit b.data_section i j (xor_bool value m) mem in
    let index : i % 2 ^ 32 ≡ i = omega (arith, fits, small) in
    let index' : j % 2 ^ 32 ≡ j = omega (arith, below) in
    let w : ltb i b.data_size ≡ true = ground (arith, fits) in
    (
      rw (index, w) (ap (λ y. xor_bool y m) own ∙ xor_bool-xor_bool value m),
      rw index' (ap (λ y. if ltb j b.data_size then y else false) (others d)),
    )
