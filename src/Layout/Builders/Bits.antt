-- ===== src/Layout/Builders/Bits.antt =====
-- The bits of a byte (src/private/layout.rs, `set_bool_field` and `get_bool_field`).
use capnproto_rust.Base.{
  ℕ, zero, suc, ◌+◌, ◌-◌, ◌*◌, ◌/◌, ◌%◌, ◌^◌, ◌≤◌, ◌<◌, ◌≡◌, ◌≢◌, ◌⊎◌, inl, inr, refl, sym, ap, ◌∙◌,
  Bool, true, false, ◌==◌, ltb, not, if◌then◌else◌, arith, Bool-cases, ltb→lt, ltb_false→le,
}
use native.Mathlib.Nat.{
  pow-suc, one-le-pow, mul_assoc, add-mul-div_left, div-eq_of_lt, div-div-eq-div-mul,
}
use capnproto_rust.Layout.Memory.{Memory}
use capnproto_rust.Layout.Building.{byte_of, write_number}
use capnproto_rust.Layout.Building.Written.{Outside, write_number-at, write_number-off}
use capnproto_rust.Layout.Builders.{bit_at, set_bit, read_bit, write_bit}

pow_split : (j d : ℕ) → 2 ^ (j + suc d) ≡ 2 ^ j * (2 * 2 ^ d)
pow_split j zero = let e : j + 1 ≡ suc j = omega arith in ap (λ k. 2 ^ k) e ∙ pow-suc 2 j
pow_split j (suc d) =
    let e : j + suc (suc d) ≡ suc (j + suc d) = omega arith in
    ap (λ k. 2 ^ k) e
    ∙ pow-suc 2 (j + suc d)
    ∙ ap (λ k. k * 2) (pow_split j d)
    ∙ mul_assoc (2 ^ j) (2 * 2 ^ d) 2
    ∙ ap (λ k. 2 ^ j * k) (omega (arith, pow-suc 2 d))

pow_positive : (k : ℕ) → 0 < 2 ^ k
pow_positive k = omega (arith, one-le-pow k 2 (omega arith))

module _ (c d : ℕ) (positive : 0 < d) where
  -- What is added above a bit does not change it.
  above : (w : ℕ) → (c + d * (2 * w)) / d % 2 ≡ c / d % 2
  above w = omega (arith, add-mul-div_left c (2 * w) positive)

  -- The bit itself is flipped.
  flipped : (c + d) / d ≡ c / d + 1
  flipped =
      let e : c + d ≡ c + d * 1 = omega arith in ap (λ x. x / d) e ∙ add-mul-div_left c 1 positive

  -- Where the bit is 0, to set it changes nothing above it.
  below : (w : ℕ) → c / d % 2 ≡ 0 → (c + d) / (d * (2 * w)) ≡ c / (d * (2 * w))
  below w z =
      let e : (c / d + 1) / 2 ≡ c / d / 2 = omega (arith, z) in
      sym (div-div-eq-div-mul (c + d) d (2 * w))
      ∙ ap (λ x. x / (2 * w)) flipped
      ∙ sym (div-div-eq-div-mul (c / d + 1) 2 w)
      ∙ ap (λ x. x / w) e
      ∙ div-div-eq-div-mul (c / d) 2 w
      ∙ div-div-eq-div-mul c d (2 * w)

-- A byte is `c`, where the bit `k` of `c` is 0, or `c` with this bit.
record Cleared (b k : ℕ) : Type 0 where
  c : ℕ
  clear : c / 2 ^ k % 2 ≡ 0
  is : (b ≡ c) ⊎ (b ≡ c + 2 ^ k)
  set : (v : Bool) → set_bit b k v ≡ (if v then c + 2 ^ k else c)

set_cleared :
    (b d x : ℕ) (v : Bool) → x ≡ 0 → b - x * d + (if v then 1 else 0) * d ≡ (if v then b + d else b)
set_cleared b d x true e = rw e (omega arith)
set_cleared b d x false e = rw e (omega arith)

set_there :
    (b d x : ℕ) (v : Bool)
    → x ≡ 1
    → d ≤ b
    → b - x * d + (if v then 1 else 0) * d ≡ (if v then b - d + d else b - d)
set_there b d x true e h = rw e (omega (arith, h))
set_there b d x false e h = rw e (omega (arith, h))

cleared : (b k : ℕ) → Cleared b k
unfolding set_bit
cleared b k = elim (Bool-cases (b / 2 ^ k % 2 == 0)) [
  | inl e ↦
      let z : b / 2 ^ k % 2 ≡ 0 = ground (arith, e) in
      record {
        c = b;
        clear = z;
        is = inl refl;
        set = λ v. set_cleared b (2 ^ k) (b / 2 ^ k % 2) v z;
      }
  | inr e ↦
      let one : b / 2 ^ k % 2 ≡ 1 = ground (arith, e) in
      let d = 2 ^ k in
      let room : d ≤ b = elim (Bool-cases (ltb b d)) [
        | inl less ↦ absurd (omega (arith, one, div-eq_of_lt (ltb→lt b d less)))
        | inr more ↦ ltb_false→le b d more
      ] in
      let back : b ≡ b - d + d = omega (arith, room) in
      let up : b / d ≡ (b - d) / d + 1 =
        ap (λ x. x / d) back ∙ flipped (b - d) d (pow_positive k) in
      record {
        c = b - d;
        clear = omega (arith, up, one);
        is = inr back;
        set = λ v. set_there b d (b / d % 2) v one room;
      }
]

-- The other bits of a number do not see whether the bit `k` is set.
bit_at-other : (c k j : ℕ) → c / 2 ^ k % 2 ≡ 0 → j ≢ k → (c + 2 ^ k) / 2 ^ j % 2 ≡ c / 2 ^ j % 2
bit_at-other c k j z d = elim (Bool-cases (ltb j k)) [
  | inl e ↦
      let n = k - j - 1 in
      let p : 2 ^ k ≡ 2 ^ j * (2 * 2 ^ n) =
        ap (λ x. 2 ^ x) (omega (arith, ltb→lt j k e)) ∙ pow_split j n in
      ap (λ x. (c + x) / 2 ^ j % 2) p ∙ above c (2 ^ j) (pow_positive j) (2 ^ n)
  | inr e ↦
      let n = j - k - 1 in
      let less : k + 1 ≤ j = ground (arith, e, d) in
      let p : 2 ^ j ≡ 2 ^ k * (2 * 2 ^ n) = ap (λ x. 2 ^ x) (omega (arith, less)) ∙ pow_split k n in
      ap (λ x. (c + 2 ^ k) / x % 2) p
      ∙ ap (λ x. x % 2) (below c (2 ^ k) (pow_positive k) (2 ^ n) z)
      ∙ ap (λ x. c / x % 2) (sym p)
]

bit_set :
    (c d : ℕ) (v : Bool) → 0 < d → c / d % 2 ≡ 0 → not ((if v then c + d else c) / d % 2 == 0) ≡ v
bit_set c d true p z = let e : (c + d) / d % 2 ≡ 1 = omega (arith, flipped c d p, z) in rw e refl
bit_set c d false p z = rw z refl

other_set :
    (c k j : ℕ) (v : Bool)
    → c / 2 ^ k % 2 ≡ 0
    → j ≢ k
    → (if v then c + 2 ^ k else c) / 2 ^ j % 2 ≡ c / 2 ^ j % 2
other_set c k j true z d = bit_at-other c k j z d
other_set c k j false z d = refl

-- A bit that is set is read back, and every other bit is as it was.
pub bit_at-set_bit :
    (b k j : ℕ) (v : Bool)
    → (bit_at (set_bit b k v) k ≡ v) × (j ≢ k → bit_at (set_bit b k v) j ≡ bit_at b j)
bit_at-set_bit b k j v =
    let q = cleared b k in
    (
      ap (λ x. bit_at x k) (q.set v) ∙ bit_set q.c (2 ^ k) v (pow_positive k) q.clear,
      λ d.
          let was : b / 2 ^ j % 2 ≡ q.c / 2 ^ j % 2 = elim q.is [
            | inl e ↦ ap (λ x. x / 2 ^ j % 2) e
            | inr e ↦ ap (λ x. x / 2 ^ j % 2) e ∙ bit_at-other q.c k j q.clear d
          ] in
          ap (λ x. not (x == 0))
            (ap (λ x. x / 2 ^ j % 2) (q.set v) ∙ other_set q.c k j v q.clear d ∙ sym was),
    )

-- The bits of the low byte of a number are those of the number.
bit_at-low : (x k : ℕ) → k < 8 → bit_at (x % 256) k ≡ bit_at x k
bit_at-low x k h =
    let n = 7 - k in
    let eight : 8 ≡ k + suc n = omega (arith, h) in
    let p : 256 ≡ 2 ^ k * (2 * 2 ^ n) = ap (λ y. 2 ^ y) eight ∙ pow_split k n in
    let split : x ≡ x % 256 + 256 * (x / 256) = omega arith in
    let whole : x ≡ x % 256 + 2 ^ k * (2 * (2 ^ n * (x / 256))) =
      split
      ∙ ap (λ y. x % 256 + y * (x / 256)) p
      ∙ ap (λ y. x % 256 + y)
          (mul_assoc (2 ^ k) (2 * 2 ^ n) (x / 256)
            ∙ ap (λ y. 2 ^ k * y) (mul_assoc 2 (2 ^ n) (x / 256))) in
    ap (λ y. not (y == 0))
      (sym (above (x % 256) (2 ^ k) (pow_positive k) (2 ^ n * (x / 256)))
        ∙ ap (λ y. y / 2 ^ k % 2) (sym whole))

elsewhere : (start m n : ℕ) → (m == n) ≡ false → Outside (start + m) 1 (start + n)
elsewhere start m n e = elim (Bool-cases (ltb n m)) [
  | inl l ↦ inl (ground (arith, l))
  | inr l ↦ inr (ground (arith, l, e))
]

-- A bit that is written is read back, and no other bit changes.
pub read_bit-write_bit :
    (start i j : ℕ) (v : Bool) (mem : Memory)
    → (read_bit (write_bit start i v mem) start i ≡ v)
      × (i ≢ j → read_bit (write_bit start i v mem) start j ≡ read_bit mem start j)
unfolding read_bit write_bit byte_of
read_bit-write_bit start i j v mem =
    let a = start + i / 8 in
    let x = set_bit (mem a) (i % 8) v in
    let stored : write_number a 1 x mem a ≡ x % 256 =
      write_number-at a 1 x mem a 0 (omega arith) (omega arith) in
    (
      ap (λ y. bit_at y (i % 8)) stored
          ∙ bit_at-low x (i % 8) (omega arith)
          ∙ (bit_at-set_bit (mem a) (i % 8) (j % 8) v).0,
      λ d. elim (Bool-cases (i / 8 == j / 8)) [
        | inl e ↦
            let same : start + j / 8 ≡ a = ground (arith, e) in
            let other : j % 8 ≢ i % 8 = λ q. d (ground (arith, e, q)) in
            ap (λ y. bit_at (write_number a 1 x mem y) (j % 8)) same
            ∙ ap (λ y. bit_at y (j % 8)) stored
            ∙ bit_at-low x (j % 8) (omega arith)
            ∙ (bit_at-set_bit (mem a) (i % 8) (j % 8) v).1 other
            ∙ ap (λ y. bit_at (mem y) (j % 8)) (sym same)
        | inr e ↦
            ap (λ y. bit_at y (j % 8))
              (write_number-off a 1 x mem (start + j / 8) (elsewhere start (i / 8) (j / 8) e))
      ],
    )
