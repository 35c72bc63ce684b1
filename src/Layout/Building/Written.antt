-- ===== src/Layout/Building/Written.antt =====
-- Reading of what was written into memory (src/private/layout.rs, `WireValue`).
use capnproto_rust.Base.{
  ℕ, zero, suc, ◌+◌, ◌-◌, ◌*◌, ◌/◌, ◌%◌, ◌^◌, ◌≤◌, ◌<◌, ◌≡◌, ◌⊎◌, inl, inr, refl, ap, ◌∙◌, true,
  false, arith,
}
use mathlib.Core.Path.{ap₂}
use native.Mathlib.Nat.{pow-suc}
use capnproto_rust.Layout.Pointer.{WirePointer}
use capnproto_rust.Layout.Memory.{Memory, pointer_at}
use capnproto_rust.Layout.Readers.{read_number}
use capnproto_rust.Layout.Building.{within, byte_of, write_number, write_pointer}

-- An address that is not one of `n` from `start` on
abbrev pub Outside : ℕ → ℕ → ℕ → Type 0
Outside start n a = (a < start) ⊎ (start + n ≤ a)

within-false : (start n a : ℕ) → Outside start n a → within start n a ≡ false
within-false start n a (inl h) = ground arith
within-false start n a (inr h) = ground arith

pub write_number-at :
    (start n v : ℕ) (mem : Memory) (a i : ℕ)
    → a ≡ start + i
    → i < n
    → write_number start n v mem a ≡ byte_of v i
unfolding write_number
write_number-at start n v mem a i e h =
    let w : within start n a ≡ true = ground (arith, e, h) in
    let d : a - start ≡ i = omega (arith, e) in rw (w, d) refl

pub write_number-off :
    (start n v : ℕ) (mem : Memory) (a : ℕ)
    → Outside start n a
    → write_number start n v mem a ≡ mem a
unfolding write_number
write_number-off start n v mem a h = let e = within-false start n a h in rw e refl

-- A pointer is its eight bytes.
pub pointer_at-same :
    (mem mem' : Memory) (q : ℕ)
    → ((i : ℕ) → i < 8 → mem (q + i) ≡ mem' (q + i))
    → pointer_at mem q ≡ pointer_at mem' q
unfolding pointer_at
pointer_at-same mem mem' q h =
    let first : mem q ≡ mem' q = ap mem (omega arith) ∙ h 0 (omega arith) ∙ ap mem' (omega arith) in
    rw
      (
        first,
        h 1 (omega arith),
        h 2 (omega arith),
        h 3 (omega arith),
        h 4 (omega arith),
        h 5 (omega arith),
        h 6 (omega arith),
        h 7 (omega arith),
      )
      refl

abbrev pub halves : ℕ → ℕ → WirePointer
halves lower upper = record { offset_and_kind = lower; upper32bits = upper }

module _ (v : ℕ) where
  bytes_of_u32 :
      v < 2 ^ 32
      → byte_of v 0 + 256 * byte_of v 1 + 65536 * byte_of v 2 + 16777216 * byte_of v 3 ≡ v
  unfolding byte_of
  bytes_of_u32 h = omega (arith, h)

module _ (p : ℕ) (w : WirePointer) (mem : Memory) where
  lower_byte : (i : ℕ) → i < 4 → write_pointer p w mem (p + i) ≡ byte_of w.offset_and_kind i
  unfolding write_pointer
  lower_byte i h =
      write_number-off (p + 4) 4 w.upper32bits (write_number p 4 w.offset_and_kind mem) (p + i)
        (inl (omega (arith, h)))
      ∙ write_number-at p 4 w.offset_and_kind mem (p + i) i refl h

  upper_byte : (a i : ℕ) → a ≡ p + 4 + i → i < 4 → write_pointer p w mem a ≡ byte_of w.upper32bits i
  unfolding write_pointer
  upper_byte a i e h =
      write_number-at (p + 4) 4 w.upper32bits (write_number p 4 w.offset_and_kind mem) a i e h

  pub write_pointer-off : (a : ℕ) → Outside p 8 a → write_pointer p w mem a ≡ mem a
  unfolding write_pointer
  write_pointer-off a (inl h) =
      write_number-off (p + 4) 4 w.upper32bits (write_number p 4 w.offset_and_kind mem) a
        (inl (omega (arith, h)))
      ∙ write_number-off p 4 w.offset_and_kind mem a (inl h)
  write_pointer-off a (inr h) =
      write_number-off (p + 4) 4 w.upper32bits (write_number p 4 w.offset_and_kind mem) a
        (inr (omega (arith, h)))
      ∙ write_number-off p 4 w.offset_and_kind mem a (inr (omega (arith, h)))

  pub lower-write_pointer :
      w.offset_and_kind < 2 ^ 32
      → (pointer_at (write_pointer p w mem) p).offset_and_kind ≡ w.offset_and_kind
  unfolding pointer_at
  lower-write_pointer l =
      let l0 : write_pointer p w mem p ≡ byte_of w.offset_and_kind 0 =
        ap (write_pointer p w mem) (omega arith) ∙ lower_byte 0 (omega arith) in
      rw (l0, lower_byte 1 (omega arith), lower_byte 2 (omega arith), lower_byte 3 (omega arith))
        (bytes_of_u32 w.offset_and_kind l)

  pub upper-write_pointer :
      w.upper32bits < 2 ^ 32 → (pointer_at (write_pointer p w mem) p).upper32bits ≡ w.upper32bits
  unfolding pointer_at
  upper-write_pointer u =
      rw
        (
          upper_byte (p + 4) 0 (omega arith) (omega arith),
          upper_byte (p + 5) 1 (omega arith) (omega arith),
          upper_byte (p + 6) 2 (omega arith) (omega arith),
          upper_byte (p + 7) 3 (omega arith) (omega arith),
        )
        (bytes_of_u32 w.upper32bits u)

  pub pointer_at-write_pointer :
      w.offset_and_kind < 2 ^ 32 → w.upper32bits < 2 ^ 32 → pointer_at (write_pointer p w mem) p ≡ w
  pointer_at-write_pointer l u = ap₂ halves (lower-write_pointer l) (upper-write_pointer u)

  -- Pointers that do not overlap do not disturb each other.
  pub pointer_at-off :
      (q : ℕ) → (q + 8 ≤ p) ⊎ (p + 8 ≤ q) → pointer_at (write_pointer p w mem) q ≡ pointer_at mem q
  pointer_at-off q (inl h) =
      pointer_at-same (write_pointer p w mem) mem q
        (λ i l. write_pointer-off (q + i) (inl (omega (arith, h, l))))
  pointer_at-off q (inr h) =
      pointer_at-same (write_pointer p w mem) mem q
        (λ i l. write_pointer-off (q + i) (inr (omega (arith, h, l))))

module _ (mem : Memory) where
  read_number-byte_of :
      (n a v : ℕ)
      → v < 256 ^ n
      → ((i : ℕ) → i < n → mem (a + i) ≡ byte_of v i)
      → read_number mem a n ≡ v
  unfolding read_number byte_of
  read_number-byte_of zero a v l h = omega (arith, l)
  read_number-byte_of (suc n) a v l h =
      let first : mem a ≡ v % 256 = ap mem (omega arith) ∙ h 0 (omega arith) in
      let less : v / 256 < 256 ^ n = omega (arith, l, pow-suc 256 n) in
      let rest : read_number mem (a + 1) n ≡ v / 256 =
        read_number-byte_of n (a + 1) (v / 256) less
          (λ i u. ap mem (omega arith) ∙ h (suc i) (omega (arith, u))) in
      omega (arith, first, rest)

-- A number that fits is read back.
pub read_number-write_number :
    (n a v : ℕ) (mem : Memory) → v < 256 ^ n → read_number (write_number a n v mem) a n ≡ v
read_number-write_number n a v mem l =
    read_number-byte_of (write_number a n v mem) n a v l
      (λ i u. write_number-at a n v mem (a + i) i refl u)

-- Numbers that do not overlap do not disturb each other.
pub read_number-off :
    (n m a b v : ℕ) (mem : Memory)
    → (b + m ≤ a) ⊎ (a + n ≤ b)
    → read_number (write_number a n v mem) b m ≡ read_number mem b m
unfolding read_number
read_number-off n zero a b v mem h = refl
read_number-off n (suc m) a b v mem (inl h) = omega (
  arith,
  write_number-off a n v mem b (inl (omega (arith, h))),
  read_number-off n m a (b + 1) v mem (inl (omega (arith, h))),
)
read_number-off n (suc m) a b v mem (inr h) = omega (
  arith,
  write_number-off a n v mem b (inr (omega (arith, h))),
  read_number-off n m a (b + 1) v mem (inr (omega (arith, h))),
)
