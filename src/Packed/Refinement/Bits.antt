-- ===== src/Packed/Refinement/Bits.antt =====
-- The bytes of a word: the slow and the fast path against the flat expansion of a tag.
use capnproto_rust.Base.{
  ℕ, ◌<◌, ◌≡◌, ◌⊎◌, inl, inr, refl, List, [], ◌∷◌, ◌++◌, arith, length, concat, Bool-cases,
}
use capnproto_rust.Base.Outcome.{ok, fault, panicked, map_ok, sim}
use capnproto_rust.Io.{Source, fill_buf}
use capnproto_rust.Packed.{has_bit}
use capnproto_rust.Packed.Read.{Input, refresh, slow_byte, slow_bits, fast_bits, Round, again, done}
use capnproto_rust.Packed.Decoding.{uncons, expand, Decoding}

-- The bytes that are still to come.
abbrev pub flat : Input → List ℕ
flat (buf, src) = buf ++ concat src

abbrev pub flat_byte : ℕ × Input → ℕ × List ℕ
flat_byte (b, inp) = (b, flat inp)

abbrev pub flat_bytes : List ℕ × Input → List ℕ × List ℕ
flat_bytes (out, inp) = (out, flat inp)

abbrev pub flat_round : Round → Decoding
flat_round (again left out inp) = (left, out, flat inp)
flat_round (done out src) = (0, out, concat src)

-- `refresh` finds the next byte of the stream, or panics at its end.
pub refresh_cases :
    (src : Source)
    → ((b : ℕ) × (bs : List ℕ) × (cs : Source) × (refresh src ≡ ok (b ∷ bs, cs))
        × (concat src ≡ b ∷ (bs ++ concat cs)))
      ⊎ ((refresh src ≡ fault panicked) × (concat src ≡ []))
unfolding refresh fill_buf
refresh_cases [] = inr (refl, refl)
refresh_cases ([] ∷ cs) = refresh_cases cs
refresh_cases ((b ∷ bs) ∷ cs) = inl (b, bs, cs, ground arith, refl)

slow_byte_lem : (inp : Input) → map_ok flat_byte (slow_byte inp) ≡ uncons (flat inp)
unfolding slow_byte uncons
slow_byte_lem (b ∷ bs, src) = refl
slow_byte_lem ([], src) = elim (refresh_cases src) [
  | inl (b, bs, cs, e, s) ↦ rw (e, s)
  | inr (e, s) ↦ rw (e, s)
]

pub slow_bits_lem :
    (is : List ℕ) (tag : ℕ) (out : List ℕ) (inp : Input)
    → map_ok flat_bytes (slow_bits is tag out inp) ≡ expand is tag out (flat inp)
unfolding slow_bits expand
slow_bits_lem [] tag out inp = refl
slow_bits_lem (i ∷ is) tag out inp = elim (Bool-cases (has_bit tag i)) [
  | inl e ↦ rw e (
      sim _ (slow_byte inp) _ _ (slow_byte_lem inp)
        (λ (b, inp'). slow_bits_lem is tag (out ++ (b ∷ [])) inp'))
  | inr e ↦ rw e (slow_bits_lem is tag (out ++ (0 ∷ [])) inp)
]

-- On the fast path every byte is in the buffer, and one is left over for a count.
pub fast_bits_lem :
    (is : List ℕ) (tag : ℕ) (out buf rest : List ℕ)
    → length is < length buf
    → (out' : List ℕ) × (buf' : List ℕ) × (fast_bits is tag out buf ≡ ok (out', buf'))
      × (expand is tag out (buf ++ rest) ≡ ok (out', buf' ++ rest))
      × (0 < length buf')
unfolding fast_bits expand uncons
fast_bits_lem [] tag out buf rest h = (out, buf, refl, refl, h)
fast_bits_lem (i ∷ is) tag out [] rest h = absurd (omega arith)
fast_bits_lem (i ∷ is) tag out (b ∷ bs) rest h = elim (Bool-cases (has_bit tag i)) [
  | inl e ↦ rw e (fast_bits_lem is tag (out ++ (b ∷ [])) bs rest (omega arith))
  | inr e ↦ rw e (fast_bits_lem is tag (out ++ (0 ∷ [])) (b ∷ bs) rest (omega arith))
]
