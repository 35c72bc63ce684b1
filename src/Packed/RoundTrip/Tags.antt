-- ===== src/Packed/RoundTrip/Tags.antt =====
-- A tag and the bytes that are not zero give the word back.
use capnproto_rust.Base.{
  ℕ, ◌+◌, ◌*◌, ◌/◌, ◌%◌, ◌^◌, ◌≤◌, ◌≡◌, refl, ◌∙◌, inl, inr, List, [], ◌∷◌, ◌++◌, append_assoc,
  arith, ◌==◌, Bool-cases, ==→eq,
}
use capnproto_rust.Base.Outcome.{ok}
use capnproto_rust.Words.{Word, word, word_bytes}
use capnproto_rust.Packed.{bit_range, nonzero_bit, word_tag}
use capnproto_rust.Packed.Encoding.{kept, kept_bytes}
use capnproto_rust.Packed.Decoding.{uncons, expand}

module _ (c0 c1 c2 c3 c4 c5 c6 c7 : ℕ) where
  abbrev sum_bits : ℕ
  sum_bits = c0 + 2 * c1 + 4 * c2 + 8 * c3 + 16 * c4 + 32 * c5 + 64 * c6 + 128 * c7

  -- The digits of a sum of bits.
  digits_of_sum :
      c0 ≤ 1
      → c1 ≤ 1
      → c2 ≤ 1
      → c3 ≤ 1
      → c4 ≤ 1
      → c5 ≤ 1
      → c6 ≤ 1
      → c7 ≤ 1
      → (sum_bits / 2 ^ 0 % 2 ≡ c0)
        × (sum_bits / 2 ^ 1 % 2 ≡ c1)
        × (sum_bits / 2 ^ 2 % 2 ≡ c2)
        × (sum_bits / 2 ^ 3 % 2 ≡ c3)
        × (sum_bits / 2 ^ 4 % 2 ≡ c4)
        × (sum_bits / 2 ^ 5 % 2 ≡ c5)
        × (sum_bits / 2 ^ 6 % 2 ≡ c6)
        × (sum_bits / 2 ^ 7 % 2 ≡ c7)
  digits_of_sum h0 h1 h2 h3 h4 h5 h6 h7 = omega arith

nonzero_bit-le : (b : ℕ) → nonzero_bit b ≤ 1
nonzero_bit-le b = ground arith

-- One bit of a tag and the byte that it stands for.
expand_kept :
    (i : ℕ) (is : List ℕ) (tag b : ℕ) (out s : List ℕ)
    → tag / 2 ^ i % 2 ≡ nonzero_bit b
    → expand (i ∷ is) tag out (kept b ++ s) ≡ expand is tag (out ++ (b ∷ [])) s
unfolding expand uncons
expand_kept i is tag b out s h = elim (Bool-cases (b == 0)) [
  | inl e ↦ rw (h, e) (rw (==→eq b 0 e))
  | inr e ↦ rw (h, e)
]

expand_end : (tag : ℕ) (out s : List ℕ) → expand [] tag out s ≡ ok (out, s)
unfolding expand
expand_end tag out s = refl

-- Expanding the tag of a word over its kept bytes gives all eight bytes, and takes no other.
pub expand-kept_bytes :
    (w : Word) (out s : List ℕ)
    → expand bit_range (word_tag w) out (kept_bytes w ++ s) ≡ ok (out ++ word_bytes w, s)
expand-kept_bytes (word b0 b1 b2 b3 b4 b5 b6 b7) out s =
    let tag = word_tag (word b0 b1 b2 b3 b4 b5 b6 b7) in
    let (d0, d1, d2, d3, d4, d5, d6, d7) =
      digits_of_sum _ _ _ _ _ _ _ _ (nonzero_bit-le b0) (nonzero_bit-le b1) (nonzero_bit-le b2)
        (nonzero_bit-le b3) (nonzero_bit-le b4) (nonzero_bit-le b5) (nonzero_bit-le b6)
        (nonzero_bit-le b7) in
    simp append_assoc (
      expand_kept 0 _ tag b0 out _ d0
      ∙ expand_kept 1 _ tag b1 _ _ d1
      ∙ expand_kept 2 _ tag b2 _ _ d2
      ∙ expand_kept 3 _ tag b3 _ _ d3
      ∙ expand_kept 4 _ tag b4 _ _ d4
      ∙ expand_kept 5 _ tag b5 _ _ d5
      ∙ expand_kept 6 _ tag b6 _ _ d6
      ∙ expand_kept 7 _ tag b7 _ _ d7
      ∙ expand_end tag _ s
      ∙ simp append_assoc)
