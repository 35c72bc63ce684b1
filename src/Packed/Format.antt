-- ===== src/Packed/Format.antt =====
-- The packed encoding as the format describes it, told from the bytes of the words and from nothing of
-- the writer (src/serialize_packed.rs, `PackedWrite::write`): a tag whose bits say which bytes of a word
-- are not zero, these bytes, and after a word of zeros the count of the zero words that follow, after a
-- word without zeros the count and the bytes of the words that follow and are worth no packing. A run
-- is as long as it can be, up to 255 words.
use capnproto_rust.Base.{
  ℕ, zero, suc, ◌+◌, ◌*◌, ◌%◌, ◌≤◌, ◌≡◌, refl, sym, ap, ◌∙◌, Bool, List, [], ◌∷◌, ◌++◌, append-nil,
  arith, length, length-take, take, drop, ltb, leb, ◌==◌, not, Bool-cases, if◌then◌else◌, inl, inr,
}
use capnproto_rust.Base.Outcome.{ok}
use capnproto_rust.Words.{Word, word, word_bytes, words_to_bytes}
use capnproto_rust.Packed.{word_tag}
use capnproto_rust.Packed.Write.{write, is_zero, zero_bytes, zero_run, raw_run, run_limit}
use capnproto_rust.Packed.Encoding.{kept, kept_bytes, run_bytes, unbuffered, write-unbuffered}

-- The bits of the bytes that are not zero, the first byte's lowest
unfoldable pub tag_of : List ℕ → ℕ
tag_of [] = 0
tag_of (b ∷ bs) = (if b == 0 then 0 else 1) + 2 * tag_of bs

unfoldable pub nonzero_bytes : List ℕ → List ℕ
nonzero_bytes [] = []
nonzero_bytes (b ∷ bs) = if b == 0 then nonzero_bytes bs else b ∷ nonzero_bytes bs

-- A word of zeros
abbrev pub is_blank : Word → Bool
is_blank w = length (nonzero_bytes (word_bytes w)) == 0

-- A word with one zero byte at most, which would not get shorter
abbrev pub is_dense : Word → Bool
is_dense w = leb 7 (length (nonzero_bytes (word_bytes w)))

-- The words at the front that are of a kind
unfoldable pub prefix_of : (Word → Bool) → List Word → List Word
prefix_of p [] = []
prefix_of p (w ∷ ws) = let rest = prefix_of p ws in if p w then w ∷ rest else []

abbrev pub run_of : (Word → Bool) → List Word → List Word
run_of p ws = take 255 (prefix_of p ws)

-- What follows a word with this tag, and the words that are left after it
abbrev pub run_after : ℕ → List Word → List ℕ × List Word
run_after tag ws =
    if tag == 0
    then (length (run_of is_blank ws) ∷ [], drop (length (run_of is_blank ws)) ws)
    else if tag == 255
    then (
      length (run_of is_dense ws) ∷ words_to_bytes (run_of is_dense ws),
      drop (length (run_of is_dense ws)) ws,
    )
    else ([], ws)

-- A round for each word is enough.
unfoldable pub encoding : ℕ → List Word → List ℕ
encoding fuel [] = []
encoding zero (w ∷ ws) = []
encoding (suc fuel) (w ∷ ws) =
    let tag = tag_of (word_bytes w) in
    tag
    ∷ (nonzero_bytes (word_bytes w) ++ ((run_after tag ws).0 ++ encoding fuel (run_after tag ws).1))

word_tag-tag_of : (w : Word) → word_tag w ≡ tag_of (word_bytes w)
unfolding tag_of
word_tag-tag_of (word b0 b1 b2 b3 b4 b5 b6 b7) = omega arith

nonzero_bytes_cons : (b : ℕ) (bs : List ℕ) → nonzero_bytes (b ∷ bs) ≡ kept b ++ nonzero_bytes bs
unfolding nonzero_bytes
nonzero_bytes_cons b bs = elim (Bool-cases (b == 0)) [ inl e ↦ rw e refl | inr e ↦ rw e refl ]

nonzero_bytes_nil : nonzero_bytes [] ≡ []
unfolding nonzero_bytes
nonzero_bytes_nil = refl

kept_bytes-nonzero_bytes : (w : Word) → kept_bytes w ≡ nonzero_bytes (word_bytes w)
kept_bytes-nonzero_bytes (word b0 b1 b2 b3 b4 b5 b6 b7) =
    simp (nonzero_bytes_cons, nonzero_bytes_nil, append-nil)

length-nonzero_bytes :
    (b : ℕ) (bs : List ℕ)
    → length (nonzero_bytes (b ∷ bs)) + (if b == 0 then 1 else 0) ≡ 1 + length (nonzero_bytes bs)
unfolding nonzero_bytes
length-nonzero_bytes b bs = elim (Bool-cases (b == 0)) [
  | inl e ↦ rw e (omega arith)
  | inr e ↦ rw e (omega arith)
]

zero_bytes-nonzero_bytes : (w : Word) → zero_bytes w + length (nonzero_bytes (word_bytes w)) ≡ 8
zero_bytes-nonzero_bytes (word b0 b1 b2 b3 b4 b5 b6 b7) = omega (
  arith,
  ap length nonzero_bytes_nil,
  length-nonzero_bytes b0 (b1 ∷ b2 ∷ b3 ∷ b4 ∷ b5 ∷ b6 ∷ b7 ∷ []),
  length-nonzero_bytes b1 (b2 ∷ b3 ∷ b4 ∷ b5 ∷ b6 ∷ b7 ∷ []),
  length-nonzero_bytes b2 (b3 ∷ b4 ∷ b5 ∷ b6 ∷ b7 ∷ []),
  length-nonzero_bytes b3 (b4 ∷ b5 ∷ b6 ∷ b7 ∷ []),
  length-nonzero_bytes b4 (b5 ∷ b6 ∷ b7 ∷ []),
  length-nonzero_bytes b5 (b6 ∷ b7 ∷ []),
  length-nonzero_bytes b6 (b7 ∷ []),
  length-nonzero_bytes b7 [],
)

is_zero-is_blank : (w : Word) → is_zero w ≡ is_blank w
is_zero-is_blank (word b0 b1 b2 b3 b4 b5 b6 b7) =
    ground (arith, zero_bytes-nonzero_bytes (word b0 b1 b2 b3 b4 b5 b6 b7))

not_dense : (w : Word) → leb 2 (zero_bytes w) ≡ not (is_dense w)
not_dense w = ground (arith, zero_bytes-nonzero_bytes w)

length-prefix_of : (p : Word → Bool) (ws : List Word) → length (prefix_of p ws) ≤ length ws
unfolding prefix_of
length-prefix_of p [] = omega arith
length-prefix_of p (w ∷ ws) = elim (Bool-cases (p w)) [
  | inl e ↦ rw e (omega (arith, length-prefix_of p ws))
  | inr e ↦ rw e (omega arith)
]

-- The loops over a run go as far as the longest prefix does, and no further than their limit.
zero_run-prefix_of :
    (limit : ℕ) (ws : List Word)
    → zero_run limit ws ≡ (
      length (take limit (prefix_of is_blank ws)),
      drop (length (take limit (prefix_of is_blank ws))) ws,
    )
unfolding zero_run prefix_of
zero_run-prefix_of zero ws = refl
zero_run-prefix_of (suc limit) [] = refl
zero_run-prefix_of (suc limit) (w ∷ ws) = elim (Bool-cases (is_blank w)) [
  | inl e ↦
      rw (is_zero-is_blank w, e, zero_run-prefix_of limit ws)
        (ap (λ k. (k, drop (length (take limit (prefix_of is_blank ws))) ws)) (omega arith))
  | inr e ↦ rw (is_zero-is_blank w, e) refl
]

raw_run-prefix_of :
    (limit : ℕ) (ws : List Word)
    → raw_run limit ws
      ≡ (take limit (prefix_of is_dense ws), drop (length (take limit (prefix_of is_dense ws))) ws)
unfolding raw_run prefix_of
raw_run-prefix_of zero ws = refl
raw_run-prefix_of (suc limit) [] = refl
raw_run-prefix_of (suc limit) (w ∷ ws) = elim (Bool-cases (is_dense w)) [
  | inl e ↦ rw (not_dense w, e, raw_run-prefix_of limit ws) refl
  | inr e ↦ rw (not_dense w, e) refl
]

take_all : {A : Type 0} (n : ℕ) (xs : List A) → length xs ≤ n → take n xs ≡ xs
take_all zero [] h = refl
take_all zero (x ∷ xs) h = absurd (omega arith)
take_all (suc n) [] h = refl
take_all (suc n) (x ∷ xs) h = ap (λ ys. x ∷ ys) (take_all n xs (omega arith))

-- The end of the input is a limit of itself.
take-run_limit :
    {A : Type 0} (n : ℕ) (xs : List A) → length xs ≤ n → take (run_limit n) xs ≡ take 255 xs
take-run_limit n xs h = elim (Bool-cases (ltb 255 n)) [
  | inl e ↦ rw e refl
  | inr e ↦ rw e (take_all n xs h ∙ sym (take_all 255 xs (ground (arith, e, h))))
]

run_of-u8 : (p : Word → Bool) (ws : List Word) → length (run_of p ws) % 256 ≡ length (run_of p ws)
run_of-u8 p ws = omega (arith, length-take 255 (prefix_of p ws))

run_bytes-run_after : (w : Word) (ws : List Word) → run_bytes w ws ≡ run_after (word_tag w) ws
run_bytes-run_after w ws =
    let blank = take-run_limit (length ws) (prefix_of is_blank ws) (length-prefix_of is_blank ws) in
    let dense = take-run_limit (length ws) (prefix_of is_dense ws) (length-prefix_of is_dense ws) in
    elim (Bool-cases (word_tag w == 0)) [
      | inl e ↦
          rw (e, zero_run-prefix_of (run_limit (length ws)) ws, blank)
            (ap (λ k. (k ∷ [], drop (length (run_of is_blank ws)) ws)) (run_of-u8 is_blank ws))
      | inr e ↦ elim (Bool-cases (word_tag w == 255)) [
        | inl e' ↦
            rw (e, e', raw_run-prefix_of (run_limit (length ws)) ws, dense)
              (ap
                (λ k.
                  (k ∷ words_to_bytes (run_of is_dense ws), drop (length (run_of is_dense ws)) ws))
                (run_of-u8 is_dense ws))
        | inr e' ↦ rw (e, e') refl
      ]
    ]

unbuffered-encoding : (fuel : ℕ) (ws : List Word) → unbuffered fuel ws ≡ encoding fuel ws
unfolding unbuffered encoding
unbuffered-encoding fuel [] = refl
unbuffered-encoding zero (w ∷ ws) = refl
unbuffered-encoding (suc fuel) (w ∷ ws) =
    ap (λ x. word_tag w ∷ (kept_bytes w ++ (x.0 ++ unbuffered fuel x.1))) (run_bytes-run_after w ws)
    ∙ ap (λ bs. word_tag w ∷ (kept_bytes w ++ ((run_after (word_tag w) ws).0 ++ bs)))
        (unbuffered-encoding fuel (run_after (word_tag w) ws).1)
    ∙ ap (λ t. t ∷ (kept_bytes w ++ ((run_after t ws).0 ++ encoding fuel (run_after t ws).1)))
        (word_tag-tag_of w)
    ∙ ap
        (λ bs.
          tag_of (word_bytes w)
          ∷ (bs
              ++ ((run_after (tag_of (word_bytes w)) ws).0
                  ++ encoding fuel (run_after (tag_of (word_bytes w)) ws).1)))
        (kept_bytes-nonzero_bytes w)

-- `write` ends on every word-aligned input, never touches its 64-byte buffer out of bounds, and
-- appends to the inner writer exactly the encoding of the words that the format describes: for each
-- word its tag and the bytes that are not zero; after a word of zeros the number of zero words that
-- follow, after a word without zeros the number and the bytes of the following words with one zero byte
-- at most, in both cases as many as there are, up to 255.
pub write-encoding :
    (out : List ℕ) (ws : List Word) → write out ws ≡ ok (out ++ encoding (length ws) ws)
write-encoding out ws =
    write-unbuffered out ws ∙ ap (λ bs. ok (out ++ bs)) (unbuffered-encoding (length ws) ws)
