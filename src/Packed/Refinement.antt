-- ===== src/Packed/Refinement.antt =====
-- `PackedRead::read` (src/serialize_packed.rs) computes the same as `decode`, however the input is
-- cut into buffers.
pub mod Bits
pub mod Runs
pub mod Rounds
pub mod Kept
use capnproto_rust.Base.{
  ℕ, zero, suc, ◌+◌, ◌-◌, ◌*◌, ◌%◌, ◌≤◌, ◌<◌, ◌≡◌, ◌≢◌, inl, inr, refl, sym, ◌∙◌, List, [], ◌∷◌,
  ◌++◌, arith, length, length-append, concat, ◌==◌, Bool-cases, eq→==, ==→eq, if◌then◌else◌, Bool,
  false, true, ltb, ap, nil_of_length,
}
use capnproto_rust.Base.Outcome.{Outcome, ok, err, fault, panicked, ◌>>=◌, map_ok, >>=-eq-ok}
use capnproto_rust.Io.{Source, fill_buf}
use capnproto_rust.Io.Exact.{concat-fill_buf, fill_buf-eof}
use capnproto_rust.Packed.Read.{
  Input, Round, again, done, close, read_word, round_body, round, resume, read_loop, read,
}
use capnproto_rust.Packed.Decoding.{uncons, Decoding, decode_word, resume_decoding, decode}
use Bits.{flat, flat_bytes, flat_round, refresh_cases}
use Rounds.{read_word-decode_word, read_word-room}
use Kept.{Keeps, decode_word-Keeps}

-- The result of a read, with the source as the bytes that it still holds.
abbrev pub flat_result : List ℕ × Source → List ℕ × List ℕ
flat_result (out, src) = (out, concat src)

decode_done : (fuel : ℕ) (out s : List ℕ) → decode fuel 0 out s ≡ ok (out, s)
unfolding decode
decode_done zero out s = refl
decode_done (suc fuel) out s = refl

-- With an empty buffer a round goes by before a word is read.
waits : List ℕ → ℕ
waits [] = 1
waits (b ∷ bs) = 0

waits-le : (buf : List ℕ) → waits buf ≤ 1
unfolding waits
waits-le [] = omega arith
waits-le (b ∷ bs) = omega arith

-- The loop from a state in which there is room for a word; `2 * left` rounds are enough.
Loops : ℕ → Type 0
Loops fuel =
    (g left : ℕ) (out : List ℕ) (inp : Input)
    → left ≢ 0
    → left % 8 ≡ 0
    → length out % 8 ≡ 0
    → 2 * left + waits inp.0 ≤ fuel
    → left ≤ g
    → map_ok flat_result (read_loop fuel left out inp) ≡ decode g left out (flat inp)

-- A round that reads a word, by its result.
word_round :
    (fuel g left : ℕ) (out : List ℕ) (tag : ℕ) (buf : List ℕ) (src : Source)
    → Loops fuel
    → left ≢ 0
    → left % 8 ≡ 0
    → length out % 8 ≡ 0
    → 2 * left ≤ suc fuel
    → left ≤ suc g
    → (r : Outcome Round) → read_word left out tag buf src ≡ r
    → map_ok flat_result (r >>= resume (read_loop fuel))
      ≡ (decode_word left out (flat (tag ∷ buf, src)) >>= resume_decoding (decode g))
unfolding Loops
word_round fuel g left out tag buf src loops h a al hf hg (ok (again l out' inp)) e =
    let d : decode_word left out (flat (tag ∷ buf, src)) ≡ ok (l, out', flat inp) =
      sym (read_word-decode_word left out tag buf src) ∙ rw e in
    let (k, smaller) = decode_word-Keeps left out _ (omega arith) a d in
    rw d (
      loops g l out' inp (read_word-room left out tag buf src l out' inp e)
        (omega (arith, k.aligned)) (omega (arith, k.balance, k.aligned))
        (omega (arith, waits-le inp.0)) (omega arith))
word_round fuel g left out tag buf src loops h a al hf hg (ok (done out' src')) e =
    let d : decode_word left out (flat (tag ∷ buf, src)) ≡ ok (0, out', concat src') =
      sym (read_word-decode_word left out tag buf src) ∙ rw e in
    rw d (sym (decode_done g out' (concat src')))
word_round fuel g left out tag buf src loops h a al hf hg (err x) e =
    let d : decode_word left out (flat (tag ∷ buf, src)) ≡ err x =
      sym (read_word-decode_word left out tag buf src) ∙ rw e in
    rw d
word_round fuel g left out tag buf src loops h a al hf hg (fault x) e =
    let d : decode_word left out (flat (tag ∷ buf, src)) ≡ fault x =
      sym (read_word-decode_word left out tag buf src) ∙ rw e in
    rw d

assert_aligned : (out : List ℕ) → length out % 8 ≡ 0 → (length out % 8 == 0) ≡ true
assert_aligned out h = eq→== _ 0 h

read_loop_lem : (fuel : ℕ) → Loops fuel
unfolding Loops read_loop round round_body decode waits
read_loop_lem zero g left out inp h a al hf hg = absurd (omega arith)
read_loop_lem (suc fuel) zero left out inp h a al hf hg = absurd (omega arith)
read_loop_lem (suc fuel) (suc g) left out ([], src) h a al hf hg =
    let more : (left == 0) ≡ false = ground arith in
    rw (assert_aligned out al, more)
      (elim (refresh_cases src) [
        | inl (b, bs, cs, got, s) ↦ rw got (
            read_loop_lem fuel (suc g) left out (b ∷ bs, cs) h a al (omega arith) hg ∙ rw (more, s))
        | inr (got, s) ↦ rw (got, s) (unfold decode_word uncons in refl)
      ])
read_loop_lem (suc fuel) (suc g) left out (tag ∷ buf, src) h a al hf hg =
    let more : (left == 0) ≡ false = ground arith in
    rw (assert_aligned out al, more)
      (word_round fuel g left out tag buf src (read_loop_lem fuel) h a al (omega arith) hg _ refl)

waits-eq-zero : (buf : List ℕ) → 0 < length buf → waits buf ≡ 0
unfolding waits
waits-eq-zero [] h = absurd (omega arith)
waits-eq-zero (b ∷ bs) h = refl

-- A read that starts in a buffer with a byte in it.
read_some :
    (len : ℕ) (src : Source)
    → len ≢ 0
    → len % 8 ≡ 0
    → 0 < length (fill_buf src).0
    → map_ok flat_result (read_loop (2 * len) len [] (fill_buf src))
      ≡ decode len len [] (concat src)
unfolding Loops
read_some len src h a some_bytes =
    read_loop_lem (2 * len) len len [] (fill_buf src) h a refl
      (omega (arith, waits-eq-zero (fill_buf src).0 some_bytes)) (omega arith)
    ∙ ap (decode len len []) (concat-fill_buf src)

-- On every buffered input, into every word-aligned buffer: at the end of the input `read` answers
-- that it wrote nothing; else it writes the bytes that `decode` computes from the flat input, leaves
-- the source before the bytes that `decode` leaves, and fails where `decode` fails.
pub read-decode :
    (n : ℕ) (src : Source)
    → map_ok flat_result (read (8 * n) src)
      ≡ (if length (concat src) == 0 then ok ([], []) else decode (8 * n) (8 * n) [] (concat src))
unfolding read
read-decode n src = elim (Bool-cases (8 * n == 0)) [
  | inl e ↦ rw e (elim (Bool-cases (length (concat src) == 0)) [
    | inl e' ↦ rw e' (ap (λ (s : List ℕ). ok ([], s)) (nil_of_length _ (==→eq _ 0 e')))
    | inr e' ↦ rw (e', ==→eq _ 0 e) (sym (decode_done 0 [] (concat src)))
  ])
  | inr e ↦
      let aligned : (8 * n % 8 == 0) ≡ true = eq→== _ 0 (omega arith) in
      rw (e, aligned)
        (elim (Bool-cases (length (fill_buf src).0 == 0)) [
          | inl e' ↦
              let at_end : concat src ≡ [] = fill_buf-eof src (==→eq _ 0 e') in rw (e', at_end)
          | inr e' ↦
              let some_bytes : (length (concat src) == 0) ≡ false = ground (
                arith,
                concat-fill_buf src,
                length-append (fill_buf src).0 (concat (fill_buf src).1),
              ) in
              rw (e', some_bytes)
                (read_some (8 * n) src (ground arith) (omega arith) (ground arith))
        ])
]
