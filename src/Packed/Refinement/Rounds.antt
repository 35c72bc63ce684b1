-- ===== src/Packed/Refinement/Rounds.antt =====
-- One round of the loop against the flat decoding of one word, and what a round keeps.
use capnproto_rust.Base.{
  ℕ, ◌+◌, ◌-◌, ◌≡◌, ◌≢◌, inl, inr, List, [], ◌∷◌, ◌++◌, arith, length, concat, ltb, Bool-cases,
  ltb_false→le,
}
use capnproto_rust.Base.Outcome.{ok, >>=-eq-ok, map_ok, sim}
use capnproto_rust.Io.{Source}
use capnproto_rust.Packed.{bit_range}
use capnproto_rust.Packed.Read.{
  Input, again, zeros, raws, slow_bits, fast_bits, ready_count, after_word, read_word,
}
use capnproto_rust.Packed.Decoding.{uncons, decode_word}
use capnproto_rust.Packed.Refinement.Bits.{flat_round, slow_bits_lem, fast_bits_lem}
use capnproto_rust.Packed.Refinement.Runs.{ready_count_lem, after_fast_lem}

-- Both paths decode the same word.
pub read_word-decode_word :
    (left : ℕ) (out : List ℕ) (tag : ℕ) (buf : List ℕ) (src : Source)
    → map_ok flat_round (read_word left out tag buf src)
      ≡ decode_word left out (tag ∷ (buf ++ concat src))
unfolding read_word decode_word uncons
read_word-decode_word left out tag buf src = elim (Bool-cases (ltb (length buf + 1) 10)) [
  | inl e ↦ rw e (
      sim _ (slow_bits bit_range tag out (buf, src)) _ _
        (slow_bits_lem bit_range tag out (buf, src))
        (λ (out', inp). ready_count_lem tag (left - 8) out' inp))
  | inr e ↦
      let (out', buf', fast, flat_fast, one_left) =
        fast_bits_lem bit_range tag out buf (concat src) (omega (arith, ltb_false→le _ _ e)) in
      rw (e, fast, flat_fast) (after_fast_lem tag (left - 8) out' buf' src one_left)
]

-- Where a round does not end the read, there is room for more output.
after_word-room :
    (tag left : ℕ) (out : List ℕ) (inp : Input) (l : ℕ) (out' : List ℕ) (inp' : Input)
    → after_word tag left out inp ≡ ok (again l out' inp')
    → l ≢ 0
unfolding after_word zeros raws
after_word-room tag left out ([], src) l out' inp' e = ground arith
after_word-room tag left out (n ∷ buf, src) l out' inp' e = ground arith

pub read_word-room :
    (left : ℕ) (out : List ℕ) (tag : ℕ) (buf : List ℕ) (src : Source) (l : ℕ) (out' : List ℕ)
    (inp' : Input)
    → read_word left out tag buf src ≡ ok (again l out' inp')
    → l ≢ 0
unfolding read_word
read_word-room left out tag buf src l out' inp' e = elim (Bool-cases (ltb (length buf + 1) 10)) [
  | inl s ↦
      let ((o, i), e1, e2) = >>=-eq-ok (slow_bits bit_range tag out (buf, src)) _ (rw s at e) in
      let (i', e3, e4) = >>=-eq-ok (ready_count tag i) _ e2 in
      after_word-room tag (left - 8) o i' l out' inp' e4
  | inr f ↦
      let ((o, b), e1, e2) = >>=-eq-ok (fast_bits bit_range tag out buf) _ (rw f at e) in
      after_word-room tag (left - 8) o (b, src) l out' inp' e2
]
