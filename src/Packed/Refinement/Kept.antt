-- ===== src/Packed/Refinement/Kept.antt =====
-- What a decoded word does to the output and to the room in it.
use capnproto_rust.Base.{
  ℕ, ◌+◌, ◌-◌, ◌*◌, ◌%◌, ◌≤◌, ◌≡◌, List, [], ◌∷◌, ◌++◌, arith, length, length-append, length-take,
  take, replicate, length-replicate,
}
use capnproto_rust.Base.Outcome.{ok, >>=-eq-ok}
use capnproto_rust.Packed.{bit_range}
use capnproto_rust.Packed.Decoding.{
  uncons, expand, Decoding, decode_zeros, decode_raws, decode_run, decode_word,
}

-- Each tag bit stands for one byte of output.
expand-length :
    (is : List ℕ) (tag : ℕ) (out s out' s' : List ℕ)
    → expand is tag out s ≡ ok (out', s')
    → length out' ≡ length out + length is
unfolding expand uncons
expand-length [] tag out s out' s' e = ground arith
expand-length (i ∷ is) tag out [] out' s' e =
    ground (arith, expand-length is tag (out ++ (0 ∷ [])) [] out' s', length-append out (0 ∷ []))
expand-length (i ∷ is) tag out (b ∷ s) out' s' e = ground (
  arith,
  expand-length is tag (out ++ (0 ∷ [])) (b ∷ s) out' s',
  length-append out (0 ∷ []),
  expand-length is tag (out ++ (b ∷ [])) s out' s',
  length-append out (b ∷ []),
)

-- Output and room stay in balance, and both move by whole words.
pub record Keeps (left : ℕ) (out : List ℕ) (d : Decoding) : Type 0 where
  pub balance : length d.1 + d.0 ≡ length out + left
  pub aligned : d.0 % 8 ≡ left % 8
  pub shrinks : d.0 ≤ left

decode_run-Keeps :
    (tag left : ℕ) (out s : List ℕ) {d : Decoding}
    → decode_run tag left out s ≡ ok d
    → Keeps left out d
unfolding decode_run decode_zeros decode_raws uncons
decode_run-Keeps tag left out [] e = ground arith
decode_run-Keeps tag left out (n ∷ s) e = ground (
  arith,
  length-append out (replicate (n * 8) 0),
  length-replicate {A = ℕ} (n * 8) 0,
  length-append out (take (n * 8) s),
  length-take (n * 8) s,
)

-- A word takes a byte of input at least, and eight bytes of room.
pub decode_word-Keeps :
    (left : ℕ) (out s : List ℕ) {d : Decoding}
    → 8 ≤ left
    → left % 8 ≡ 0
    → decode_word left out s ≡ ok d
    → Keeps left out d × (d.0 + 8 ≤ left)
unfolding decode_word uncons
decode_word-Keeps left out [] h a e = cc
decode_word-Keeps left out (tag ∷ s) h a e =
    let ((out', s'), e1, e2) = >>=-eq-ok (expand bit_range tag out s) _ e in
    let k = decode_run-Keeps tag (left - 8) out' s' e2 in
    let l = expand-length bit_range tag out s out' s' e1 in
    (
      record {
        balance = omega (arith, k.balance, l);
        aligned = omega (arith, k.aligned);
        shrinks = omega (arith, k.shrinks);
      },
      omega (arith, k.shrinks),
    )
