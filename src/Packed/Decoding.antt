-- ===== src/Packed/Decoding.antt =====
-- The packed encoding read from one flat list of bytes: what `read` computes, with no buffers, no
-- refreshing and no fast path.
use capnproto_rust.Base.{
  ℕ, zero, suc, ◌-◌, ◌*◌, List, [], ◌∷◌, ◌++◌, length, take, drop, replicate, ltb, ◌==◌,
  if◌then◌else◌,
}
use capnproto_rust.Base.Outcome.{
  Outcome, ok, err, fault, panicked, no_fuel, premature_eof, not_on_segment_boundary, ◌>>=◌,
}
use capnproto_rust.Packed.{bit_range, has_bit}

-- The end of the input is met by an assertion.
unfoldable pub uncons : List ℕ → Outcome (ℕ × List ℕ)
uncons [] = fault panicked
uncons (b ∷ bs) = ok (b, bs)

-- The bytes that a tag stands for.
unfoldable pub expand : List ℕ → ℕ → List ℕ → List ℕ → Outcome (List ℕ × List ℕ)
expand [] tag out s = ok (out, s)
expand (i ∷ is) tag out s =
    if has_bit tag i
    then (uncons s >>= λ (b, s'). expand is tag (out ++ (b ∷ [])) s')
    else expand is tag (out ++ (0 ∷ [])) s

-- What is left of the output's room, the output and the input.
abbrev pub Decoding : Type 0
Decoding = ℕ × List ℕ × List ℕ

unfoldable pub decode_zeros : ℕ → ℕ → List ℕ → List ℕ → Outcome Decoding
decode_zeros n left out s =
    if ltb left (n * 8)
    then err not_on_segment_boundary
    else ok (left - n * 8, out ++ replicate (n * 8) 0, s)

unfoldable pub decode_raws : ℕ → ℕ → List ℕ → List ℕ → Outcome Decoding
decode_raws n left out s =
    if ltb left (n * 8)
    then err not_on_segment_boundary
    else if ltb (length s) (n * 8)
    then err premature_eof
    else ok (left - n * 8, out ++ take (n * 8) s, drop (n * 8) s)

unfoldable pub decode_run : ℕ → ℕ → List ℕ → List ℕ → Outcome Decoding
decode_run tag left out s =
    if tag == 0
    then (uncons s >>= λ (n, s'). decode_zeros n left out s')
    else if tag == 0xff
    then (uncons s >>= λ (n, s'). decode_raws n left out s')
    else ok (left, out, s)

unfoldable pub decode_word : ℕ → List ℕ → List ℕ → Outcome Decoding
decode_word left out s = do
  (tag, s) ← uncons s
  (out, s) ← expand bit_range tag out s
  decode_run tag (left - 8) out s

abbrev pub resume_decoding :
    (ℕ → List ℕ → List ℕ → Outcome (List ℕ × List ℕ)) → Decoding → Outcome (List ℕ × List ℕ)
resume_decoding k (left, out, s) = k left out s

unfoldable pub decode : ℕ → ℕ → List ℕ → List ℕ → Outcome (List ℕ × List ℕ)
decode zero left out s = if left == 0 then ok (out, s) else fault no_fuel
decode (suc fuel) left out s =
    if left == 0 then ok (out, s) else (decode_word left out s >>= resume_decoding (decode fuel))
