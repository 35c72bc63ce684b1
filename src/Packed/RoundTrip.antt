-- ===== src/Packed/RoundTrip.antt =====
-- `PackedRead::read` reads back what `PackedWrite::write` wrote (src/serialize_packed.rs).
pub mod Tags
pub mod Runs
use capnproto_rust.Base.{
  ℕ, zero, suc, ◌+◌, ◌-◌, ◌*◌, ◌≤◌, ◌≡◌, ◌≢◌, refl, sym, ap, ◌∙◌, inl, inr, List, [], ◌∷◌, ◌++◌,
  append_assoc, append-nil, arith, length, length-append, concat, ◌==◌, ==→eq, nil_of_length,
  Bool-cases, false, if◌then◌else◌,
}
use capnproto_rust.Base.Outcome.{ok, ◌>>=◌, map_ok, map_ok-eq-ok}
use capnproto_rust.Words.{Word, word_bytes, words_to_bytes}
use capnproto_rust.Words.Bytes.{words_to_bytes-append}
use capnproto_rust.Io.{Source, total_words, write_chunks}
use capnproto_rust.Packed.{bit_range, word_tag}
use capnproto_rust.Packed.Write.{write}
use capnproto_rust.Packed.Encoding.{
  kept_bytes, run_bytes, run_bytes-length, unbuffered, write-unbuffered,
}
use capnproto_rust.Packed.Read.{read}
use capnproto_rust.Packed.Decoding.{uncons, decode_run, decode_word, resume_decoding, decode}
use capnproto_rust.Packed.Refinement.{flat_result, read-decode}
use Tags.{expand-kept_bytes}
use Runs.{RunIsRead, run_is_read}

-- What several calls of `write` put on the stream.
unfoldable pub encodings : List (List Word) → List ℕ
encodings [] = []
encodings (c ∷ cs) = unbuffered (length c) c ++ encodings cs

-- One word and its run, in front of more.
decode_word-encoded :
    (w : Word) (ws : List Word) (more : ℕ) (out s bs : List ℕ)
    → RunIsRead w ws more (out ++ word_bytes w) s bs
    → decode_word
        (8 * (length (w ∷ ws) + more))
        out
        (word_tag w ∷ (kept_bytes w ++ ((run_bytes w ws).0 ++ s)))
      ≡ ok (8 * (length (run_bytes w ws).1 + more), (out ++ word_bytes w) ++ bs, s)
unfolding decode_word uncons
decode_word-encoded w ws more out s bs r =
    let left : 8 * (length (w ∷ ws) + more) - 8 ≡ 8 * (length ws + more) = omega arith in
    rw (expand-kept_bytes w out ((run_bytes w ws).0 ++ s), left) r.decoded

decode_step :
    (g left : ℕ) (out s : List ℕ) (left' : ℕ) (out' s' : List ℕ)
    → left ≢ 0
    → decode_word left out s ≡ ok (left', out', s')
    → decode (suc g) left out s ≡ decode g left' out' s'
unfolding decode
decode_step g left out s left' out' s' h d =
    let more : (left == 0) ≡ false = ground arith in rw (more, d)

reassociate :
    (tag : ℕ) (kept run more rest : List ℕ)
    → (tag ∷ (kept ++ (run ++ more))) ++ rest ≡ tag ∷ (kept ++ (run ++ (more ++ rest)))
reassociate tag kept run more rest = simp append_assoc

module _ (fuel g : ℕ) (w : Word) (ws : List Word) (more : ℕ) (out rest bs tail : List ℕ) where
  abbrev after : List Word
  after = (run_bytes w ws).1

  -- From the step on one word to the step on all.
  encoded_cons :
      {end : List ℕ}
      → RunIsRead w ws more (out ++ word_bytes w) (unbuffered fuel after ++ rest) bs
      → decode g
          (8 * (length after + more))
          ((out ++ word_bytes w) ++ bs)
          (unbuffered fuel after ++ rest)
        ≡ ok (((out ++ word_bytes w) ++ bs) ++ (words_to_bytes after ++ tail), end)
      → decode (suc g) (8 * (length (w ∷ ws) + more)) out (unbuffered (suc fuel) (w ∷ ws) ++ rest)
        ≡ ok (out ++ (words_to_bytes (w ∷ ws) ++ tail), end)
  unfolding unbuffered words_to_bytes
  encoded_cons {end} r ih =
      ap (decode (suc g) (8 * (length (w ∷ ws) + more)) out)
        (reassociate (word_tag w) (kept_bytes w) (run_bytes w ws).0 (unbuffered fuel after) rest)
      ∙ decode_step g (8 * (length (w ∷ ws) + more)) out _ _ _ _ (omega arith)
          (decode_word-encoded w ws more out _ bs r)
      ∙ ih
      ∙ ap (λ bytes. ok (bytes, end)) (rw r.words (simp append_assoc))

decode_none : (g : ℕ) (out s : List ℕ) → decode g 0 out s ≡ ok (out, s)
unfolding decode
decode_none zero out s = refl
decode_none (suc g) out s = refl

-- Decoding the encodings of several lists of words, with anything behind them, gives the words one
-- after the other and leaves the rest.
decode-encodings_from :
    (cs : List (List Word)) (fuel g : ℕ) (ws : List Word) (out rest : List ℕ)
    → length ws ≤ fuel
    → length ws + total_words cs ≤ g
    → decode g (8 * (length ws + total_words cs)) out (unbuffered fuel ws ++ (encodings cs ++ rest))
      ≡ ok (out ++ (words_to_bytes ws ++ words_to_bytes (concat cs)), rest)
unfolding unbuffered encodings words_to_bytes
decode-encodings_from [] fuel g [] out rest h hg = decode_none g out rest ∙ rw (append-nil out)
decode-encodings_from (c ∷ cs) fuel g [] out rest h hg =
    let total : 0 + (length c + total_words cs) ≡ length c + total_words cs = omega arith in
    rw (total, append_assoc (unbuffered (length c) c), words_to_bytes-append c (concat cs))
      (decode-encodings_from cs (length c) g c out rest (omega arith) (omega arith))
decode-encodings_from cs zero g (w ∷ ws) out rest h hg = absurd (omega arith)
decode-encodings_from cs (suc fuel) zero (w ∷ ws) out rest h hg = absurd (omega arith)
decode-encodings_from cs (suc fuel) (suc g) (w ∷ ws) out rest h hg =
    let after = (run_bytes w ws).1 in
    let shorter : length after ≤ length ws = run_bytes-length w ws in
    let (bs, r) =
      run_is_read w ws (total_words cs) (out ++ word_bytes w)
        (unbuffered fuel after ++ (encodings cs ++ rest)) in
    encoded_cons fuel g w ws (total_words cs) out (encodings cs ++ rest) bs
      (words_to_bytes (concat cs)) r
      (decode-encodings_from cs fuel g after ((out ++ word_bytes w) ++ bs) rest (omega arith)
        (omega arith))

decode-encodings :
    (cs : List (List Word)) (g : ℕ) (rest : List ℕ)
    → total_words cs ≤ g
    → decode g (8 * total_words cs) [] (encodings cs ++ rest)
      ≡ ok (words_to_bytes (concat cs), rest)
decode-encodings cs g rest h =
    let total : 0 + total_words cs ≡ total_words cs = omega arith in
    unfold unbuffered words_to_bytes in
    rw total at (decode-encodings_from cs 0 g [] [] rest (omega arith) (omega arith))

encodings-nil : (cs : List (List Word)) → encodings cs ≡ [] → total_words cs ≡ 0
unfolding encodings unbuffered
encodings-nil [] e = refl
encodings-nil ([] ∷ cs) e = omega (arith, encodings-nil cs e)
encodings-nil ((w ∷ ws) ∷ cs) e = cc

pub words_of_none : (cs : List (List Word)) → total_words cs ≡ 0 → words_to_bytes (concat cs) ≡ []
unfolding words_to_bytes
words_of_none [] e = refl
words_of_none ([] ∷ cs) e = words_of_none cs (omega arith)
words_of_none ((w ∷ ws) ∷ cs) e = absurd (omega arith)

pub encodings-none : (cs : List (List Word)) → total_words cs ≡ 0 → encodings cs ≡ []
unfolding encodings unbuffered
encodings-none [] e = refl
encodings-none ([] ∷ cs) e = encodings-none cs (omega arith)
encodings-none ((w ∷ ws) ∷ cs) e = absurd (omega arith)

-- Several calls of `write` append one encoding each.
pub write_chunks-encodings :
    (out : List ℕ) (cs : List (List Word)) → write_chunks write out cs ≡ ok (out ++ encodings cs)
unfolding write_chunks encodings
write_chunks-encodings out [] = ap ok (sym (append-nil out))
write_chunks-encodings out (c ∷ cs) =
    rw (write-unbuffered out c)
      (write_chunks-encodings (out ++ unbuffered (length c) c) cs ∙ ap ok (append_assoc out _ _))

-- The answer that `read-decode` promises, on encodings.
answer :
    (cs : List (List Word)) (rest : List ℕ)
    → (if length (encodings cs ++ rest) == 0
        then ok ([], [])
        else decode (8 * total_words cs) (8 * total_words cs) [] (encodings cs ++ rest))
      ≡ ok (words_to_bytes (concat cs), rest)
answer cs rest = elim (Bool-cases (length (encodings cs ++ rest) == 0)) [
  | inl e ↦
      let sum : length (encodings cs) + length rest ≡ 0 =
        sym (length-append (encodings cs) rest) ∙ ==→eq _ 0 e in
      let no_bytes : encodings cs ≡ [] = nil_of_length _ (omega arith) in
      let no_rest : rest ≡ [] = nil_of_length rest (omega arith) in
      rw e (rw (words_of_none cs (encodings-nil cs no_bytes), no_rest))
  | inr e ↦ rw e (decode-encodings cs (8 * total_words cs) rest (omega arith))
]

pub read-encodings :
    (cs : List (List Word)) (rest : List ℕ) (src : Source)
    → concat src ≡ encodings cs ++ rest
    → (src' : Source) × (read (8 * total_words cs) src ≡ ok (words_to_bytes (concat cs), src'))
      × (concat src' ≡ rest)
read-encodings cs rest src cut =
    let flat : map_ok flat_result (read (8 * total_words cs) src)
        ≡ ok (words_to_bytes (concat cs), rest) =
      read-decode (total_words cs) src ∙ rw cut (answer cs rest) in
    let ((out, src'), got, e) = map_ok-eq-ok flat_result (read (8 * total_words cs) src) flat in
    (
      src',
      got ∙ ap (λ o. ok (o, src')) (ap (λ (p : List ℕ × List ℕ). p.0) e),
      ap (λ (p : List ℕ × List ℕ). p.1) e,
    )

-- Whatever words are written, in any number of calls of `write`, and however the bytes then reach the
-- reader, cut into buffers at any places and with anything behind them: one call of `read` for as
-- many words gives them back, and leaves the source before what follows.
pub read-write :
    (cs : List (List Word)) (packed rest : List ℕ) (src : Source)
    → write_chunks write [] cs ≡ ok packed
    → concat src ≡ packed ++ rest
    → (src' : Source) × (read (8 * total_words cs) src ≡ ok (words_to_bytes (concat cs), src'))
      × (concat src' ≡ rest)
read-write cs packed rest src written cut =
    let is_encoding : packed ≡ encodings cs = cc (write_chunks-encodings [] cs) in
    read-encodings cs rest src (rw is_encoding at cut)
