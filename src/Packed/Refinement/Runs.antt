-- ===== src/Packed/Refinement/Runs.antt =====
-- What follows the bytes of a word: a run of zeros, a run of raw words, or nothing.
use capnproto_rust.Base.{
  ℕ, ◌-◌, ◌*◌, ◌≤◌, ◌<◌, ◌≡◌, inl, inr, sym, ap, ◌∙◌, true, false, List, [], ◌∷◌, ◌++◌,
  append_assoc, arith, length, length-append, take, drop, concat, ltb, leb, ◌==◌, Bool-cases,
  if◌then◌else◌, le→ltb_false, ==→eq, ltb_false→le, ltb→lt, ◌||◌, take-append_le, drop-append_le,
  take-append_ge, drop-append_ge, take-length-append, drop-length-append,
}
use capnproto_rust.Base.Outcome.{ok, err, fault, panicked, premature_eof, ◌>>=◌, map_ok}
use capnproto_rust.Io.{Source, read_source, read_exact}
use capnproto_rust.Io.Exact.{Reads-source, read_exact_lem, read_exact_eof, concat-fill_buf}
use capnproto_rust.Packed.Read.{Input, close, zeros, raws, long_run, after_word, ready_count}
use capnproto_rust.Packed.Decoding.{uncons, decode_zeros, decode_raws, decode_run}
use capnproto_rust.Packed.Refinement.Bits.{flat, flat_round, refresh_cases}

close_lem :
    (left : ℕ) (out : List ℕ) (inp : Input)
    → map_ok flat_round (close left out inp) ≡ ok (left, out, flat inp)
close_lem left out (buf, src) = elim (Bool-cases (left == 0)) [
  | inl e ↦ rw e (ap (λ k. ok (k, out, flat (buf, src))) (sym (==→eq left 0 e)))
  | inr e ↦ rw e
]

zeros_lem :
    (n left : ℕ) (out buf : List ℕ) (src : Source)
    → map_ok flat_round (zeros left out (n ∷ buf, src)) ≡ decode_zeros n left out (flat (buf, src))
unfolding zeros decode_zeros
zeros_lem n left out buf src = elim (Bool-cases (ltb left (n * 8))) [
  | inl e ↦ rw e
  | inr e ↦ rw e (close_lem (left - n * 8) _ (buf, src))
]

-- The buffer and the bytes read past it are the front of the stream.
split_run :
    (run : ℕ) (buf bs rest : List ℕ)
    → length buf ≤ run
    → length bs ≡ run - length buf
    → (take run (buf ++ (bs ++ rest)) ≡ buf ++ bs) × (drop run (buf ++ (bs ++ rest)) ≡ rest)
split_run run buf bs rest h l = (
  take-append_ge run buf (bs ++ rest) h
      ∙ ap (λ t. buf ++ t) (take-length-append (run - length buf) bs rest l),
  drop-append_ge run buf (bs ++ rest) h ∙ drop-length-append (run - length buf) bs rest l,
)

long_run_ok :
    (run left : ℕ) (out buf : List ℕ) (src : Source) (bs : List ℕ) (src' : Source)
    → length buf < run
    → read_exact read_source (run - length buf) src ≡ ok (bs, src')
    → concat src ≡ bs ++ concat src'
    → length bs ≡ run - length buf
    → map_ok flat_round (long_run run left out (buf, src))
      ≡ ok (left - run, out ++ take run (flat (buf, src)), drop run (flat (buf, src)))
long_run_ok run left out buf src bs src' h got s l =
    let (taken, left_over) = split_run run buf bs (concat src') (omega arith) l in
    rw (got, s, taken, left_over, append_assoc)
      (elim (Bool-cases (left == run)) [
        | inl e ↦ rw e (
            let all : 0 ≡ left - run = omega (arith, ==→eq left run e) in
            ap (λ k. ok (k, out ++ (buf ++ bs), concat src')) all)
        | inr e ↦ rw e (ap (λ s. ok (left - run, out ++ (buf ++ bs), s)) (concat-fill_buf src'))
      ])

long_run_lem :
    (run left : ℕ) (out buf : List ℕ) (src : Source)
    → length buf < run
    → map_ok flat_round (long_run run left out (buf, src)) ≡ (
        if ltb (length (flat (buf, src))) run
        then err premature_eof
        else ok (left - run, out ++ take run (flat (buf, src)), drop run (flat (buf, src))))
long_run_lem run left out buf src h = elim (Bool-cases (ltb (length (flat (buf, src))) run)) [
  | inl e ↦ rw (
    e,
    read_exact_eof Reads-source (run - length buf) src
        (omega (arith, ltb→lt _ _ e, length-append buf (concat src))),
  )
  | inr e ↦
      let (bs, src', got, s, l) =
        read_exact_lem Reads-source (run - length buf) src
          (omega (arith, ltb_false→le _ _ e, length-append buf (concat src))) in
      rw e (long_run_ok run left out buf src bs src' h got s l)
]

raws_lem :
    (n left : ℕ) (out buf : List ℕ) (src : Source)
    → map_ok flat_round (raws left out (n ∷ buf, src)) ≡ decode_raws n left out (flat (buf, src))
unfolding raws decode_raws
raws_lem n left out buf src = elim (Bool-cases (ltb left (n * 8))) [
  | inl e ↦ rw e
  | inr e ↦ elim (Bool-cases (leb (n * 8) (length buf))) [
    | inl e' ↦
        let inside : n * 8 ≤ length buf = ground arith in
        let enough : ltb (length (buf ++ concat src)) (n * 8) ≡ false =
          le→ltb_false _ _ (omega (arith, length-append buf (concat src))) in
        rw
          (
            e,
            e',
            enough,
            take-append_le (n * 8) buf (concat src) inside,
            drop-append_le (n * 8) buf (concat src) inside,
          )
          (close_lem (left - n * 8) _ (drop (n * 8) buf, src))
    | inr e' ↦ rw (e, e') (long_run_lem (n * 8) left out buf src (ground arith))
  ]
]

-- With a byte in the buffer, or for a tag that no count follows.
after_word_lem :
    (tag left : ℕ) (out : List ℕ) (b : ℕ) (buf : List ℕ) (src : Source)
    → map_ok flat_round (after_word tag left out (b ∷ buf, src))
      ≡ decode_run tag left out (flat (b ∷ buf, src))
unfolding after_word decode_run uncons
after_word_lem tag left out b buf src = elim (Bool-cases (tag == 0)) [
  | inl e ↦ rw e (zeros_lem b left out buf src)
  | inr e ↦ elim (Bool-cases (tag == 0xff)) [
    | inl e' ↦ rw (e, e') (raws_lem b left out buf src)
    | inr e' ↦ rw (e, e') (close_lem left out (b ∷ buf, src))
  ]
]

no_count :
    (tag left : ℕ) (out : List ℕ)
    → (tag == 0 || tag == 0xff) ≡ true
    → fault panicked ≡ decode_run tag left out []
unfolding decode_run uncons
no_count tag left out h = ground arith

-- On the slow path the byte for the count is made ready first.
pub ready_count_lem :
    (tag left : ℕ) (out : List ℕ) (inp : Input)
    → map_ok flat_round (ready_count tag inp >>= after_word tag left out)
      ≡ decode_run tag left out (flat inp)
unfolding ready_count
ready_count_lem tag left out (b ∷ buf, src) = after_word_lem tag left out b buf src
ready_count_lem tag left out ([], src) = elim (Bool-cases (tag == 0 || tag == 0xff)) [
  | inl e ↦ rw e (elim (refresh_cases src) [
    | inl (b, bs, cs, got, s) ↦ rw (got, s) (after_word_lem tag left out b bs cs)
    | inr (got, s) ↦ rw (got, s) (no_count tag left out e)
  ])
  | inr e ↦ rw e (
      unfold after_word decode_run in
      let not_zero : (tag == 0) ≡ false = ground arith in
      let not_ff : (tag == 0xff) ≡ false = ground arith in
      rw (not_zero, not_ff) (close_lem left out ([], src)))
]

-- On the fast path it is in the buffer.
pub after_fast_lem :
    (tag left : ℕ) (out buf : List ℕ) (src : Source)
    → 0 < length buf
    → map_ok flat_round (after_word tag left out (buf, src))
      ≡ decode_run tag left out (flat (buf, src))
after_fast_lem tag left out [] src h = absurd (omega arith)
after_fast_lem tag left out (b ∷ buf) src h = after_word_lem tag left out b buf src
