-- ===== src/Packed/RoundTrip/Runs.antt =====
-- A run that was written is read back.
use capnproto_rust.Base.{
  ℕ, zero, suc, ◌+◌, ◌-◌, ◌*◌, ◌%◌, ◌≤◌, ◌≡◌, refl, ap, ◌∙◌, inl, inr, List, [], ◌∷◌, ◌++◌,
  append-nil, arith, length, length-append, replicate, take-length-append, drop-length-append, ◌==◌,
  Bool-cases, false, true, leb, le→ltb_false, ltb,
}
use capnproto_rust.Base.Outcome.{ok}
use capnproto_rust.Words.{Word, word, word_bytes, words_to_bytes}
use capnproto_rust.Words.Bytes.{length-words_to_bytes, words_to_bytes-append}
use capnproto_rust.Packed.{word_tag}
use capnproto_rust.Packed.Write.{is_zero, zero_bytes, zero_run, raw_run, run_limit}
use capnproto_rust.Packed.Encoding.{run_bytes}
use capnproto_rust.Packed.Decoding.{uncons, decode_zeros, decode_raws, decode_run}

zero_word_bytes : (w : Word) → is_zero w ≡ true → word_bytes w ≡ replicate 8 0
zero_word_bytes (word b0 b1 b2 b3 b4 b5 b6 b7) h = ground arith

eight_more : (n : ℕ) → replicate ((n + 1) * 8) (zero) ≡ replicate 8 0 ++ replicate (n * 8) 0
eight_more n =
    ap (λ (k : ℕ). replicate k zero)
      (let e : (n + 1) * 8 ≡ suc (suc (suc (suc (suc (suc (suc (suc (n * 8)))))))) = omega arith in
        e)

-- A zero run takes at most `limit` words, all zero, from the front.
zero_run_lem :
    (limit : ℕ) (ws : List Word)
    → ((zero_run limit ws).0 ≤ limit)
      × (words_to_bytes ws
          ≡ replicate ((zero_run limit ws).0 * 8) 0 ++ words_to_bytes (zero_run limit ws).1)
      × ((zero_run limit ws).0 + length (zero_run limit ws).1 ≡ length ws)
unfolding zero_run words_to_bytes
zero_run_lem zero ws = (omega arith, refl, omega arith)
zero_run_lem (suc limit) [] = (omega arith, refl, omega arith)
zero_run_lem (suc limit) (w ∷ ws) =
    let (h, s, l) = zero_run_lem limit ws in
    elim (Bool-cases (is_zero w)) [
      | inl e ↦ rw e (
        omega arith,
        rw (zero_word_bytes w e, s, eight_more (zero_run limit ws).0) refl,
        omega arith,
      )
      | inr e ↦ rw e (omega arith, refl, omega arith)
    ]

-- A raw run takes at most `limit` words from the front.
raw_run_lem :
    (limit : ℕ) (ws : List Word)
    → (length (raw_run limit ws).0 ≤ limit) × (ws ≡ (raw_run limit ws).0 ++ (raw_run limit ws).1)
unfolding raw_run
raw_run_lem zero ws = (omega arith, refl)
raw_run_lem (suc limit) [] = (omega arith, refl)
raw_run_lem (suc limit) (w ∷ ws) =
    let (h, s) = raw_run_lem limit ws in
    elim (Bool-cases (leb 2 (zero_bytes w))) [
      | inl e ↦ rw e (omega arith, refl)
      | inr e ↦ rw e (omega arith, ap (λ vs. w ∷ vs) s)
    ]

-- What a run adds to the output, as far as it goes. `more` words are wanted behind `ws`.
pub record RunIsRead (w : Word) (ws : List Word) (more : ℕ) (out s bs : List ℕ) : Type 0 where
  pub decoded :
      decode_run (word_tag w) (8 * (length ws + more)) out ((run_bytes w ws).0 ++ s)
      ≡ ok (8 * (length (run_bytes w ws).1 + more), out ++ bs, s)
  pub words : words_to_bytes ws ≡ bs ++ words_to_bytes (run_bytes w ws).1

zero_run_is_read :
    (left n rest_length : ℕ) (out s : List ℕ)
    → n ≤ 255
    → 8 * (n + rest_length) ≡ left
    → decode_zeros (n % 256) left out s ≡ ok (8 * rest_length, out ++ replicate (n * 8) 0, s)
unfolding decode_zeros
zero_run_is_read left n rest_length out s h l =
    let as_u8 : n % 256 ≡ n = omega arith in
    let room : ltb left (n * 8) ≡ false = le→ltb_false _ _ (omega arith) in
    let after : left - n * 8 ≡ 8 * rest_length = omega arith in rw (as_u8, room, after) refl

raw_run_is_read :
    (left rest_length : ℕ) (run : List Word) (out s : List ℕ)
    → length run ≤ 255
    → 8 * (length run + rest_length) ≡ left
    → decode_raws (length run % 256) left out (words_to_bytes run ++ s)
      ≡ ok (8 * rest_length, out ++ words_to_bytes run, s)
unfolding decode_raws
raw_run_is_read left rest_length run out s h l =
    let as_u8 : length run % 256 ≡ length run = omega arith in
    let size : length (words_to_bytes run) ≡ length run * 8 =
      omega (arith, length-words_to_bytes run) in
    let room : ltb left (length run * 8) ≡ false = le→ltb_false _ _ (omega arith) in
    let enough : ltb (length (words_to_bytes run ++ s)) (length run * 8) ≡ false =
      le→ltb_false _ _ (omega (arith, length-append (words_to_bytes run) s)) in
    let after : left - length run * 8 ≡ 8 * rest_length = omega arith in
    rw
      (
        as_u8,
        room,
        enough,
        after,
        take-length-append (length run * 8) (words_to_bytes run) s size,
        drop-length-append (length run * 8) (words_to_bytes run) s size,
      )
      refl

run_limit-le : (n : ℕ) → run_limit n ≤ 255
run_limit-le n = ground arith

pub run_is_read :
    (w : Word) (ws : List Word) (more : ℕ) (out s : List ℕ)
    → (bs : List ℕ) × RunIsRead w ws more out s bs
run_is_read w ws more out s = elim (Bool-cases (word_tag w == 0)) [
  | inl e ↦
      let limit = run_limit (length ws) in
      let (h, bytes, l) = zero_run_lem limit ws in
      (
        replicate ((zero_run limit ws).0 * 8) 0,
        record {
          decoded =
              unfold decode_run uncons in
              rw e (
                zero_run_is_read (8 * (length ws + more)) (zero_run limit ws).0
                  (length (zero_run limit ws).1 + more) out s
                  (omega (arith, h, run_limit-le (length ws))) (omega (arith, l)));
          words = rw e bytes;
        },
      )
  | inr e ↦ elim (Bool-cases (word_tag w == 0xff)) [
    | inl e' ↦
        let limit = run_limit (length ws) in
        let (h, split) = raw_run_lem limit ws in
        let (run, rest) = raw_run limit ws in
        (
          words_to_bytes run,
          record {
            decoded =
                unfold decode_run uncons in
                rw (e, e')
                  (raw_run_is_read (8 * (length ws + more)) (length rest + more) run out s
                    (omega (arith, h, run_limit-le (length ws)))
                    (omega (arith, ap length split, length-append run rest)));
            words = rw (e, e') (ap words_to_bytes split ∙ words_to_bytes-append run rest);
          },
        )
    | inr e' ↦ (
      [],
      record { decoded = unfold decode_run in rw (e, e', append-nil out); words = rw (e, e') },
    )
  ]
]
