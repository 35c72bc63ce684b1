-- ===== src/Packed/Encoding.antt =====
-- What `write` puts on the stream without its 64-byte buffer (src/serialize_packed.rs), with the runs as
-- its own loops find them.
use capnproto_rust.Base.{
  ℕ, zero, suc, ◌+◌, ◌%◌, ◌≤◌, ◌≡◌, refl, sym, ap, ◌∙◌, List, [], ◌∷◌, ◌++◌, append_assoc,
  append-nil, arith, length, length-append, set-length-append, ltb, lt→ltb, ltb_false→le, leb, ◌==◌,
  Bool-cases, if◌then◌else◌, inl, inr,
}
use capnproto_rust.Base.Outcome.{ok}
use capnproto_rust.Words.{Word, word, words_to_bytes}
use capnproto_rust.Packed.{word_tag}
use capnproto_rust.Packed.Write.{
  put, put_nonzero, put_word, run_limit, zero_run, zero_bytes, raw_run, Packing, make_room,
  pack_runs, pack_step, pack_loop, write,
}

-- A byte, unless it is zero.
abbrev pub kept : ℕ → List ℕ
kept b = if b == 0 then [] else b ∷ []

abbrev pub kept_bytes : Word → List ℕ
kept_bytes (word b0 b1 b2 b3 b4 b5 b6 b7) =
    kept b0 ++ (kept b1 ++ (kept b2 ++ (kept b3 ++ (kept b4 ++ (kept b5 ++ (kept b6 ++ kept b7))))))

-- What follows the bytes of a word, and the words that are still to be written.
abbrev pub run_bytes : Word → List Word → List ℕ × List Word
run_bytes w ws =
    if word_tag w == 0
    then (let (n, rest) = zero_run (run_limit (length ws)) ws in (n % 256 ∷ [], rest))
    else if word_tag w == 0xff
    then (let (run, rest) = raw_run (run_limit (length ws)) ws in
        (length run % 256 ∷ words_to_bytes run, rest))
    else ([], ws)

unfoldable pub unbuffered : ℕ → List Word → List ℕ
unbuffered fuel [] = []
unbuffered zero (w ∷ ws) = []
unbuffered (suc fuel) (w ∷ ws) =
    word_tag w ∷ (kept_bytes w ++ ((run_bytes w ws).0 ++ unbuffered fuel (run_bytes w ws).1))

length-kept : (b : ℕ) → length (kept b) ≤ 1
length-kept b = ground arith

-- With room for `suc r` bytes one byte goes in, and room for `r` is left.
put_nonzero_lem :
    (r : ℕ) (buf : List ℕ) (b : ℕ)
    → length buf + suc r ≤ 64
    → (put_nonzero buf b ≡ ok (buf ++ kept b)) × (length (buf ++ kept b) + r ≤ 64)
unfolding put_nonzero
put_nonzero_lem r buf b h = (
  elim (Bool-cases (b == 0)) [
    | inl e ↦ rw (lt→ltb (length buf) 64 (omega arith), e, append-nil)
    | inr e ↦ rw (lt→ltb (length buf) 64 (omega arith), e)
  ],
  omega (arith, length-append buf (kept b), length-kept b),
)

put_lem :
    (r : ℕ) (buf : List ℕ) (b : ℕ)
    → length buf + suc r ≤ 64
    → (put buf b ≡ ok (buf ++ (b ∷ []))) × (length (buf ++ (b ∷ [])) + r ≤ 64)
unfolding put
put_lem r buf b h =
    (rw (lt→ltb (length buf) 64 (omega arith)), omega (arith, length-append buf (b ∷ [])))

-- Nine bytes at most go into the buffer for the tag and the bytes of a word.
put_word_lem :
    (buf : List ℕ) (w : Word)
    → length buf + 10 ≤ 64
    → (put_word buf w ≡ ok (buf ++ (word_tag w ∷ kept_bytes w)))
      × (length (buf ++ (word_tag w ∷ kept_bytes w)) + 1 ≤ 64)
unfolding put_word
put_word_lem buf (word b0 b1 b2 b3 b4 b5 b6 b7) h =
    let (e, l) = put_lem 9 buf 0 h in
    let (e0, l0) = put_nonzero_lem 8 _ b0 l in
    let (e1, l1) = put_nonzero_lem 7 _ b1 l0 in
    let (e2, l2) = put_nonzero_lem 6 _ b2 l1 in
    let (e3, l3) = put_nonzero_lem 5 _ b3 l2 in
    let (e4, l4) = put_nonzero_lem 4 _ b4 l3 in
    let (e5, l5) = put_nonzero_lem 3 _ b5 l4 in
    let (e6, l6) = put_nonzero_lem 2 _ b6 l5 in
    let (e7, l7) = put_nonzero_lem 1 _ b7 l6 in
    let w : Word = word b0 b1 b2 b3 b4 b5 b6 b7 in
    let room : length (buf ++ (0 ∷ kept_bytes w)) + 1 ≤ 64 = simp append_assoc at l7 in
    (
      rw (e, e0, e1, e2, e3, e4, e5, e6, e7)
          (simp append_assoc (ap ok (set-length-append buf (kept_bytes w) 0 (word_tag w)))),
      omega (
        arith,
        room,
        length-append buf (0 ∷ kept_bytes w),
        length-append buf (word_tag w ∷ kept_bytes w),
      ),
    )

-- A round leaves the stream with the bytes of one word and of its run, and the buffer in bounds.
record Packs (out buf : List ℕ) (w : Word) (ws : List Word) (p : Packing) : Type 0 where
  stream : p.out ++ p.buf ≡ (out ++ buf) ++ (word_tag w ∷ (kept_bytes w ++ (run_bytes w ws).0))
  input : p.input ≡ (run_bytes w ws).1
  bounds : length p.buf ≤ 64

pack_runs_lem :
    (out buf : List ℕ) (w : Word) (ws : List Word)
    → length buf + 1 ≤ 64
    → (p : Packing) × (pack_runs out buf w ws ≡ ok p)
      × (p.out ++ p.buf ≡ (out ++ buf) ++ (run_bytes w ws).0)
      × (p.input ≡ (run_bytes w ws).1)
      × (length p.buf ≤ 64)
unfolding pack_runs
pack_runs_lem out buf w ws h = elim (Bool-cases (word_tag w == 0)) [
  | inl e ↦
      let (n, rest) = zero_run (run_limit (length ws)) ws in
      let (put-ok, room) = put_lem 0 buf (n % 256) (omega arith) in
      (
        record { out = out; buf = buf ++ (n % 256 ∷ []); input = rest },
        rw (e, put-ok),
        rw e (sym (append_assoc out buf _)),
        rw e,
        omega (arith, room),
      )
  | inr e ↦ elim (Bool-cases (word_tag w == 0xff)) [
    | inl e' ↦
        let (run, rest) = raw_run (run_limit (length ws)) ws in
        let (put-ok, room) = put_lem 0 buf (length run % 256) (omega arith) in
        (
          record {
            out = (out ++ (buf ++ (length run % 256 ∷ []))) ++ words_to_bytes run;
            buf = [];
            input = rest;
          },
          rw (e, e', put-ok),
          rw (e, e') (simp (append_assoc, append-nil)),
          rw (e, e'),
          omega arith,
        )
    | inr e' ↦ (
      record { out = out; buf = buf; input = ws },
      rw (e, e'),
      rw (e, e') (sym (append-nil (out ++ buf))),
      rw (e, e'),
      omega arith,
    )
  ]
]

make_room_lem :
    (out buf : List ℕ) (ws : List Word)
    → length buf ≤ 64
    → (out' : List ℕ) × (buf' : List ℕ) × (make_room (record { out = out; buf = buf; input = ws })
        ≡ record { out = out'; buf = buf'; input = ws })
      × (out' ++ buf' ≡ out ++ buf)
      × (length buf' + 10 ≤ 64)
unfolding make_room
make_room_lem out buf ws h = elim (Bool-cases (ltb 64 (length buf + 10))) [
  | inl e ↦ (out ++ buf, [], rw e, append-nil (out ++ buf), omega arith)
  | inr e ↦ (out, buf, rw e, refl, ltb_false→le 64 _ e)
]

pack_step_lem :
    (out buf : List ℕ) (w : Word) (ws : List Word)
    → length buf ≤ 64
    → (p : Packing) × (pack_step out buf w ws ≡ ok p) × Packs out buf w ws p
unfolding pack_step
pack_step_lem out buf w ws h =
    let (out1, buf1, e1, s1, l1) = make_room_lem out buf ws h in
    let (e2, l2) = put_word_lem buf1 w l1 in
    let (p, e3, s3, i3, l3) = pack_runs_lem out1 (buf1 ++ (word_tag w ∷ kept_bytes w)) w ws l2 in
    (
      p,
      rw (e1, e2) e3,
      record { stream = s3 ∙ rw (← s1) (simp append_assoc); input = i3; bounds = l3 },
    )

zero_run-length : (limit : ℕ) (ws : List Word) → length (zero_run limit ws).1 ≤ length ws
unfolding zero_run
zero_run-length zero ws = omega arith
zero_run-length (suc limit) [] = omega arith
zero_run-length (suc limit) (w ∷ ws) = ground (arith, zero_run-length limit ws)

raw_run-length : (limit : ℕ) (ws : List Word) → length (raw_run limit ws).1 ≤ length ws
unfolding raw_run
raw_run-length zero ws = omega arith
raw_run-length (suc limit) [] = omega arith
raw_run-length (suc limit) (w ∷ ws) = elim (Bool-cases (leb 2 (zero_bytes w))) [
  | inl e ↦ rw e (omega arith)
  | inr e ↦ rw e (omega (arith, raw_run-length limit ws))
]

pub run_bytes-length : (w : Word) (ws : List Word) → length (run_bytes w ws).1 ≤ length ws
run_bytes-length w ws = elim (Bool-cases (word_tag w == 0)) [
  | inl e ↦ rw e (zero_run-length (run_limit (length ws)) ws)
  | inr e ↦ elim (Bool-cases (word_tag w == 0xff)) [
    | inl e' ↦ rw (e, e') (raw_run-length (run_limit (length ws)) ws)
    | inr e' ↦ rw (e, e') (omega arith)
  ]
]

pack_loop_lem :
    (fuel : ℕ) (out buf : List ℕ) (ws : List Word)
    → length buf ≤ 64
    → length ws ≤ fuel
    → pack_loop fuel out buf ws ≡ ok ((out ++ buf) ++ unbuffered fuel ws)
unfolding pack_loop unbuffered
pack_loop_lem fuel out buf [] h hf = ap ok (sym (append-nil (out ++ buf)))
pack_loop_lem zero out buf (w ∷ ws) h hf = absurd (omega arith)
pack_loop_lem (suc fuel) out buf (w ∷ ws) h hf =
    let (p, step, packs) = pack_step_lem out buf w ws h in
    let shorter : length p.input ≤ fuel = rw packs.input (omega (arith, run_bytes-length w ws)) in
    rw step (
      pack_loop_lem fuel p.out p.buf p.input packs.bounds shorter
      ∙ rw (packs.stream, packs.input) (ap ok (simp append_assoc)))

-- `write` ends on every word-aligned input, never touches its 64-byte buffer out of bounds, and
-- appends to the inner writer what `unbuffered` gives for the words, whatever the buffering.
pub write-unbuffered :
    (out : List ℕ) (ws : List Word) → write out ws ≡ ok (out ++ unbuffered (length ws) ws)
unfolding write
write-unbuffered out ws =
    pack_loop_lem (length ws) out [] ws (omega arith) (omega arith) ∙ rw (append-nil out)
