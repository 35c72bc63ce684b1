-- ===== src/Packed/Write.antt =====
-- `PackedWrite::write` (src/serialize_packed.rs). The input is word-aligned, so it is a list of
-- words. The inner writer is the list of the bytes that were written to it so far.
use capnproto_rust.Base.{
  ℕ, zero, suc, ◌+◌, ◌%◌, Bool, List, [], ◌∷◌, ◌++◌, length, set, ltb, leb, ◌==◌, if◌then◌else◌,
  ◌&&◌,
}
use capnproto_rust.Base.Outcome.{Outcome, ok, fault, overrun, no_fuel, ◌>>=◌}
use capnproto_rust.Words.{Word, word, words_to_bytes}
use capnproto_rust.Packed.{word_tag}

-- The first `buf_idx` bytes of `buf: [u8; 64]`. An access at 64 or above is out of bounds.
unfoldable pub put : List ℕ → ℕ → Outcome (List ℕ)
put buf b = if ltb (length buf) 64 then ok (buf ++ (b ∷ [])) else fault overrun

-- `*buf[buf_idx] = *in_ptr; buf_idx += bit`: the byte is stored in any case.
unfoldable pub put_nonzero : List ℕ → ℕ → Outcome (List ℕ)
put_nonzero buf b =
    if ltb (length buf) 64 then ok (if b == 0 then buf else buf ++ (b ∷ [])) else fault overrun

-- The tag byte, whose place is kept free at first, and the bytes of the word that are not zero.
unfoldable pub put_word : List ℕ → Word → Outcome (List ℕ)
put_word buf (word b0 b1 b2 b3 b4 b5 b6 b7) = do
  let tag_pos = length buf
  buf ← put buf 0
  buf ← put_nonzero buf b0
  buf ← put_nonzero buf b1
  buf ← put_nonzero buf b2
  buf ← put_nonzero buf b3
  buf ← put_nonzero buf b4
  buf ← put_nonzero buf b5
  buf ← put_nonzero buf b6
  buf ← put_nonzero buf b7
  ok (set buf tag_pos (word_tag (word b0 b1 b2 b3 b4 b5 b6 b7)))

-- `limit`, in words: `n` ahead are left, and at most 255 are looked at.
abbrev pub run_limit : ℕ → ℕ
run_limit n = if ltb 255 n then 255 else n

-- `*in_word == 0`
abbrev pub is_zero : Word → Bool
is_zero (word b0 b1 b2 b3 b4 b5 b6 b7) =
    b0 == 0 && b1 == 0 && b2 == 0 && b3 == 0 && b4 == 0 && b5 == 0 && b6 == 0 && b7 == 0

-- `while in_word < limit && *in_word == 0`: how many zero words, and what follows them.
unfoldable pub zero_run : ℕ → List Word → ℕ × List Word
zero_run zero ws = (0, ws)
zero_run (suc limit) [] = (0, [])
zero_run (suc limit) (w ∷ ws) =
    let (n, rest) = zero_run limit ws in if is_zero w then (n + 1, rest) else (0, w ∷ ws)

-- `(*in_ptr == 0) as u8`
abbrev pub zero_bit : ℕ → ℕ
zero_bit b = if b == 0 then 1 else 0

-- `c`: how many bytes of the word are zero
abbrev pub zero_bytes : Word → ℕ
zero_bytes (word b0 b1 b2 b3 b4 b5 b6 b7) =
    zero_bit b0
    + zero_bit b1
    + zero_bit b2
    + zero_bit b3
    + zero_bit b4
    + zero_bit b5
    + zero_bit b6
    + zero_bit b7

-- `while in_ptr < limit`: the words with at most one zero byte, and what follows them.
unfoldable pub raw_run : ℕ → List Word → List Word × List Word
raw_run zero ws = ([], ws)
raw_run (suc limit) [] = ([], [])
raw_run (suc limit) (w ∷ ws) =
    let (run, rest) = raw_run limit ws in
    if leb 2 (zero_bytes w) then ([], w ∷ ws) else (w ∷ run, rest)

-- What a round of the loop leaves: the bytes written, the buffer, the words still to be read.
pub record Packing : Type 0 where
  pub out : List ℕ
  pub buf : List ℕ
  pub input : List Word

-- `if buf_idx + 10 > buf.len()`: write the buffer out.
unfoldable pub make_room : Packing → Packing
make_room p =
    if ltb 64 (length p.buf + 10)
    then record { out = p.out ++ p.buf; buf = []; input = p.input }
    else p

-- The three cases after a tag.
unfoldable pub pack_runs : List ℕ → List ℕ → Word → List Word → Outcome Packing
pack_runs out buf w ws =
    if word_tag w == 0
    then (do
      let (n, rest) = zero_run (run_limit (length ws)) ws
      buf ← put buf (n % 256)
      ok (record { out = out; buf = buf; input = rest }))
    else if word_tag w == 0xff
    then (do
      let (run, rest) = raw_run (run_limit (length ws)) ws
      buf ← put buf (length run % 256)
      ok (record { out = (out ++ buf) ++ words_to_bytes run; buf = []; input = rest }))
    else ok (record { out = out; buf = buf; input = ws })

unfoldable pub pack_step : List ℕ → List ℕ → Word → List Word → Outcome Packing
pack_step out buf w ws =
    let room = make_room (record { out = out; buf = buf; input = ws }) in
    do buf ← put_word room.buf w; pack_runs room.out buf w ws

-- The loop. Each round reads a word at least.
unfoldable pub pack_loop : ℕ → List ℕ → List ℕ → List Word → Outcome (List ℕ)
pack_loop fuel out buf [] = ok (out ++ buf)
pack_loop zero out buf (w ∷ ws) = fault no_fuel
pack_loop (suc fuel) out buf (w ∷ ws) =
    pack_step out buf w ws >>= λ p. pack_loop fuel p.out p.buf p.input

-- `PackedWrite::write` of `ws` to a writer that already holds `out`
unfoldable pub write : List ℕ → List Word → Outcome (List ℕ)
write out ws = pack_loop (length ws) out [] ws
