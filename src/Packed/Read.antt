-- ===== src/Packed/Read.antt =====
-- `PackedRead::read` (src/serialize_packed.rs). `in_ptr` up to `in_end` is the list of the bytes that
-- are left in the current buffer, and the output is the list of the bytes written so far. The calls
-- of `consume` tell the inner reader how far `in_ptr` has come; the model leaves the bytes that are
-- not consumed in front of the source. An error ends the read, so it carries no state.
use capnproto_rust.Base.{
  ℕ, zero, suc, ◌+◌, ◌-◌, ◌*◌, ◌%◌, List, [], ◌∷◌, ◌++◌, length, take, drop, replicate, ltb, leb,
  ◌==◌, if◌then◌else◌, ◌&&◌, ◌||◌,
}
use capnproto_rust.Base.Outcome.{
  Outcome, ok, err, fault, panicked, overrun, no_fuel, not_on_segment_boundary, ◌>>=◌, ◌>>◌, assert,
}
use capnproto_rust.Io.{Source, fill_buf, read_source, read_exact}
use capnproto_rust.Packed.{bit_range, has_bit}

-- The rest of the current buffer, and the source behind it.
abbrev pub Input : Type 0
Input = List ℕ × Source

-- `refresh_buffer!`, used where the current buffer is empty. The assertion is `size > 0`.
unfoldable pub refresh : Source → Outcome Input
refresh src = let inp = fill_buf src in assert (ltb 0 (length inp.0)) >> ok inp

-- `*in_ptr` and the step behind it
abbrev pub next_byte : Input → Outcome (ℕ × Input)
next_byte ([], src) = fault overrun
next_byte (b ∷ bs, src) = ok (b, (bs, src))

-- A byte of a word on the slow path, which looks for the end of the buffer before it reads.
unfoldable pub slow_byte : Input → Outcome (ℕ × Input)
slow_byte ([], src) = refresh src >>= next_byte
slow_byte (b ∷ bs, src) = ok (b, (bs, src))

-- The bytes of a word on the slow path.
unfoldable pub slow_bits : List ℕ → ℕ → List ℕ → Input → Outcome (List ℕ × Input)
slow_bits [] tag out inp = ok (out, inp)
slow_bits (i ∷ is) tag out inp =
    if has_bit tag i
    then (slow_byte inp >>= λ (b, inp'). slow_bits is tag (out ++ (b ∷ [])) inp')
    else slow_bits is tag (out ++ (0 ∷ [])) inp

-- On the fast path: `*in_ptr` is read in any case, and kept by the mask `-(is_nonzero as i8) as u8`,
-- which is 0xff or 0.
unfoldable pub fast_bits : List ℕ → ℕ → List ℕ → List ℕ → Outcome (List ℕ × List ℕ)
fast_bits [] tag out buf = ok (out, buf)
fast_bits (i ∷ is) tag out [] = fault overrun
fast_bits (i ∷ is) tag out (b ∷ bs) =
    fast_bits is tag (out ++ ((if has_bit tag i then b else 0) ∷ []))
      (if has_bit tag i then bs else b ∷ bs)

-- What a round leaves: the next round with `left` bytes of room in the output, or the end.
pub data Round : Type 0 where
  again : (left : ℕ) (out : List ℕ) (inp : Input) → Round
  done : (out : List ℕ) (src : Source) → Round

-- The end of a round: `if out == out_end` consume what was read and return.
abbrev pub close : ℕ → List ℕ → Input → Outcome Round
close left out (buf, src) =
    if left == 0 then ok (done out (buf ∷ src)) else ok (again left out (buf, src))

-- After a zero tag: a count of zero words.
unfoldable pub zeros : ℕ → List ℕ → Input → Outcome Round
zeros left out ([], src) = fault panicked
zeros left out (n ∷ buf, src) =
    if ltb left (n * 8)
    then err not_on_segment_boundary
    else close (left - n * 8) (out ++ replicate (n * 8) 0) (buf, src)

-- A run that is longer than the buffer: copy the buffer, then read the rest past it.
abbrev pub long_run : (run left : ℕ) → List ℕ → Input → Outcome Round
long_run run left out (buf, src) = do
  (bs, src') ← read_exact read_source (run - length buf) src
  let out' = (out ++ buf) ++ bs
  if left == run then ok (done out' src') else ok (again (left - run) out' (fill_buf src'))

-- After the tag 0xff: a count of words that are copied as they are.
unfoldable pub raws : ℕ → List ℕ → Input → Outcome Round
raws left out ([], src) = fault panicked
raws left out (n ∷ buf, src) =
    if ltb left (n * 8)
    then err not_on_segment_boundary
    else if leb (n * 8) (length buf)
    then close (left - n * 8) (out ++ take (n * 8) buf) (drop (n * 8) buf, src)
    else long_run (n * 8) left out (buf, src)

-- What follows the bytes of a word.
unfoldable pub after_word : ℕ → ℕ → List ℕ → Input → Outcome Round
after_word tag left out inp =
    if tag == 0
    then zeros left out inp
    else if tag == 0xff
    then raws left out inp
    else close left out inp

-- `in_end - in_ptr == 0 && (tag == 0 || tag == 0xff)`: have a byte for the count ready.
unfoldable pub ready_count : ℕ → Input → Outcome Input
ready_count tag ([], src) = if tag == 0 || tag == 0xff then refresh src else ok ([], src)
ready_count tag (b ∷ bs, src) = ok (b ∷ bs, src)

-- The tag, read from a buffer that is not empty, and the eight bytes of the word. With ten bytes in
-- the buffer (the tag is one of them) no bounds check is needed.
unfoldable pub read_word : ℕ → List ℕ → ℕ → List ℕ → Source → Outcome Round
read_word left out tag buf src =
    if ltb (length buf + 1) 10
    then (do
      (out', inp) ← slow_bits bit_range tag out (buf, src)
      inp' ← ready_count tag inp
      after_word tag (left - 8) out' inp')
    else (do
      (out', buf') ← fast_bits bit_range tag out buf
      after_word tag (left - 8) out' (buf', src))

-- The body of the loop. `left`, the room in the output, is `out_end - out`.
unfoldable pub round_body : ℕ → List ℕ → Input → Outcome Round
round_body left out ([], src) =
    if left == 0 then ok (done out src) else (refresh src >>= λ inp. ok (again left out inp))
round_body left out (tag ∷ buf, src) =
    if left == 0 && ltb (length buf + 1) 10
    then ok (done out ((tag ∷ buf) ∷ src))
    else read_word left out tag buf src

-- "Output pointer should always be aligned here."
unfoldable pub round : ℕ → List ℕ → Input → Outcome Round
round left out inp = assert (length out % 8 == 0) >> round_body left out inp

abbrev pub resume :
    (ℕ → List ℕ → Input → Outcome (List ℕ × Source)) → Round → Outcome (List ℕ × Source)
resume k (again left out inp) = k left out inp
resume k (done out src) = ok (out, src)

unfoldable pub read_loop : ℕ → ℕ → List ℕ → Input → Outcome (List ℕ × Source)
read_loop zero left out inp = fault no_fuel
read_loop (suc fuel) left out inp = round left out inp >>= resume (read_loop fuel)

-- `PackedRead::read` into a buffer of `len` bytes: the bytes written and the source left. A word
-- takes two rounds at most, one of them to refresh the buffer.
unfoldable pub read : ℕ → Source → Outcome (List ℕ × Source)
read len src = if len == 0 then ok ([], src) else (do
  assert (len % 8 == 0)
  let inp = fill_buf src
  if length inp.0 == 0 then ok ([], src) else read_loop (2 * len) len [] inp)
