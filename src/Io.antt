-- ===== src/Io.antt =====
-- Byte streams: `std::io::BufRead` as the packed reader sees it, `std::io::Read`, and `read_exact`
-- of src/util.rs. A source is the list of the buffers that `fill_buf` will show, one after the
-- other; how the bytes are cut into buffers is up to the environment. Sources do not fail, and
-- no reader here answers `Interrupted`, so the retry of `read_exact` does not arise.
pub mod Exact
mod Tests
use capnproto_rust.Base.{
  ℕ, zero, suc, ◌+◌, ◌-◌, List, [], ◌∷◌, ◌++◌, length, take, drop, concat, ◌==◌, if◌then◌else◌,
}
use capnproto_rust.Words.{Word, words_to_bytes}
use capnproto_rust.Base.Outcome.{Outcome, ok, err, fault, premature_eof, no_fuel, ◌>>=◌}

abbrev pub Source : Type 0
Source = List (List ℕ)

-- `fill_buf`: the buffer, and the source behind it. An empty buffer means the end of the input.
unfoldable pub fill_buf : Source → List ℕ × Source
fill_buf [] = ([], [])
fill_buf ([] ∷ cs) = fill_buf cs
fill_buf ((b ∷ bs) ∷ cs) = (b ∷ bs, cs)

-- `Read::read` of a buffered source: as much of the buffer as is asked for.
unfoldable pub read_source : ℕ → Source → Outcome (List ℕ × Source)
read_source n src = let (buf, cs) = fill_buf src in ok (take n buf, drop n buf ∷ cs)

module _ {S : Type 0} (read : ℕ → S → Outcome (List ℕ × S)) where
  -- The loop of `read_exact`, `left` bytes before the end of its buffer.
  unfoldable pub exact_loop : ℕ → ℕ → List ℕ → S → Outcome (List ℕ × S)
  exact_loop zero left out s = if left == 0 then ok (out, s) else fault no_fuel
  exact_loop (suc fuel) left out s =
      if left == 0
      then ok (out, s)
      else (read left s >>= λ (bs, s').
          if length bs == 0
          then err premature_eof
          else exact_loop fuel (left - length bs) (out ++ bs) s')

  -- `read_exact` into a buffer of `n` bytes. Each round but the last reads a byte at least.
  unfoldable pub read_exact : ℕ → S → Outcome (List ℕ × S)
  read_exact n s = exact_loop n n [] s

-- How many words several buffers hold.
abbrev pub total_words : List (List Word) → ℕ
total_words [] = 0
total_words (c ∷ cs) = length c + total_words cs

-- Successive calls of `write_all`. Every buffer that this library writes is word-aligned.
module _ {W : Type 0} (write_all : W → List Word → Outcome W) where
  unfoldable pub write_chunks : W → List (List Word) → Outcome W
  write_chunks w [] = ok w
  write_chunks w (c ∷ cs) = write_all w c >>= λ w'. write_chunks w' cs

-- `Write` for a vector of bytes
unfoldable pub write_bytes : List ℕ → List Word → Outcome (List ℕ)
write_bytes out ws = ok (out ++ words_to_bytes ws)
