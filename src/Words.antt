-- ===== src/Words.antt =====
-- Eight-byte words and little-endian numbers: `Word` of src/lib.rs, and the calls of the
-- `LittleEndian` reader and writer in src/serialize.rs.
pub mod Bytes
pub mod LittleEndian
use capnproto_rust.Base.{ℕ, zero, suc, ◌+◌, ◌*◌, ◌/◌, ◌%◌, ◌^◌, ◌<◌, List, [], ◌∷◌, ◌++◌}

-- `Word(u64)` by its bytes, in the order in which they lie in memory.
pub data Word : Type 0 where
  word : (b0 b1 b2 b3 b4 b5 b6 b7 : ℕ) → Word

-- `Word(0)`
abbrev pub zero_word : Word
zero_word = word 0 0 0 0 0 0 0 0

abbrev pub word_bytes : Word → List ℕ
word_bytes (word b0 b1 b2 b3 b4 b5 b6 b7) = b0 ∷ b1 ∷ b2 ∷ b3 ∷ b4 ∷ b5 ∷ b6 ∷ b7 ∷ []

-- `Word::words_to_bytes` and `Word::words_to_bytes_mut`
unfoldable pub words_to_bytes : List Word → List ℕ
words_to_bytes [] = []
words_to_bytes (w ∷ ws) = word_bytes w ++ words_to_bytes ws

-- `Word::bytes_to_words` and `Word::bytes_to_words_mut`: `len / 8` words, a rest is left out.
unfoldable pub bytes_to_words : List ℕ → List Word
bytes_to_words (b0 ∷ b1 ∷ b2 ∷ b3 ∷ b4 ∷ b5 ∷ b6 ∷ b7 ∷ bs) =
    word b0 b1 b2 b3 b4 b5 b6 b7 ∷ bytes_to_words bs
bytes_to_words _ = []

-- `Word::allocate_zeroed_vec`
unfoldable pub allocate_zeroed_vec : ℕ → List Word
allocate_zeroed_vec zero = []
allocate_zeroed_vec (suc n) = zero_word ∷ allocate_zeroed_vec n

-- `LittleEndian::write_u32` of a number that `as u32` has wrapped
unfoldable pub write_u32 : ℕ → List ℕ
write_u32 n = n % 256 ∷ n / 256 % 256 ∷ n / 65536 % 256 ∷ n / 16777216 % 256 ∷ []

-- `LittleEndian::read_u32`
abbrev pub read_u32 : (b0 b1 b2 b3 : ℕ) → ℕ
read_u32 b0 b1 b2 b3 = b0 + 256 * b1 + 65536 * b2 + 16777216 * b3
