-- ===== src/Packed.antt =====
-- The packed stream encoding (src/serialize_packed.rs): what `PackedWrite::write` and
-- `PackedRead::read` share, which is how a tag byte stands for the eight bytes of a word.
pub mod Write
pub mod Encoding
pub mod Format
pub mod Read
pub mod Decoding
pub mod Refinement
pub mod RoundTrip
mod Tests
use capnproto_rust.Base.{
  ℕ, ◌+◌, ◌*◌, ◌/◌, ◌%◌, ◌^◌, Bool, true, false, List, [], ◌∷◌, ◌==◌, if◌then◌else◌,
}
use capnproto_rust.Words.{Word, word}

-- `for i in 0..8`
abbrev pub bit_range : List ℕ
bit_range = 0 ∷ 1 ∷ 2 ∷ 3 ∷ 4 ∷ 5 ∷ 6 ∷ 7 ∷ []

-- `(tag & (1u8 << i)) != 0`
abbrev pub has_bit : ℕ → ℕ → Bool
has_bit tag i = tag / 2 ^ i % 2 == 1

-- `(*in_ptr != 0) as u8`
abbrev pub nonzero_bit : ℕ → ℕ
nonzero_bit b = if b == 0 then 0 else 1

-- `(bit0 << 0) | (bit1 << 1) | … | (bit7 << 7)`
abbrev pub word_tag : Word → ℕ
word_tag (word b0 b1 b2 b3 b4 b5 b6 b7) =
    nonzero_bit b0
    + 2 * nonzero_bit b1
    + 4 * nonzero_bit b2
    + 8 * nonzero_bit b3
    + 16 * nonzero_bit b4
    + 32 * nonzero_bit b5
    + 64 * nonzero_bit b6
    + 128 * nonzero_bit b7
