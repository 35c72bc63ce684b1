-- ===== src/Serialize.antt =====
-- The standard stream framing (src/serialize.rs): a segment table, then the segments. Readers and
-- writers are parameters, as in the source; the plain ones and the packed ones fill them.
pub mod Table
pub mod Channel
pub mod Reading
pub mod RoundTrip
pub mod Flat
mod Tests
use capnproto_rust.Base.{
  ℕ, zero, suc, ◌+◌, ◌-◌, ◌*◌, ◌/◌, ◌%◌, ◌^◌, List, [], ◌∷◌, ◌++◌, Option, none, some, length,
  get_elem?, take, drop, ltb, leb, ◌==◌, if◌then◌else◌,
}
use capnproto_rust.Base.Outcome.{
  Outcome, ok, err, fault, panicked, too_many_segments, too_few_segments, message_too_large,
  wrong_number_of_words, ◌>>=◌, ◌>>◌,
}
use capnproto_rust.Words.{
  Word, word, zero_word, words_to_bytes, bytes_to_words, allocate_zeroed_vec, read_u32, write_u32,
}
use capnproto_rust.Io.{read_exact, write_chunks, write_bytes}

-- `ReaderOptions` of src/message.rs. `nesting_limit` is an `i32` that is not negative here.
pub record ReaderOptions : Type 0 where
  pub traversal_limit_in_words : ℕ
  pub nesting_limit : ℕ

-- `LittleEndian::read_u32` of the first four bytes of a slice, which never is shorter here.
unfoldable pub read_u32_at : List ℕ → ℕ
read_u32_at (b0 ∷ b1 ∷ b2 ∷ b3 ∷ bs) = read_u32 b0 b1 b2 b3
read_u32_at _ = 0

-- Start and end of each segment, counted in words.
abbrev pub Slices : Type 0
Slices = List (ℕ × ℕ)

module _ {S : Type 0} (read : ℕ → S → Outcome (List ℕ × S)) where
  -- `for _ in 0..((segment_count - 1) / 2)`: two lengths a round.
  unfoldable pub read_pairs : ℕ → ℕ → Slices → S → Outcome ((ℕ × Slices) × S)
  read_pairs zero total slices s = ok ((total, slices), s)
  read_pairs (suc k) total slices s = do
    (buf, s) ← read_exact read 8 s
    let a = read_u32_at (take 4 buf)
    let b = read_u32_at (drop 4 buf)
    read_pairs k (total + a + b) (slices ++ ((total, total + a) ∷ (total + a, total + a + b) ∷ []))
        s

  -- `if segment_count % 2 == 0`: the final word, with the last length and padding.
  unfoldable pub read_last : ℕ → ℕ → Slices → S → Outcome ((ℕ × Slices) × S)
  read_last segment_count total slices s =
      if segment_count % 2 == 0
      then (do
        (buf, s) ← read_exact read 8 s
        let a = read_u32_at (take 4 buf)
        ok ((total + a, slices ++ ((total, total + a) ∷ [])), s))
      else ok ((total, slices), s)

  unfoldable pub read_more : ℕ → ℕ → Slices → S → Outcome ((ℕ × Slices) × S)
  read_more segment_count total slices s =
      if ltb 1 segment_count
      then (do
        ((total, slices), s) ← read_pairs ((segment_count - 1) / 2) total slices s
        read_last segment_count total slices s)
      else ok ((total, slices), s)

  unfoldable pub read_segment_table : ReaderOptions → S → Outcome ((ℕ × Slices) × S)
  read_segment_table options s = do
    (buf, s) ← read_exact read 8 s
    let segment_count = (read_u32_at (take 4 buf) + 1) % 2 ^ 32
    let first = read_u32_at (drop 4 buf)
    if leb 512 segment_count
        then err too_many_segments
        else if segment_count == 0
        then err too_few_segments
        else (do
          ((total, slices), s) ← read_more segment_count first ((0, first) ∷ []) s
          if ltb options.traversal_limit_in_words total
              then err message_too_large
              else ok ((total, slices), s))

-- `OwnedSegments` and `SliceSegments`, which differ only in who owns the words.
pub record Segments : Type 0 where
  pub segment_slices : Slices
  pub words : List Word

-- `&words[a..b]`, which panics unless `a <= b <= len`.
unfoldable pub slice : List Word → ℕ → ℕ → Outcome (List Word)
slice words a b =
    if leb a b
    then (if leb b (length words) then ok (take (b - a) (drop a words)) else fault panicked)
    else fault panicked

-- `get_segment` of both
unfoldable pub get_segment : Segments → ℕ → Outcome (Option (List Word))
get_segment segments id = elim (get_elem? segments.segment_slices id) [
  | none ↦ ok none
  | some (a, b) ↦ slice segments.words a b >>= λ ws. ok (some ws)
]

module _ {S : Type 0} (read : ℕ → S → Outcome (List ℕ × S)) where
  unfoldable pub read_segments : ℕ → Slices → S → Outcome (Segments × S)
  read_segments total_words slices s = do
    let owned_space = allocate_zeroed_vec total_words
    (bytes, s) ← read_exact read (length (words_to_bytes owned_space)) s
    ok (record { segment_slices = slices; words = bytes_to_words bytes }, s)

  -- `read_message`, up to the `message::Reader` that wraps the segments
  unfoldable pub read_message : ReaderOptions → S → Outcome (Segments × S)
  read_message options s = do
    ((total, slices), s) ← read_segment_table read options s
    read_segments total slices s

-- Reading from a slice of bytes: `impl Read for &[u8]` of the standard library.
unfoldable pub read_slice : ℕ → List ℕ → Outcome (List ℕ × List ℕ)
read_slice n bytes = ok (take n bytes, drop n bytes)

unfoldable pub read_message_from_words : ReaderOptions → List Word → Outcome Segments
read_message_from_words options words = do
  ((num_words, offsets), bytes) ← read_segment_table read_slice options (words_to_bytes words)
  let rest = bytes_to_words bytes
  if num_words == length rest
      then ok (record { segment_slices = offsets; words = rest })
      else err wrong_number_of_words

-- The eight bytes of `buf`, filled by two calls of `write_u32`.
abbrev pub table_word : ℕ → ℕ → Word
table_word a b =
    word (a % 256) (a / 256 % 256) (a / 65536 % 256) (a / 16777216 % 256) (b % 256) (b / 256 % 256)
      (b / 65536 % 256) (b / 16777216 % 256)

-- `segments[i].len()`
unfoldable pub segment_len : List (List Word) → ℕ → Outcome ℕ
segment_len segments i = elim (get_elem? segments i) [
  | none ↦ fault panicked
  | some s ↦ ok (length s)
]

module _ {W : Type 0} (write_all : W → List Word → Outcome W) where
  -- `for i in 1..((segment_count + 1) / 2)`: two lengths a round.
  unfoldable pub write_pairs : ℕ → ℕ → List (List Word) → W → Outcome W
  write_pairs zero i segments w = ok w
  write_pairs (suc k) i segments w = do
    a ← segment_len segments (i * 2 - 1)
    b ← segment_len segments (i * 2)
    w ← write_all w (table_word a b ∷ [])
    write_pairs k (i + 1) segments w

  unfoldable pub write_last : ℕ → List (List Word) → W → Outcome W
  write_last segment_count segments w =
      if segment_count % 2 == 0
      then (do a ← segment_len segments (segment_count - 1); write_all w (table_word a 0 ∷ []))
      else ok w

  -- `segment_count as u32 - 1` and `segments[0]` both panic where there is no segment.
  unfoldable pub write_segment_table : List (List Word) → W → Outcome W
  write_segment_table segments w = do
    let segment_count = length segments
    first ← segment_len segments 0
    w ← write_all w (table_word (segment_count - 1) first ∷ [])
    if ltb 1 segment_count
        then (do
          w ← write_pairs ((segment_count + 1) / 2 - 1) 1 segments w
          write_last segment_count segments w)
        else ok w

  -- `write_segments`: one call of `write_all` for each segment.
  unfoldable pub write_segments : List (List Word) → W → Outcome W
  write_segments segments w = write_chunks write_all w segments

  unfoldable pub write_message : List (List Word) → W → Outcome W
  write_message segments w = do w ← write_segment_table segments w; write_segments segments w

unfoldable pub sum_lengths : List (List Word) → ℕ
sum_lengths [] = 0
sum_lengths (s ∷ segments) = length s + sum_lengths segments

-- `compute_serialized_size`, and `compute_serialized_size_in_words` of a message's segments
unfoldable pub compute_serialized_size : List (List Word) → ℕ
compute_serialized_size segments = length segments / 2 + 1 + sum_lengths segments

unfoldable pub push_segments : List Word → List (List Word) → List Word
push_segments result [] = result
push_segments result (s ∷ segments) = push_segments (result ++ s) segments

-- `flatten_segments`, and `write_message_to_words` of a message's segments. The table is written into
-- `table_size` zero words: what is left of them stays zero, and a table that does not fit panics.
unfoldable pub flatten_segments : List (List Word) → Outcome (List Word)
flatten_segments segments = do
  let table_size = length segments / 2 + 1
  table ← write_segment_table write_bytes segments []
  if leb (length table) (8 * table_size)
      then ok (
          push_segments
            (bytes_to_words
              (table ++ drop (length table) (words_to_bytes (allocate_zeroed_vec table_size))))
            segments)
      else fault panicked
