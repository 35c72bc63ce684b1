-- ===== src/Serialize/Tests.antt =====
-- A message of two segments through the framing, plain, packed and flat, and tables that are refused.
use capnproto_rust.Base.{
  ℕ, zero, suc, ◌≤◌, ◌≡◌, ◌∙◌, List, [], ◌∷◌, ◌++◌, append-nil, arith, length, length-replicate,
  replicate, concat, All, get_elem?, ◌==◌, if◌then◌else◌,
}
use capnproto_rust.Base.Outcome.{
  ok, err, too_many_segments, message_too_large, wrong_number_of_words,
}
use capnproto_rust.Words.{Word, word, zero_word, words_to_bytes}
use capnproto_rust.Io.{Source, read_source, write_bytes}
use capnproto_rust.Io.Exact.{Reads-source}
use capnproto_rust.Packed.Read
use capnproto_rust.Packed.Write.{write}
use capnproto_rust.Packed.RoundTrip.{encodings, write_chunks-encodings}
use capnproto_rust.Serialize.{
  ReaderOptions, Segments, read_message, read_segment_table, write_message, get_segment,
  flatten_segments, read_message_from_words, compute_serialized_size,
}
use capnproto_rust.Serialize.Channel.{plain_channel}
use capnproto_rust.Serialize.Reading.{
  IsShort, read_segment_table_too_many, read_segment_table_too_large,
}
use capnproto_rust.Serialize.Table.{table_words, singles}
use capnproto_rust.Serialize.RoundTrip.{
  IsAcceptable, message_chunks, segments_of, write_message-chunks, write_chunks-bytes,
  read_message-write_message, read_message-write_message_packed,
}
use capnproto_rust.Serialize.Flat.{flatten_segments-size, read_message_from_words-flatten}

abbrev options : ReaderOptions
options = record { traversal_limit_in_words = 100; nesting_limit = 64 }

abbrev two_segments : List (List Word)
two_segments = (word 0 0 0 0 1 0 1 0 ∷ zero_word ∷ []) ∷ (word 1 2 3 4 5 6 7 8 ∷ []) ∷ []

two_segments-IsAcceptable : IsAcceptable options two_segments
two_segments-IsAcceptable = record {
  some_segment = omega arith;
  few_segments = omega arith;
  short_segments = (omega arith, (omega arith, tt));
  within_limit = omega arith;
}

abbrev plain_bytes : List ℕ
plain_bytes = words_to_bytes (concat (message_chunks two_segments))

plain_written : write_message write_bytes two_segments [] ≡ ok plain_bytes
plain_written =
    write_message-chunks write_bytes two_segments [] (omega arith)
    ∙ write_chunks-bytes (message_chunks two_segments) []

read_message-write_message_example :
    (m : Segments) × (src' : Source) × (read_message read_source options
        ((plain_bytes ++ (9 ∷ [])) ∷ [])
      ≡ ok (m, src'))
    × ((i : ℕ) → get_segment m i ≡ ok (get_elem? two_segments i))
    × (concat src' ≡ 9 ∷ [])
read_message-write_message_example =
    read_message-write_message options two_segments plain_bytes (9 ∷ [])
      ((plain_bytes ++ (9 ∷ [])) ∷ []) two_segments-IsAcceptable plain_written
      (append-nil (plain_bytes ++ (9 ∷ [])))

abbrev packed_bytes : List ℕ
packed_bytes = encodings (message_chunks two_segments)

packed_written : write_message write two_segments [] ≡ ok packed_bytes
packed_written =
    write_message-chunks write two_segments [] (omega arith)
    ∙ write_chunks-encodings [] (message_chunks two_segments)

read_message-write_message_packed_example :
    (m : Segments) × (src' : Source) × (read_message Read.read options
        ((packed_bytes ++ (9 ∷ [])) ∷ [])
      ≡ ok (m, src'))
    × ((i : ℕ) → get_segment m i ≡ ok (get_elem? two_segments i))
    × (concat src' ≡ 9 ∷ [])
read_message-write_message_packed_example =
    read_message-write_message_packed options two_segments packed_bytes (9 ∷ [])
      ((packed_bytes ++ (9 ∷ [])) ∷ []) two_segments-IsAcceptable packed_written
      (append-nil (packed_bytes ++ (9 ∷ [])))

flatten_segments-size_example :
    (words : List Word) × (flatten_segments two_segments ≡ ok words)
    × (length words ≡ compute_serialized_size two_segments)
flatten_segments-size_example = flatten_segments-size two_segments (omega arith)

read_message_from_words-flatten_example :
    (words : List Word) × (flatten_segments two_segments ≡ ok words)
    × (read_message_from_words options (words ++ (zero_word ∷ [])) ≡ (
        if length (zero_word ∷ []) == 0
        then ok (segments_of two_segments)
        else err wrong_number_of_words))
    × ((i : ℕ) → get_segment (segments_of two_segments) i ≡ ok (get_elem? two_segments i))
read_message_from_words-flatten_example =
    read_message_from_words-flatten options two_segments (zero_word ∷ []) two_segments-IsAcceptable

abbrev many_segments : List (List Word)
many_segments = replicate 511 []

many_segments-IsShort : (n : ℕ) → All IsShort (replicate n [])
many_segments-IsShort zero = tt
many_segments-IsShort (suc n) = (omega arith, many_segments-IsShort n)

many_segments-length : 512 ≤ length ([] ∷ many_segments)
many_segments-length = omega (arith, length-replicate {A = List Word} 511 [])

abbrev many_bytes : List ℕ
many_bytes = words_to_bytes (concat (singles (table_words ([] ∷ many_segments)) ++ [])) ++ []

read_segment_table_too_many_example :
    read_segment_table read_source options (many_bytes ∷ []) ≡ err too_many_segments
read_segment_table_too_many_example =
    read_segment_table_too_many (plain_channel Reads-source) [] many_segments options [] []
      (many_bytes ∷ []) (append-nil many_bytes) (many_segments-IsShort 512) many_segments-length
      (omega (arith, length-replicate {A = List Word} 511 []))

abbrev narrow : ReaderOptions
narrow = record { traversal_limit_in_words = 2; nesting_limit = 64 }

abbrev table_bytes : List ℕ
table_bytes = words_to_bytes (concat (singles (table_words two_segments) ++ [])) ++ []

read_segment_table_too_large_example :
    read_segment_table read_source narrow (table_bytes ∷ []) ≡ err message_too_large
read_segment_table_too_large_example =
    read_segment_table_too_large (plain_channel Reads-source)
      (word 0 0 0 0 1 0 1 0 ∷ zero_word ∷ []) ((word 1 2 3 4 5 6 7 8 ∷ []) ∷ []) narrow [] []
      (table_bytes ∷ []) (append-nil table_bytes) (omega arith, (omega arith, tt)) (omega arith)
      (omega arith)
