-- ===== src/Serialize/Flat.antt =====
-- A message as one vector of words (src/serialize.rs): `flatten_segments`, its size, and reading it
-- back by `read_message_from_words`.
use capnproto_rust.Base.{
  ℕ, zero, suc, ◌+◌, ◌*◌, ◌/◌, ◌≤◌, ◌≡◌, refl, sym, ap, ◌∙◌, List, [], ◌∷◌, ◌++◌, append_assoc,
  append-nil, arith, length, length-append, length-take, take, drop, concat, get_elem?,
  if◌then◌else◌, leb, ◌==◌, eq→==, ==→eq, Bool-cases, inl, inr, true, false, take-append-drop,
  nil_of_length,
}
use capnproto_rust.Base.Outcome.{ok, err, wrong_number_of_words}
use capnproto_rust.Words.{Word, words_to_bytes, bytes_to_words, allocate_zeroed_vec}
use capnproto_rust.Words.Bytes.{
  bytes_to_words-words_to_bytes, words_to_bytes-append, length-words_to_bytes,
  length-allocate_zeroed_vec,
}
use capnproto_rust.Io.{write_bytes}
use capnproto_rust.Io.Exact.{Reads}
use capnproto_rust.Serialize.{
  ReaderOptions, read_slice, read_message_from_words, get_segment, write_segment_table, sum_lengths,
  compute_serialized_size, push_segments, flatten_segments,
}
use capnproto_rust.Serialize.Channel.{plain_channel, total_words-concat}
use capnproto_rust.Serialize.Reading.{offsets, lengths_sum, read_segment_table_ok}
use capnproto_rust.Serialize.RoundTrip.{
  IsAcceptable, segments_of, lengths_sum-total_words, write_chunks-bytes, get_segment-segments_of,
}
use capnproto_rust.Serialize.Table.{length_words, table_words, singles, write_segment_table_lem}

concat-singles : (ws : List Word) → concat (singles ws) ≡ ws
concat-singles [] = refl
concat-singles (w ∷ ws) = ap (λ vs. w ∷ vs) (concat-singles ws)

length-length_words :
    (segments : List (List Word)) → length (length_words segments) ≡ (length segments + 1) / 2
unfolding length_words
length-length_words [] = refl
length-length_words (a ∷ []) = refl
length-length_words (a ∷ b ∷ segments) = omega (arith, length-length_words segments)

length-table_words :
    (s0 : List Word) (more : List (List Word))
    → length (table_words (s0 ∷ more)) ≡ length (s0 ∷ more) / 2 + 1
unfolding table_words
length-table_words s0 more = omega (arith, length-length_words more)

push_segments-concat :
    (segments : List (List Word)) (result : List Word)
    → push_segments result segments ≡ result ++ concat segments
unfolding push_segments
push_segments-concat [] result = sym (append-nil result)
push_segments-concat (s ∷ segments) result =
    push_segments-concat segments (result ++ s) ∙ append_assoc result s (concat segments)

drop_all : (xs : List ℕ) (n : ℕ) → length xs ≤ n → drop n xs ≡ []
drop_all [] zero h = refl
drop_all [] (suc n) h = refl
drop_all (x ∷ xs) zero h = absurd (omega arith)
drop_all (x ∷ xs) (suc n) h = drop_all xs n (omega arith)

-- The table fills its place exactly, and the segments follow it in order.
flatten_segments_lem :
    (s0 : List Word) (more : List (List Word))
    → flatten_segments (s0 ∷ more) ≡ ok (table_words (s0 ∷ more) ++ concat (s0 ∷ more))
unfolding flatten_segments
flatten_segments_lem s0 more =
    let table : write_segment_table write_bytes (s0 ∷ more) []
        ≡ ok (words_to_bytes (table_words (s0 ∷ more))) =
      write_segment_table_lem write_bytes s0 more []
      ∙ write_chunks-bytes (singles (table_words (s0 ∷ more))) []
      ∙ ap (λ ws. ok (words_to_bytes ws)) (concat-singles (table_words (s0 ∷ more))) in
    let size : length (words_to_bytes (table_words (s0 ∷ more)))
        ≡ 8 * (length (s0 ∷ more) / 2 + 1) =
      omega (arith, length-words_to_bytes (table_words (s0 ∷ more)), length-table_words s0 more) in
    let fits : leb (length (words_to_bytes (table_words (s0 ∷ more))))
          (8 * (length (s0 ∷ more) / 2 + 1))
        ≡ true =
      ground arith in
    let nothing_left : drop (length (words_to_bytes (table_words (s0 ∷ more))))
          (words_to_bytes (allocate_zeroed_vec (length (s0 ∷ more) / 2 + 1)))
        ≡ [] =
      drop_all (words_to_bytes (allocate_zeroed_vec (length (s0 ∷ more) / 2 + 1)))
        (length (words_to_bytes (table_words (s0 ∷ more))))
        (omega (
          arith,
          length-words_to_bytes (allocate_zeroed_vec (length (s0 ∷ more) / 2 + 1)),
          length-allocate_zeroed_vec (length (s0 ∷ more) / 2 + 1),
        )) in
    rw (table, fits, nothing_left, append-nil, bytes_to_words-words_to_bytes)
      (ap ok (push_segments-concat (s0 ∷ more) (table_words (s0 ∷ more))))

sum_lengths-concat : (segments : List (List Word)) → sum_lengths segments ≡ length (concat segments)
unfolding sum_lengths
sum_lengths-concat [] = refl
sum_lengths-concat (s ∷ segments) =
    omega (arith, sum_lengths-concat segments, length-append s (concat segments))

-- `flatten_segments` never panics on a message with a segment, and makes a vector of exactly
-- `compute_serialized_size` words.
pub flatten_segments-size :
    (segments : List (List Word))
    → 1 ≤ length segments
    → (words : List Word) × (flatten_segments segments ≡ ok words)
      × (length words ≡ compute_serialized_size segments)
unfolding compute_serialized_size
flatten_segments-size [] h = absurd (omega arith)
flatten_segments-size (s0 ∷ more) h = (
  table_words (s0 ∷ more) ++ concat (s0 ∷ more),
  flatten_segments_lem s0 more,
  omega (
    arith,
    length-append (table_words (s0 ∷ more)) (concat (s0 ∷ more)),
    length-table_words s0 more,
    sum_lengths-concat (s0 ∷ more),
  ),
)

Reads-slice : Reads read_slice (λ bytes. bytes)
unfolding read_slice
Reads-slice = record {
  bytes = take;
  after = drop;
  returns = λ n s. refl;
  takes = λ n s. sym (take-append-drop n s);
  at_most = λ n s. omega (arith, length-take n s);
  progress = λ n s h e. nil_of_length s (omega (arith, length-take n s));
}

read_flat_cons :
    (options : ReaderOptions) (s0 : List Word) (more : List (List Word)) (extra : List Word)
    → IsAcceptable options (s0 ∷ more)
    → read_message_from_words options ((table_words (s0 ∷ more) ++ concat (s0 ∷ more)) ++ extra)
      ≡ (if length extra == 0 then ok (segments_of (s0 ∷ more)) else err wrong_number_of_words)
unfolding read_message_from_words offsets
read_flat_cons options s0 more extra a =
    let start : 0 + length s0 ≡ length s0 = omega arith in
    let bytes : words_to_bytes ((table_words (s0 ∷ more) ++ concat (s0 ∷ more)) ++ extra)
        ≡ words_to_bytes (concat (singles (table_words (s0 ∷ more)) ++ []))
          ++ words_to_bytes (concat (s0 ∷ more) ++ extra) =
      rw (append-nil (singles (table_words (s0 ∷ more))), concat-singles, append_assoc)
        (words_to_bytes-append (table_words (s0 ∷ more)) (concat (s0 ∷ more) ++ extra)) in
    let (rest, table, left) =
      read_segment_table_ok (plain_channel Reads-slice) s0 more options [] _ _ bytes
        a.short_segments a.few_segments (rw start at a.within_limit) in
    let rest_bytes : rest ≡ words_to_bytes (concat (s0 ∷ more) ++ extra) =
      unfold words_to_bytes in left in
    let behind : bytes_to_words rest ≡ concat (s0 ∷ more) ++ extra =
      ap bytes_to_words rest_bytes ∙ bytes_to_words-words_to_bytes (concat (s0 ∷ more) ++ extra) in
    let claimed : lengths_sum (length s0) more ≡ length (concat (s0 ∷ more)) =
      lengths_sum-total_words more (length s0) ∙ total_words-concat (s0 ∷ more) in
    rw (table, behind, claimed, start)
      (elim (Bool-cases (length extra == 0)) [
        | inl e ↦
            let none : extra ≡ [] = nil_of_length extra (==→eq _ 0 e) in
            let same : (length (concat (s0 ∷ more)) == length (concat (s0 ∷ more) ++ extra))
                ≡ true =
              eq→== _ _ (rw (none, append-nil) refl) in
            let no_more : concat (s0 ∷ more) ++ extra ≡ concat (s0 ∷ more) =
              rw none (append-nil (concat (s0 ∷ more))) in
            rw (e, same)
              (ap
                (λ (ws : List Word). ok (record {
                  segment_slices = (0, length s0) ∷ offsets (length s0) more;
                  words = ws;
                }))
                no_more)
        | inr e ↦
            let other : (length (concat (s0 ∷ more)) == length (concat (s0 ∷ more) ++ extra))
                ≡ false =
              ground (arith, length-append (concat (s0 ∷ more)) extra) in
            rw (e, other) refl
      ])

-- A message of 1 to 511 segments, each shorter than 2 ^ 32 words, that together are no longer than the
-- traversal limit, is flattened, and `read_message_from_words` of its words returns exactly its
-- segments; with words left over behind them it reports the wrong number of words.
pub read_message_from_words-flatten :
    (options : ReaderOptions) (segments : List (List Word)) (extra : List Word)
    → IsAcceptable options segments
    → (words : List Word) × (flatten_segments segments ≡ ok words)
      × (read_message_from_words options (words ++ extra)
          ≡ (if length extra == 0 then ok (segments_of segments) else err wrong_number_of_words))
      × ((i : ℕ) → get_segment (segments_of segments) i ≡ ok (get_elem? segments i))
read_message_from_words-flatten options [] extra a = absurd (omega (arith, a.some_segment))
read_message_from_words-flatten options (s0 ∷ more) extra a = (
  table_words (s0 ∷ more) ++ concat (s0 ∷ more),
  flatten_segments_lem s0 more,
  read_flat_cons options s0 more extra a,
  get_segment-segments_of (s0 ∷ more),
)
