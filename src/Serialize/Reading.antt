-- ===== src/Serialize/Reading.antt =====
-- `read_segment_table` and `read_message` (src/serialize.rs) on what a channel carries.
use capnproto_rust.Base.{
  ℕ, zero, suc, ◌+◌, ◌-◌, ◌/◌, ◌%◌, ◌^◌, ◌≤◌, ◌<◌, ◌≡◌, refl, ◌∙◌, List, [], ◌∷◌, ◌++◌,
  append_assoc, append-nil, arith, length, take, drop, All, ltb, leb, ◌==◌, eq→==, true, false,
  le→ltb_false, lt→ltb,
}
use capnproto_rust.Base.Outcome.{Outcome, ok, err, too_many_segments, message_too_large, ◌>>=◌}
use capnproto_rust.Words.{Word, words_to_bytes}
use capnproto_rust.Words.LittleEndian.{read_u32_digits}
use capnproto_rust.Io.{read_exact}
use capnproto_rust.Serialize.{
  ReaderOptions, Slices, read_u32_at, read_pairs, read_last, read_more, read_segment_table,
  table_word,
}
use capnproto_rust.Serialize.Channel.{Channel}
use capnproto_rust.Serialize.Table.{length_words, table_words, singles}

-- A length that a `u32` holds.
abbrev pub IsShort : List Word → Type 0
IsShort s = length s < 2 ^ 32

-- Where each segment lies behind `from` words.
unfoldable pub offsets : ℕ → List (List Word) → Slices
offsets from [] = []
offsets from (s ∷ segments) = (from, from + length s) ∷ offsets (from + length s) segments

abbrev pub lengths_sum : ℕ → List (List Word) → ℕ
lengths_sum total [] = total
lengths_sum total (s ∷ segments) = lengths_sum (total + length s) segments

-- A word of the table read back.
table_word_first :
    (a b : ℕ) → a < 2 ^ 32 → read_u32_at (take 4 (words_to_bytes (table_word a b ∷ []))) ≡ a
unfolding words_to_bytes read_u32_at
table_word_first a b h = read_u32_digits a ∙ omega arith

table_word_second :
    (a b : ℕ) → b < 2 ^ 32 → read_u32_at (drop 4 (words_to_bytes (table_word a b ∷ []))) ≡ b
unfolding words_to_bytes read_u32_at
table_word_second a b h = read_u32_digits b ∙ omega arith

module _ {S : Type 0} {read : ℕ → S → Outcome (List ℕ × S)} (ch : Channel read) where
  -- One word of the table.
  read_table_word :
      (w : Word) (cs : List (List Word)) (rest : List ℕ) (s : S)
      → ch.Holds ((w ∷ []) ∷ cs) rest s
      → (s' : S) × (read_exact read 8 s ≡ ok (words_to_bytes (w ∷ []), s')) × ch.Holds cs rest s'
  read_table_word w cs rest s h = ch.deliver ((w ∷ []) ∷ []) cs rest s h

  -- The loop and the word behind it, `more` segments before the end.
  read_pairs_lem :
      (more : List (List Word)) (k count total : ℕ) (slices : Slices) (cs : List (List Word))
      (rest : List ℕ) (s : S)
      → k ≡ length more / 2
      → count % 2 ≡ (length more + 1) % 2
      → All IsShort more
      → ch.Holds (singles (length_words more) ++ cs) rest s
      → (s' : S) × ((read_pairs read k total slices s >>= λ ((t, sl), s).
            read_last read count t sl s)
          ≡ ok ((lengths_sum total more, slices ++ offsets total more), s'))
        × ch.Holds cs rest s'
  unfolding read_pairs read_last length_words offsets
  read_pairs_lem [] (suc k) count total slices cs rest s hk hc hs h = absurd (omega arith)
  read_pairs_lem (a ∷ []) (suc k) count total slices cs rest s hk hc hs h = absurd (omega arith)
  read_pairs_lem (a ∷ b ∷ more) zero count total slices cs rest s hk hc hs h = absurd (omega arith)
  read_pairs_lem [] zero count total slices cs rest s hk hc hs h =
      let odd : (count % 2 == 0) ≡ false = ground arith in (s, rw (odd, append-nil), h)
  read_pairs_lem (a ∷ []) zero count total slices cs rest s hk hc (ha, _) h =
      let even : (count % 2 == 0) ≡ true = eq→== _ 0 (omega arith) in
      let (s', got, h') = read_table_word (table_word (length a) 0) cs rest s h in
      (s', rw (even, got, table_word_first (length a) 0 ha) refl, h')
  read_pairs_lem (a ∷ b ∷ more) (suc k) count total slices cs rest s hk hc (ha, (hb, hs)) h =
      let (s1, got, h1) =
        read_table_word (table_word (length a) (length b)) (singles (length_words more) ++ cs) rest
          s h in
      let (s', loop, h') =
        read_pairs_lem more k count (total + length a + length b)
          (slices
            ++ ((total, total + length a) ∷ (total + length a, total + length a + length b) ∷ []))
          cs rest s1 (omega arith) (omega arith) hs h1 in
      (
        s',
        rw
            (
              got,
              table_word_first (length a) (length b) ha,
              table_word_second (length a) (length b) hb,
            )
            (loop ∙ rw append_assoc),
        h',
      )

  read_more_lem :
      (more : List (List Word)) (total : ℕ) (slices : Slices) (cs : List (List Word))
      (rest : List ℕ) (s : S)
      → All IsShort more
      → ch.Holds (singles (length_words more) ++ cs) rest s
      → (s' : S) × (read_more read (length more + 1) total slices s
          ≡ ok ((lengths_sum total more, slices ++ offsets total more), s'))
        × ch.Holds cs rest s'
  unfolding read_more
  read_more_lem [] total slices cs rest s hs h =
      unfold length_words offsets in (s, rw append-nil, h)
  read_more_lem (a ∷ more) total slices cs rest s hs h =
      let many : ltb 1 (length (a ∷ more) + 1) ≡ true = ground arith in
      let (s', loop, h') =
        read_pairs_lem (a ∷ more) ((length (a ∷ more) + 1 - 1) / 2) (length (a ∷ more) + 1) total
          slices cs rest s (ground arith) refl hs h in
      (s', rw many loop, h')

  module _ (s0 : List Word) (more : List (List Word)) (options : ReaderOptions)
      (cs : List (List Word)) (rest : List ℕ) (s : S)
      (held : ch.Holds (singles (table_words (s0 ∷ more)) ++ cs) rest s)
      (short : All IsShort (s0 ∷ more)) where
    abbrev total : ℕ
    total = lengths_sum (length s0) more

    abbrev slices : Slices
    slices = (0, length s0) ∷ offsets (length s0) more

    table_start :
        length more < 2 ^ 32
        → (s' : S) × (read_exact read 8 s
            ≡ ok (words_to_bytes (table_word (length more) (length s0) ∷ []), s'))
          × ch.Holds (singles (length_words more) ++ cs) rest s'
    unfolding table_words
    table_start h = read_table_word (table_word (length more) (length s0)) _ rest s held

    pub read_segment_table_ok :
        length (s0 ∷ more) < 512
        → total ≤ options.traversal_limit_in_words
        → (s' : S) × (read_segment_table read options s ≡ ok ((total, slices), s'))
          × ch.Holds cs rest s'
    unfolding read_segment_table
    read_segment_table_ok few fits =
        let (s1, got, h1) = table_start (omega arith) in
        let (s', loop, h') =
          read_more_lem more (length s0) ((0, length s0) ∷ []) cs rest s1 short.1 h1 in
        let count : (length more + 1) % 2 ^ 32 ≡ length more + 1 = omega arith in
        let not_many : leb 512 (length more + 1) ≡ false = ground arith in
        let not_few : (length more + 1 == 0) ≡ false = ground arith in
        let within : ltb options.traversal_limit_in_words total ≡ false = le→ltb_false _ _ fits in
        (
          s',
          rw
              (
                got,
                table_word_first (length more) (length s0) (omega arith),
                table_word_second (length more) (length s0) (short.0),
                count,
                not_many,
                not_few,
                loop,
                within,
              )
              refl,
          h',
        )

    -- A table that announces 512 segments or more, whatever lengths follow, is refused, over any channel
    -- that still has the table to come.
    pub read_segment_table_too_many :
        512 ≤ length (s0 ∷ more)
        → length (s0 ∷ more) < 2 ^ 32
        → read_segment_table read options s ≡ err too_many_segments
    unfolding read_segment_table
    read_segment_table_too_many many fits =
        let (s1, got, h1) = table_start (omega arith) in
        let count : (length more + 1) % 2 ^ 32 ≡ length more + 1 = omega arith in
        let too_many : leb 512 (length more + 1) ≡ true = ground arith in
        rw (got, table_word_first (length more) (length s0) (omega arith), count, too_many)

    -- A table of fewer than 512 segments that together are longer than the traversal limit is refused.
    pub read_segment_table_too_large :
        length (s0 ∷ more) < 512
        → options.traversal_limit_in_words < total
        → read_segment_table read options s ≡ err message_too_large
    unfolding read_segment_table
    read_segment_table_too_large few over =
        let (s1, got, h1) = table_start (omega arith) in
        let (s', loop, h') =
          read_more_lem more (length s0) ((0, length s0) ∷ []) cs rest s1 short.1 h1 in
        let count : (length more + 1) % 2 ^ 32 ≡ length more + 1 = omega arith in
        let not_many : leb 512 (length more + 1) ≡ false = ground arith in
        let not_few : (length more + 1 == 0) ≡ false = ground arith in
        let outside : ltb options.traversal_limit_in_words total ≡ true = lt→ltb _ _ over in
        rw (
          got,
          table_word_first (length more) (length s0) (omega arith),
          table_word_second (length more) (length s0) (short.0),
          count,
          not_many,
          not_few,
          loop,
          outside,
        )
