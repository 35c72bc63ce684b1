-- ===== src/Serialize/RoundTrip.antt =====
-- A message that was written is read back, segment by segment (src/serialize.rs, and
-- src/serialize_packed.rs, whose `read_message` and `write_message` are the same over packed streams).
use capnproto_rust.Base.{
  ℕ, zero, suc, ◌+◌, ◌-◌, ◌*◌, ◌≤◌, ◌<◌, ◌≡◌, refl, sym, ap, ◌∙◌, List, [], ◌∷◌, ◌++◌, append_assoc,
  append-nil, arith, length, length-append, concat, All, get_elem?, leb, true, take-length-append,
  drop-length-append,
}
use capnproto_rust.Base.Outcome.{Outcome, ok, ◌>>=◌}
use capnproto_rust.Words.{Word, words_to_bytes, allocate_zeroed_vec}
use capnproto_rust.Words.Bytes.{
  bytes_to_words-words_to_bytes, words_to_bytes-append, length-words_to_bytes,
  length-allocate_zeroed_vec,
}
use capnproto_rust.Io.{Source, read_source, total_words, write_chunks, write_bytes}
use capnproto_rust.Io.Exact.{Reads-source}
use capnproto_rust.Packed.Read
use capnproto_rust.Packed.Write
use capnproto_rust.Packed.RoundTrip.{encodings, write_chunks-encodings}
use capnproto_rust.Serialize.{
  ReaderOptions, Slices, Segments, read_segments, read_message, slice, get_segment, write_segments,
  write_message,
}
use capnproto_rust.Serialize.Channel.{Channel, plain_channel, packed_channel}
use capnproto_rust.Serialize.Reading.{IsShort, offsets, lengths_sum, read_segment_table_ok}
use capnproto_rust.Serialize.Table.{table_words, singles, bind_step, write_segment_table_lem}

-- What a message has to be so that a reader with these options takes it.
pub record IsAcceptable (options : ReaderOptions) (segments : List (List Word)) : Type 0 where
  pub some_segment : 1 ≤ length segments
  pub few_segments : length segments < 512
  pub short_segments : All IsShort segments
  pub within_limit : lengths_sum 0 segments ≤ options.traversal_limit_in_words

-- All that `write_message` writes, call by call.
abbrev pub message_chunks : List (List Word) → List (List Word)
message_chunks segments = singles (table_words segments) ++ segments

-- The segments as the reader keeps them.
abbrev pub segments_of : List (List Word) → Segments
segments_of segments = record { segment_slices = offsets 0 segments; words = concat segments }

pub lengths_sum-total_words :
    (segments : List (List Word)) (n : ℕ) → lengths_sum n segments ≡ n + total_words segments
lengths_sum-total_words [] n = omega arith
lengths_sum-total_words (s ∷ segments) n =
    omega (arith, lengths_sum-total_words segments (n + length s))

slice_middle :
    (pre s post : List Word)
    → slice (pre ++ (s ++ post)) (length pre) (length pre + length s) ≡ ok s
unfolding slice
slice_middle pre s post =
    let ordered : leb (length pre) (length pre + length s) ≡ true = ground arith in
    let inside : leb (length pre + length s) (length (pre ++ (s ++ post))) ≡ true =
      ground (arith, length-append pre (s ++ post), length-append s post) in
    let size : length pre + length s - length pre ≡ length s = omega arith in
    rw
      (
        ordered,
        inside,
        size,
        drop-length-append (length pre) pre (s ++ post) refl,
        take-length-append (length s) s post refl,
      )
      refl

get_segment_from :
    (pre : List Word) (segments : List (List Word)) (i : ℕ)
    → get_segment
        (record { segment_slices = offsets (length pre) segments; words = pre ++ concat segments })
        i
      ≡ ok (get_elem? segments i)
unfolding get_segment offsets
get_segment_from pre [] i = refl
get_segment_from pre (s ∷ segments) zero = rw (slice_middle pre s (concat segments))
get_segment_from pre (s ∷ segments) (suc i) =
    let ih = get_segment_from (pre ++ s) segments i in rw (length-append pre s, append_assoc) at ih

-- `get_segment` gives each segment of the message, and none beyond them.
pub get_segment-segments_of :
    (segments : List (List Word)) (i : ℕ)
    → get_segment (segments_of segments) i ≡ ok (get_elem? segments i)
get_segment-segments_of segments i = get_segment_from [] segments i

module _ {S : Type 0} {read : ℕ → S → Outcome (List ℕ × S)} (ch : Channel read) where
  read_segments_lem :
      (segments cs : List (List Word)) (slices : Slices) (rest : List ℕ) (s : S)
      → ch.Holds (segments ++ cs) rest s
      → (s' : S) × (read_segments read (total_words segments) slices s
          ≡ ok (record { segment_slices = slices; words = concat segments }, s'))
        × ch.Holds cs rest s'
  unfolding read_segments
  read_segments_lem segments cs slices rest s h =
      let (s', got, h') = ch.deliver segments cs rest s h in
      let size : length (words_to_bytes (allocate_zeroed_vec (total_words segments)))
          ≡ 8 * total_words segments =
        omega (
          arith,
          length-words_to_bytes (allocate_zeroed_vec (total_words segments)),
          length-allocate_zeroed_vec (total_words segments),
        ) in
      (s', rw (size, got, bytes_to_words-words_to_bytes) refl, h')

  read_message_cons :
      (options : ReaderOptions) (s0 : List Word) (more cs : List (List Word)) (rest : List ℕ)
      (s : S)
      → IsAcceptable options (s0 ∷ more)
      → ch.Holds (message_chunks (s0 ∷ more) ++ cs) rest s
      → (s' : S) × (read_message read options s ≡ ok (segments_of (s0 ∷ more), s'))
        × ch.Holds cs rest s'
  unfolding read_message offsets
  read_message_cons options s0 more cs rest s a h =
      let start : 0 + length s0 ≡ length s0 = omega arith in
      let total : lengths_sum (length s0) more ≡ total_words (s0 ∷ more) =
        lengths_sum-total_words more (length s0) in
      let (s1, table, h1) =
        read_segment_table_ok ch s0 more options ((s0 ∷ more) ++ cs) rest s (rw append_assoc at h)
          a.short_segments a.few_segments (rw start at a.within_limit) in
      let (s', got, h') =
        read_segments_lem (s0 ∷ more) cs ((0, length s0) ∷ offsets (length s0) more) rest s1 h1 in
      (s', rw (table, total, got, start) refl, h')

  -- A reader over any channel takes an acceptable message whole, and leaves what follows it.
  read_message_lem :
      (options : ReaderOptions) (segments cs : List (List Word)) (rest : List ℕ) (s : S)
      → IsAcceptable options segments
      → ch.Holds (message_chunks segments ++ cs) rest s
      → (s' : S) × (read_message read options s ≡ ok (segments_of segments, s'))
        × ch.Holds cs rest s'
  read_message_lem options [] cs rest s a h = absurd (omega (arith, a.some_segment))
  read_message_lem options (s0 ∷ more) cs rest s a h =
      read_message_cons options s0 more cs rest s a h

module _ {W : Type 0} (write_all : W → List Word → Outcome W) where
  write_chunks-append :
      (cs ds : List (List Word)) (w : W)
      → write_chunks write_all w (cs ++ ds)
        ≡ (write_chunks write_all w cs >>= λ w'. write_chunks write_all w' ds)
  unfolding write_chunks
  write_chunks-append [] ds w = refl
  write_chunks-append (c ∷ cs) ds w =
      sym (bind_step (write_all w c) _ _ _ λ w'. sym (write_chunks-append cs ds w'))

  pub write_message-chunks :
      (segments : List (List Word)) (w : W)
      → 1 ≤ length segments
      → write_message write_all segments w ≡ write_chunks write_all w (message_chunks segments)
  unfolding write_message write_segments
  write_message-chunks [] w h = absurd (omega arith)
  write_message-chunks (s0 ∷ more) w h =
      rw (write_segment_table_lem write_all s0 more w)
        (sym (write_chunks-append (singles (table_words (s0 ∷ more))) (s0 ∷ more) w))

pub write_chunks-bytes :
    (cs : List (List Word)) (out : List ℕ)
    → write_chunks write_bytes out cs ≡ ok (out ++ words_to_bytes (concat cs))
unfolding write_chunks write_bytes
write_chunks-bytes [] out = unfold words_to_bytes in ap ok (sym (append-nil out))
write_chunks-bytes (c ∷ cs) out =
    write_chunks-bytes cs (out ++ words_to_bytes c) ∙ rw (words_to_bytes-append, append_assoc)

module _ (options : ReaderOptions) (segments : List (List Word)) (bytes rest : List ℕ)
    (src : Source) (acceptable : IsAcceptable options segments) where
  -- What is left to show of a reader: it returns the segments, and the source before the rest.
  abbrev pub Recovers : (ℕ → Source → Outcome (List ℕ × Source)) → Type 0
  Recovers read =
      (m : Segments) × (src' : Source) × (read_message read options src ≡ ok (m, src'))
      × ((i : ℕ) → get_segment m i ≡ ok (get_elem? segments i))
      × (concat src' ≡ rest)

  -- The bytes of `write_message`, read through a buffered source that cuts them at any places, with
  -- anything behind them: `read_message` returns exactly the segments written.
  pub read_message-write_message :
      write_message write_bytes segments [] ≡ ok bytes
      → concat src ≡ bytes ++ rest
      → Recovers read_source
  read_message-write_message written cut =
      let chunks : bytes ≡ words_to_bytes (concat (message_chunks segments)) = cc (
        write_message-chunks write_bytes segments [] acceptable.some_segment,
        write_chunks-bytes (message_chunks segments) [],
      ) in
      let held : concat src ≡ words_to_bytes (concat (message_chunks segments ++ [])) ++ rest =
        cut ∙ rw (chunks, append-nil (message_chunks segments)) in
      let (src', got, left) =
        read_message_lem (plain_channel Reads-source) options segments [] rest src acceptable
          held in
      (
        segments_of segments,
        src',
        got,
        get_segment-segments_of segments,
        unfold words_to_bytes in left,
      )

  -- The same over the packed encoding, each call of `write` being packed by itself.
  pub read_message-write_message_packed :
      write_message Write.write segments [] ≡ ok bytes
      → concat src ≡ bytes ++ rest
      → Recovers Read.read
  read_message-write_message_packed written cut =
      let chunks : bytes ≡ encodings (message_chunks segments) = cc (
        write_message-chunks Write.write segments [] acceptable.some_segment,
        write_chunks-encodings [] (message_chunks segments),
      ) in
      let held : concat src ≡ encodings (message_chunks segments ++ []) ++ rest =
        cut ∙ rw (chunks, append-nil (message_chunks segments)) in
      let (src', got, left) =
        read_message_lem packed_channel options segments [] rest src acceptable held in
      (segments_of segments, src', got, get_segment-segments_of segments, unfold encodings in left)
