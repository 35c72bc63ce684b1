-- ===== src/Layout/Texts/Inside.antt =====
-- `read_text_pointer` and `read_data_pointer` (src/private/layout.rs) on any bytes.
use capnproto_rust.Base.{
  ℕ, ◌+◌, ◌-◌, ◌*◌, ◌/◌, ◌≤◌, ◌<◌, ◌≡◌, ◌⊎◌, inl, inr, refl, Bool, true, some, List, [], ◌==◌, not,
  arith,
}
use capnproto_rust.Base.Outcome.{Fault, not_a_list, not_bytes, no_nul_terminator, not_utf8}
use capnproto_rust.Arena.{SegmentReader, offset}
use capnproto_rust.Arena.Reader.{RawSegments}
use capnproto_rust.Layout.Pointer.{
  ElementSize, void, bit, byte, two_bytes, four_bytes, eight_bytes, pointer, inline_composite, kind,
  is_null, target, element_size, element_count, round_bytes_up_to_words,
}
use capnproto_rust.Layout.Memory.{Memory, pointer_at, Run, ReadState, lift, bounds_check}
use capnproto_rust.Layout.Contract.{
  InMessage, Ready, Post, Holds, Holds-pure, Holds-fail, Holds-bind, Holds-if, Holds-lift,
}
use capnproto_rust.Layout.Contract.Checks.{Mapped}
use capnproto_rust.Layout.Reading.{Followed, follow_fars}
use capnproto_rust.Layout.Reading.Safety.{
  Located, Holds-kind, Holds-follow_fars, kind_lem, target_lt,
}
use capnproto_rust.Layout.Reading.ListBounds.{element_count_u32, element_size_lem}
use capnproto_rust.Layout.Reading.ListTargets.{Holds-bounds}
use capnproto_rust.Layout.Texts.{
  Slice, slice_bytes, new_text, byte_list, terminated_text, read_text_pointer,
}

-- The words that a number of bytes takes up
abbrev pub byte_words : ℕ → ℕ
byte_words n = (n + 7) / 8

-- `n` bytes from `ptr` on lie in the segment `home` of the message.
pub record BytesInside (table : RawSegments) (ptr n : ℕ) : Type 0 where
  pub home : SegmentReader
  pub in_message : InMessage table home
  pub starts : home.ptr ≤ ptr
  pub ends : ptr + n ≤ home.ptr + 8 * home.size

-- The empty slice of a null pointer, or bytes of the message.
abbrev pub IsData : RawSegments → Slice → Type 0
IsData table r = ((r.ptr ≡ 0) × (r.size ≡ 0)) ⊎ BytesInside table r.ptr r.size

-- The empty text of a null pointer, or UTF-8 and a zero behind it, in the message.
abbrev pub IsText : RawSegments → (List ℕ → Bool) → Memory → Slice → Type 0
IsText table from_utf8 mem r =
    ((r.ptr ≡ 0) × (r.size ≡ 0))
    ⊎ (BytesInside table r.ptr (r.size + 1)
        × (mem (r.ptr + r.size) ≡ 0)
        × (from_utf8 (slice_bytes mem r.ptr r.size) ≡ true))

module _ {table : RawSegments} {Q : Fault → Type 0} {Cap : Type 0} where
  Holds-size :
      {A : Type 0} {c : ℕ} {P : A → Type 0} {v : A → ℕ} (s : ElementSize) (m k : Run Cap A)
      → Holds table Q c P v m
      → Holds table Q c P v k
      → Holds table Q c P v (elim s [ byte ↦ m | _ ↦ k ])
  Holds-size byte m k h h' = h
  Holds-size void m k h h' = h'
  Holds-size bit m k h h' = h'
  Holds-size two_bytes m k h h' = h'
  Holds-size four_bytes m k h h' = h'
  Holds-size eight_bytes m k h h' = h'
  Holds-size pointer m k h h' = h'
  Holds-size inline_composite m k h h' = h'

module _ {Cap : Type 0} {table : RawSegments} (Q : Fault → Type 0) (mem : Memory)
    (mapped : Mapped table) where
  -- A list of bytes lies in the message, and its words are paid.
  Holds-byte_list :
      (f : Followed)
      → ((a : ℕ) → mem a < 256)
      → Located table f
      → Holds table Q {Cap = Cap} 0 (λ n. BytesInside table f.ptr n) byte_words (byte_list mem f)
  unfolding byte_list
  Holds-byte_list f bytes l =
      let p = pointer_at mem f.reff in
      let (k, e) = kind_lem p in
      let (size, e') = element_size_lem p in
      let small = element_count_u32 mem f.reff bytes in
      let n = round_bytes_up_to_words (element_count p) in
      Holds-bind (lift (kind p)) _ (Holds-lift (kind p) k e) (λ k' q.
        Holds-kind k' _ _ _ _ (Holds-fail not_a_list)
          (Holds-bind (lift (element_size p)) _ (Holds-lift (element_size p) size e') (λ size' q'.
            Holds-size size' _ _
              (Holds-bind (bounds_check f.segment f.ptr (offset f.ptr n)) _
                (Holds-bounds Q mem mapped f n l (omega arith))
                (λ u inside.
                  Holds-pure (element_count p)
                    (record {
                      home = l.home;
                      in_message = l.in_message;
                      starts = inside.0;
                      ends = omega (arith, inside.1, small);
                    })
                    (omega (arith, small))))
              (Holds-fail not_bytes)))
          (Holds-fail not_a_list) (Holds-fail not_a_list))

module _ {Cap : Type 0} {table : RawSegments} (Q : Fault → Type 0) (from_utf8 : List ℕ → Bool)
    (mem : Memory) where
  Holds-terminated_text :
      (ptr size : ℕ)
      → BytesInside table ptr size
      → Holds table Q {Cap = Cap}
          (byte_words size)
          (IsText table from_utf8 mem)
          (λ r. byte_words r.size)
          (terminated_text from_utf8 mem ptr size)
  unfolding terminated_text new_text
  Holds-terminated_text ptr size inside =
      Holds-if (size == 0) _ _ (λ e. Holds-fail no_nul_terminator)
        (λ z.
          Holds-if (not (mem (ptr + (size - 1)) == 0)) _ _ (λ e. Holds-fail no_nul_terminator)
            (λ e.
              Holds-if (from_utf8 (slice_bytes mem ptr (size - 1))) _ _
                (λ utf8.
                  Holds-pure _
                    (inr (
                      record {
                        home = inside.home;
                        in_message = inside.in_message;
                        starts = inside.starts;
                        ends = ground (arith, inside.ends, z);
                      },
                      ground (arith, e),
                      utf8,
                    ))
                    (omega arith))
                (λ q. Holds-fail not_utf8)))

-- Reading text without a default value, from any memory and at any place in it, with a segment of a
-- message whose segments lie in memory, where the empty string counts as UTF-8: it never panics. A
-- text that it gives is the empty one of a null pointer, or its bytes are UTF-8, a zero follows
-- them, all of them lie in one segment of the message, and the limit pays for their words.
pub read_text_pointer_lem :
    {Cap : Type 0} (table : RawSegments) (from_utf8 : List ℕ → Bool) (mem : Memory)
    (segment : SegmentReader) (reff : ℕ) (s : ReadState Cap)
    → from_utf8 [] ≡ true
    → Mapped table
    → ((a : ℕ) → mem a < 256)
    → InMessage table segment
    → Ready table s
    → Post table
        (λ _. ⊥)
        0
        (IsText table from_utf8 mem)
        (λ r. byte_words r.size)
        s
        (read_text_pointer from_utf8 mem (some segment) reff 0 0 s)
unfolding read_text_pointer new_text slice_bytes
read_text_pointer_lem table from_utf8 mem segment reff s empty mapped bytes i r =
    let p = pointer_at mem reff in
    (Holds-if (is_null p) _ _
        (λ e.
          Holds-if (from_utf8 []) _ _ (λ u. Holds-pure _ (inl (refl, refl)) (omega arith))
            (λ u. absurd cc))
        (λ e.
          Holds-bind (follow_fars mem reff (target reff p) (some segment)) _
            (Holds-follow_fars mem mapped reff (target reff p) segment i (target_lt reff p))
            (λ f l.
              Holds-bind (byte_list mem f) _ (Holds-byte_list (λ _. ⊥) mem mapped f bytes l)
                (λ n inside. Holds-terminated_text (λ _. ⊥) from_utf8 mem f.ptr n inside)))).run
      s r
