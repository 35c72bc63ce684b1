-- ===== src/Layout/Size/Bounded.antt =====
-- Measuring a message (src/private/layout.rs, `total_size`) against the traversal limit.
use capnproto_rust.Base.{
  ℕ, zero, suc, ◌+◌, ◌*◌, ◌^◌, ◌≤◌, ◌<◌, ◌≡◌, refl, sym, subst, Option, some, ◌==◌, ltb, arith,
}
use capnproto_rust.Base.Outcome.{
  panicked, too_deeply_nested, unknown_pointer, non_struct_inline_composite, elements_overrun,
}
use capnproto_rust.Arena.{SegmentReader, offset}
use capnproto_rust.Arena.Reader.{RawSegments}
use capnproto_rust.Layout.Pointer.{
  ElementSize, void, bit, byte, two_bytes, four_bytes, eight_bytes, pointer, inline_composite,
  is_null, target, kind, data_size, ptr_count, word_size, element_size, element_count,
  is_capability, inline_composite_list_element_count, data_bits_per_element, round_bits_up_to_words,
}
use capnproto_rust.Layout.Memory.{Memory, pointer_at, ReadState, Run, ◌⟫◌, lift, pure, bounds_check}
use capnproto_rust.Layout.Contract.{
  InMessage, Ready, Post, Holds, Holds-pure, Holds-fail, Holds-fault, Holds-bind, Holds-if,
  Holds-lift, Holds-frame,
}
use capnproto_rust.Layout.Contract.Checks.{Mapped}
use capnproto_rust.Layout.Reading.{Followed, follow_fars}
use capnproto_rust.Layout.Reading.Safety.{
  Located, Holds-follow_fars, Holds-kind, kind_lem, target_lt,
}
use capnproto_rust.Layout.Reading.ListBounds.{element_count_u32, word_size_u32, element_size_lem}
use capnproto_rust.Layout.Reading.ListTargets.{Holds-bounds}
use capnproto_rust.Layout.Size.{
  MessageSize, plus_eq, words, sum_pointers, sum_elements, size_struct, size_composite, size_list,
  size_target, total_size,
}

plus_eq-le : (a b : MessageSize) → (plus_eq a b).word_count ≤ a.word_count + b.word_count
unfolding plus_eq
plus_eq-le a b = omega arith

-- The contract: the words that are counted are paid for, and the only fault is a panic.
abbrev pub Counts : {Cap : Type 0} → RawSegments → ℕ → Run Cap MessageSize → Type 0
Counts table c m =
    Holds table (λ x. x ≡ panicked) c (λ _. Unit {0}) (λ (r : MessageSize). r.word_count) m

module _ {Cap : Type 0} {table : RawSegments} (mem : Memory) (mapped : Mapped table)
    (bytes : (a : ℕ) → mem a < 256) (recur : Option SegmentReader → ℕ → Run Cap MessageSize)
    (counts : (s : SegmentReader) (reff : ℕ)
      → InMessage table s
      → Counts table 0 (recur (some s) reff)) where
  Counts-mono : (c d : ℕ) (m : Run Cap MessageSize) → c ≤ d → Counts table c m → Counts table d m
  Counts-mono c d m h k = record {
    run = λ s r.
        let p = k.run s r in
        record {
          ready = p.ready;
          less = p.less;
          result = λ a e. let (q, paid) = p.result a e in (q, omega (arith, paid, h));
          faults = p.faults;
        };
  }

  Counts-sum_pointers :
      (s : SegmentReader) (count pos : ℕ) (result : MessageSize)
      → InMessage table s
      → Counts table result.word_count (sum_pointers mem recur (some s) count pos result)
  unfolding sum_pointers
  Counts-sum_pointers s zero pos result i = Holds-pure result tt (omega arith)
  Counts-sum_pointers s (suc count) pos result i =
      Holds-bind (recur (some s) pos) _
        (subst
          (λ c.
            Holds table (λ x. x ≡ panicked) c (λ _. Unit {0})
              (λ (r : MessageSize). result.word_count + r.word_count) (recur (some s) pos))
          (omega arith) (Holds-frame result.word_count (recur (some s) pos) (counts s pos i)))
        (λ r u.
          Counts-mono (plus_eq result r).word_count (result.word_count + r.word_count) _
            (plus_eq-le result r) (Counts-sum_pointers s count (offset pos 1) (plus_eq result r) i))

  Counts-sum_elements :
      (s : SegmentReader) (ds pc count pos : ℕ) (result : MessageSize)
      → InMessage table s
      → Counts table result.word_count (sum_elements mem recur (some s) ds pc count pos result)
  unfolding sum_elements
  Counts-sum_elements s ds pc zero pos result i = Holds-pure result tt (omega arith)
  Counts-sum_elements s ds pc (suc count) pos result i =
      Holds-bind (sum_pointers mem recur (some s) pc (offset pos ds) result) _
        (Counts-sum_pointers s pc (offset pos ds) result i)
        (λ r u. Counts-sum_elements s ds pc count (offset (offset pos ds) pc) r i)

  -- A bounds check of `n` words, and then what needs no more than they give.
  Counts-checked :
      (f : Followed) (n : ℕ) (l : Located table f) (m : Run Cap MessageSize)
      → n < 2 ^ 61
      → Counts table (0 + n) m
      → Counts table 0 (bounds_check f.segment f.ptr (offset f.ptr n) ⟫ m)
  Counts-checked f n l m small h =
      Holds-bind (bounds_check f.segment f.ptr (offset f.ptr n)) _
        (Holds-bounds (λ x. x ≡ panicked) mem mapped f n l small) (λ u inside. h)

  Counts-pointers :
      (f : Followed) (n count pos : ℕ) (l : Located table f)
      → Counts table (0 + n) (sum_pointers mem recur f.segment count pos (words n))
  Counts-pointers f n count pos l =
      subst (λ o. Counts table (0 + n) (sum_pointers mem recur o count pos (words n)))
        (sym l.segment_is)
        (Counts-mono n (0 + n) _ (omega arith)
          (Counts-sum_pointers l.home count pos (words n) l.in_message))

  Counts-size_struct : (f : Followed) → Located table f → Counts table 0 (size_struct mem recur f)
  unfolding size_struct
  Counts-size_struct f l =
      let p = pointer_at mem f.reff in
      Counts-checked f (word_size p) l _ (omega (arith, word_size_u32 mem f.reff bytes))
        (Counts-pointers f (word_size p) (ptr_count p) (offset f.ptr (data_size p)) l)

  Counts-size_composite :
      (f : Followed) → Located table f → Counts table 0 (size_composite mem recur f)
  unfolding size_composite
  Counts-size_composite f l =
      let n = element_count (pointer_at mem f.reff) in
      let tag = pointer_at mem f.ptr in
      let count = inline_composite_list_element_count tag in
      let (k, e) = kind_lem tag in
      Counts-checked f (n + 1) l _ (omega (arith, element_count_u32 mem f.reff bytes)) (
        Holds-if (n == 0) _ _ (λ z. Holds-pure (words (n + 1)) tt (omega arith))
          (λ z. Holds-bind (lift (kind tag)) _ (Holds-lift (kind tag) k e) (λ k' q.
            Holds-kind k' _ _ _ _
              (Holds-if (ltb n (word_size tag * count)) _ _ (λ z. Holds-fail elements_overrun)
                (λ z.
                  subst
                    (λ o. Counts table (0 + (n + 1)) (
                      sum_elements mem recur o (data_size tag) (ptr_count tag) count
                        (offset f.ptr 1) (words (n + 1))))
                    (sym l.segment_is)
                    (Counts-mono (n + 1) (0 + (n + 1)) _ (omega arith) (
                      Counts-sum_elements l.home (data_size tag) (ptr_count tag) count
                        (offset f.ptr 1) (words (n + 1)) l.in_message))))
              (Holds-fail non_struct_inline_composite) (Holds-fail non_struct_inline_composite)
              (Holds-fail non_struct_inline_composite))))

  Counts-bits :
      (size : ElementSize) (f : Followed)
      → Located table f
      → Counts {Cap = Cap} table 0 (
          bounds_check f.segment f.ptr (
            offset f.ptr (
              round_bits_up_to_words
                (element_count (pointer_at mem f.reff) * data_bits_per_element size)))
          ⟫ pure (
              words (
                round_bits_up_to_words
                  (element_count (pointer_at mem f.reff) * data_bits_per_element size))))
  Counts-bits size f l =
      let n =
        round_bits_up_to_words
          (element_count (pointer_at mem f.reff) * data_bits_per_element size) in
      Counts-checked f n l (pure (words n)) (omega arith) (Holds-pure (words n) tt (omega arith))

  Counts-size_list :
      (size : ElementSize) (f : Followed)
      → Located table f
      → Counts table 0 (size_list mem recur size f)
  unfolding size_list
  Counts-size_list void f l = Holds-pure (words 0) tt (omega arith)
  Counts-size_list bit f l = Counts-bits bit f l
  Counts-size_list byte f l = Counts-bits byte f l
  Counts-size_list two_bytes f l = Counts-bits two_bytes f l
  Counts-size_list four_bytes f l = Counts-bits four_bytes f l
  Counts-size_list eight_bytes f l = Counts-bits eight_bytes f l
  Counts-size_list pointer f l =
      let n = element_count (pointer_at mem f.reff) in
      Counts-checked f n l _ (omega (arith, element_count_u32 mem f.reff bytes))
        (Counts-pointers f n n f.ptr l)
  Counts-size_list inline_composite f l = Counts-size_composite f l

  Counts-size_target : (f : Followed) → Located table f → Counts table 0 (size_target mem recur f)
  unfolding size_target
  Counts-size_target f l =
      let p = pointer_at mem f.reff in
      let (k, e) = kind_lem p in
      let (size, e') = element_size_lem p in
      Holds-bind (lift (kind p)) _ (Holds-lift (kind p) k e) (λ k' q.
        Holds-kind k' _ _ _ _ (Counts-size_struct f l)
          (Holds-bind (lift (element_size p)) _ (Holds-lift (element_size p) size e')
            (λ size' q'. Counts-size_list size' f l))
          (Holds-fault panicked refl)
          (Holds-if (is_capability p) _ _
            (λ c. Holds-pure (record { word_count = 0; cap_count = 1 }) tt (omega arith))
            (λ c. Holds-fail unknown_pointer)))

total_size-Counts :
    {Cap : Type 0} (table : RawSegments) (mem : Memory) (nesting_limit : ℕ)
    (segment : SegmentReader) (reff : ℕ)
    → Mapped table
    → ((a : ℕ) → mem a < 256)
    → InMessage table segment
    → Counts {Cap = Cap} table 0 (total_size mem nesting_limit (some segment) reff)
unfolding total_size
total_size-Counts table mem zero segment reff mapped bytes i =
    Holds-if (is_null (pointer_at mem reff)) _ _ (λ e. Holds-pure (words 0) tt (omega arith))
      (λ e. Holds-fail too_deeply_nested)
total_size-Counts table mem (suc nesting_limit) segment reff mapped bytes i =
    let p = pointer_at mem reff in
    Holds-if (is_null p) _ _ (λ e. Holds-pure (words 0) tt (omega arith))
      (λ e.
        Holds-bind (follow_fars mem reff (target reff p) (some segment)) _
          (Holds-follow_fars mem mapped reff (target reff p) segment i (target_lt reff p))
          (λ f l.
            Counts-size_target mem mapped bytes (total_size mem nesting_limit)
              (λ s r j. total_size-Counts table mem nesting_limit s r mapped bytes j) f l))

-- Measuring an object of a message whose segments lie in memory, whatever its bytes are: the words
-- that are reported are taken off the traversal limit, so they are never more than it.
pub total_size_lem :
    {Cap : Type 0} (table : RawSegments) (mem : Memory) (nesting_limit : ℕ)
    (segment : SegmentReader) (reff : ℕ) (s : ReadState Cap)
    → Mapped table
    → ((a : ℕ) → mem a < 256)
    → InMessage table segment
    → Ready table s
    → Post table
        (λ x. x ≡ panicked)
        0
        (λ _. Unit {0})
        (λ (r : MessageSize). r.word_count)
        s
        (total_size mem nesting_limit (some segment) reff s)
total_size_lem table mem nesting_limit segment reff s mapped bytes i r =
    (total_size-Counts table mem nesting_limit segment reff mapped bytes i).run s r
