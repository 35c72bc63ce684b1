-- ===== src/Layout/Reading/Lists.antt =====
-- `read_list_pointer` (src/private/layout.rs) on any bytes.
use capnproto_rust.Base.{ℕ, ◌^◌, ◌<◌, ◌≡◌, inl, refl, false, none, some, ◌==◌, arith}
use capnproto_rust.Base.Outcome.{Fault, too_deeply_nested}
use capnproto_rust.Arena.{SegmentReader}
use capnproto_rust.Arena.Reader.{RawSegments}
use capnproto_rust.Layout.Pointer.{
  ElementSize, void, bit, byte, two_bytes, four_bytes, eight_bytes, pointer, inline_composite, kind,
  is_null, target, word_size, element_size, element_count,
}
use capnproto_rust.Layout.Memory.{Memory, pointer_at, ReadState, lift}
use capnproto_rust.Layout.Contract.{
  InMessage, Ready, Post, Holds, Holds-pure, Holds-fail, Holds-bind, Holds-if, Holds-lift,
}
use capnproto_rust.Layout.Contract.Checks.{Mapped}
use capnproto_rust.Layout.Reading.{default_list, Followed, follow_fars}
use capnproto_rust.Layout.Reading.Safety.{
  Located, Holds-kind, Holds-follow_fars, kind_lem, target_lt,
}
use capnproto_rust.Layout.Reading.{sized_target, list_target, read_list_pointer}
use capnproto_rust.Base.Outcome.{not_a_list}
use capnproto_rust.Layout.Reading.ListBounds.{element_count_u32, word_size_u32, element_size_lem}
use capnproto_rust.Layout.Reading.ListTargets.{IsList, list_words, Holds-plain_target}
use capnproto_rust.Layout.Reading.CompositeTargets.{Holds-composite_target}

module _ {Cap : Type 0} {table : RawSegments} (Q : Fault → Type 0) (mem : Memory)
    (mapped : Mapped table) where
  Holds-sized_target :
      (size expected : ElementSize) (nesting_limit : ℕ) (f : Followed)
      → (nesting_limit == 0) ≡ false
      → element_count (pointer_at mem f.reff) < 2 ^ 29
      → word_size (pointer_at mem f.ptr) < 131072
      → Located table f
      → Holds table Q {Cap = Cap} 0
          (IsList table expected nesting_limit)
          list_words
          (sized_target mem size expected nesting_limit f)
  Holds-sized_target inline_composite expected nesting_limit f z h h' l =
      Holds-composite_target Q mem mapped expected nesting_limit f z h h' l
  Holds-sized_target void expected nesting_limit f z h h' l =
      Holds-plain_target Q mem mapped void expected nesting_limit f (λ e. absurd cc) z h l
  Holds-sized_target bit expected nesting_limit f z h h' l =
      Holds-plain_target Q mem mapped bit expected nesting_limit f (λ e. absurd cc) z h l
  Holds-sized_target byte expected nesting_limit f z h h' l =
      Holds-plain_target Q mem mapped byte expected nesting_limit f (λ e. absurd cc) z h l
  Holds-sized_target two_bytes expected nesting_limit f z h h' l =
      Holds-plain_target Q mem mapped two_bytes expected nesting_limit f (λ e. absurd cc) z h l
  Holds-sized_target four_bytes expected nesting_limit f z h h' l =
      Holds-plain_target Q mem mapped four_bytes expected nesting_limit f (λ e. absurd cc) z h l
  Holds-sized_target eight_bytes expected nesting_limit f z h h' l =
      Holds-plain_target Q mem mapped eight_bytes expected nesting_limit f (λ e. absurd cc) z h l
  Holds-sized_target pointer expected nesting_limit f z h h' l =
      Holds-plain_target Q mem mapped pointer expected nesting_limit f (λ e. absurd cc) z h l

  Holds-list_target :
      (expected : ElementSize) (nesting_limit : ℕ) (f : Followed)
      → (nesting_limit == 0) ≡ false
      → ((a : ℕ) → mem a < 256)
      → Located table f
      → Holds table Q {Cap = Cap} 0
          (IsList table expected nesting_limit)
          list_words
          (list_target mem expected nesting_limit f)
  unfolding list_target
  Holds-list_target expected nesting_limit f z bytes l =
      let p = pointer_at mem f.reff in
      let (k, e) = kind_lem p in
      let (size, e') = element_size_lem p in
      Holds-bind (lift (kind p)) _ (Holds-lift (kind p) k e) (λ k' q.
        Holds-kind k' _ _ _ _ (Holds-fail not_a_list)
          (Holds-bind (lift (element_size p)) _ (Holds-lift (element_size p) size e') (λ size' q'.
            Holds-sized_target size' expected nesting_limit f z (element_count_u32 mem f.reff bytes)
              (word_size_u32 mem f.ptr bytes) l))
          (Holds-fail not_a_list) (Holds-fail not_a_list))

-- Reading a list without a default value, from any memory and at any place in it, with a segment of a
-- message whose segments lie in memory: it never panics. A list that it gives is the default list, or
-- each of its elements lies in a segment of the message (where pointers are expected, the pointers of
-- each element do) and has at least the data and the pointers that are expected. The limit pays for the
-- words of the elements, and for a word each where they have no size.
pub read_list_pointer_lem :
    {Cap : Type 0} (table : RawSegments) (mem : Memory) (segment : SegmentReader) (reff : ℕ)
    (expected : ElementSize) (nesting_limit : ℕ) (s : ReadState Cap)
    → Mapped table
    → ((a : ℕ) → mem a < 256)
    → InMessage table segment
    → Ready table s
    → Post table
        (λ _. ⊥)
        0
        (IsList table expected nesting_limit)
        list_words
        s
        (read_list_pointer mem (some segment) reff none expected nesting_limit s)
unfolding read_list_pointer
read_list_pointer_lem table mem segment reff expected nesting_limit s mapped bytes i r =
    let p = pointer_at mem reff in
    (Holds-if (is_null p) _ _ (λ e. Holds-pure default_list (inl refl) (omega arith))
        (λ e.
          Holds-if (nesting_limit == 0) _ _ (λ z. Holds-fail too_deeply_nested)
            (λ z.
              Holds-bind (follow_fars mem reff (target reff p) (some segment)) _
                (Holds-follow_fars mem mapped reff (target reff p) segment i (target_lt reff p))
                (λ f l.
                  Holds-list_target (λ _. ⊥) mem mapped expected nesting_limit f z bytes l)))).run
      s r
