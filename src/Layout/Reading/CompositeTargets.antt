-- ===== src/Layout/Reading/CompositeTargets.antt =====
-- Lists of structs (src/private/layout.rs, the branch `InlineComposite` of `read_list_pointer`).
use capnproto_rust.Base.{
  inr, ℕ, ◌+◌, ◌-◌, ◌*◌, ◌%◌, ◌^◌, ◌≤◌, ◌<◌, ◌≡◌, refl, subst, false, ◌==◌, ltb, if◌then◌else◌,
  arith, ltb_false→le,
}
use capnproto_rust.Base.Outcome.{Fault}
use capnproto_rust.Arena.{offset}
use capnproto_rust.Arena.Reader.{RawSegments}
use capnproto_rust.Layout.Pointer.{
  ElementSize, void, bit, byte, two_bytes, four_bytes, eight_bytes, pointer, inline_composite,
  WirePointer, kind, data_size, ptr_count, word_size, element_count,
}
use capnproto_rust.Layout.Memory.{Memory, pointer_at, lift, pure, bounds_check, check_amplified}
use capnproto_rust.Layout.Contract.{Holds, Holds-pure, Holds-fail, Holds-bind, Holds-if, Holds-lift}
use capnproto_rust.Layout.Contract.Checks.{Mapped, InMessage-IsPlaced}
use capnproto_rust.Layout.Reading.{Followed}
use capnproto_rust.Layout.Reading.Safety.{Located, Holds-kind, kind_lem}
use capnproto_rust.Layout.Pointer.{
  inline_composite_list_element_count, data_bits_per_element, pointers_per_element,
}
use capnproto_rust.Layout.Reading.{composite_start, composite_target}
use capnproto_rust.Base.Outcome.{
  incompatible_element, elements_overrun, non_struct_inline_composite,
}
use capnproto_rust.Layout.Reading.ListBounds.{
  offset-offset, composite_elements_or_none, composite_weight, each_element,
}
use capnproto_rust.Layout.Reading.ListTargets.{
  is_pointer, IsList, list_words, Holds-amplified, Holds-bounds,
}

module _ {Cap : Type 0} {table : RawSegments} (Q : Fault → Type 0) (mem : Memory)
    (mapped : Mapped table) where
  Holds-composite_start :
      {c : ℕ} (expected : ElementSize) (tag : WirePointer) (ptr : ℕ)
      → ptr < 2 ^ 64
      → Holds table Q {Cap = Cap} c
          (λ start.
            (start ≡ offset ptr (if is_pointer expected then data_size tag else 0))
            × (data_bits_per_element expected ≤ data_size tag * 64)
            × (pointers_per_element expected ≤ ptr_count tag))
          (λ _. c)
          (composite_start mem expected tag ptr)
  unfolding composite_start
  Holds-composite_start void tag ptr h =
      Holds-pure ptr (omega (arith, h), omega arith, omega arith) (omega arith)
  Holds-composite_start bit tag ptr h = Holds-fail incompatible_element
  Holds-composite_start byte tag ptr h =
      Holds-if (data_size tag == 0) _ _ (λ e. Holds-fail incompatible_element)
        (λ e. Holds-pure ptr (omega (arith, h), ground (arith, e), omega arith) (omega arith))
  Holds-composite_start two_bytes tag ptr h =
      Holds-if (data_size tag == 0) _ _ (λ e. Holds-fail incompatible_element)
        (λ e. Holds-pure ptr (omega (arith, h), ground (arith, e), omega arith) (omega arith))
  Holds-composite_start four_bytes tag ptr h =
      Holds-if (data_size tag == 0) _ _ (λ e. Holds-fail incompatible_element)
        (λ e. Holds-pure ptr (omega (arith, h), ground (arith, e), omega arith) (omega arith))
  Holds-composite_start eight_bytes tag ptr h =
      Holds-if (data_size tag == 0) _ _ (λ e. Holds-fail incompatible_element)
        (λ e. Holds-pure ptr (omega (arith, h), ground (arith, e), omega arith) (omega arith))
  Holds-composite_start pointer tag ptr h =
      Holds-if (ptr_count tag == 0) _ _ (λ e. Holds-fail incompatible_element)
        (λ e. Holds-pure _ (refl, omega arith, ground (arith, e)) (omega arith))
  Holds-composite_start inline_composite tag ptr h =
      Holds-pure ptr (omega (arith, h), omega arith, omega arith) (omega arith)

module _ {Cap : Type 0} {table : RawSegments} (Q : Fault → Type 0) (mem : Memory)
    (mapped : Mapped table) where
  pub Holds-composite_target :
      (expected : ElementSize) (nesting_limit : ℕ) (f : Followed)
      → (nesting_limit == 0) ≡ false
      → element_count (pointer_at mem f.reff) < 2 ^ 29
      → word_size (pointer_at mem f.ptr) < 131072
      → Located table f
      → Holds table Q {Cap = Cap} 0
          (IsList table expected nesting_limit)
          list_words
          (composite_target mem expected nesting_limit f)
  unfolding composite_target
  Holds-composite_target expected nesting_limit f z small tag_small l =
      let word_count = element_count (pointer_at mem f.reff) in
      let tag = pointer_at mem f.ptr in
      let (k, e) = kind_lem tag in
      let first = offset f.ptr 1 in
      let words = word_size tag in
      let count = inline_composite_list_element_count tag in
      let nested : nesting_limit - 1 + 1 ≡ nesting_limit = ground (arith, z) in
      let placed = InMessage-IsPlaced l.home mapped l.in_message in
      Holds-bind (bounds_check f.segment f.ptr (offset first word_count)) _
        (subst
          (λ a.
            Holds table Q {Cap = Cap} 0
              (λ _.
                (l.home.ptr ≤ f.ptr)
                × (f.ptr + 8 * (word_count + 1) ≤ l.home.ptr + 8 * l.home.size))
              (λ _. 0 + (word_count + 1)) (bounds_check f.segment f.ptr a))
          (offset-offset f.ptr word_count)
          (Holds-bounds Q mem mapped f (word_count + 1) l (omega (arith, small))))
        (λ u inside. Holds-bind (lift (kind tag)) _ (Holds-lift (kind tag) k e) (λ k' e'.
          Holds-kind k' _ _ _ _
            (Holds-if (ltb word_count (count * words)) _ _ (λ q. Holds-fail elements_overrun)
              (λ q.
                Holds-bind (if words == 0 then check_amplified f.segment count else pure tt) _
                  (Holds-amplified Q mem mapped (words == 0) f.segment l.home count l.segment_is)
                  (λ _ _.
                    Holds-bind (composite_start mem expected tag first) _
                      (Holds-composite_start Q mem mapped expected tag first (omega arith))
                      (λ start at.
                        let fit = ltb_false→le word_count (count * words) q in
                        Holds-pure _
                          (inr (record {
                            home = l.home;
                            segment_is = l.segment_is;
                            in_message = l.in_message;
                            elements =
                                each_element (is_pointer expected) l.home.ptr l.home.size start
                                  (words * 64 % 2 ^ 32) (data_size tag * 64) (ptr_count tag) count
                                  (composite_elements_or_none (is_pointer expected) l.home.ptr
                                    l.home.size f.ptr word_count (data_size tag) (ptr_count tag)
                                    count start inside.0 inside.1 placed.in_memory at.0 fit
                                    tag_small)
                                  (omega (arith, tag_small));
                            data_fits = at.1;
                            pointers_fit = at.2;
                            nested = nested;
                            step_is = omega (arith, tag_small);
                          }))
                          (composite_weight words count word_count tag_small fit)))))
            (Holds-fail non_struct_inline_composite) (Holds-fail non_struct_inline_composite)
            (Holds-fail non_struct_inline_composite)))
