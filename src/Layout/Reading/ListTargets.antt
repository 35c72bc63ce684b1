-- ===== src/Layout/Reading/ListTargets.antt =====
-- What a list that was read keeps to, and lists of numbers and pointers (src/private/layout.rs, the
-- other branch of `read_list_pointer`).
use capnproto_rust.Base.{
  ◌⊎◌, inr, ℕ, ◌+◌, ◌-◌, ◌*◌, ◌/◌, ◌^◌, ◌≤◌, ◌<◌, ◌≡◌, ◌≢◌, sym, subst, Bool, true, false, Option,
  some, ◌==◌, ltb, ◌||◌, if◌then◌else◌, arith,
}
use capnproto_rust.Base.Outcome.{Fault}
use capnproto_rust.Arena.{SegmentReader, offset}
use capnproto_rust.Arena.Reader.{RawSegments}
use capnproto_rust.Layout.Pointer.{ElementSize, pointer, inline_composite, element_count}
use capnproto_rust.Layout.Memory.{Memory, pointer_at, pure, fail, bounds_check, check_amplified}
use capnproto_rust.Layout.Contract.{
  InMessage, Holds, Holds-pure, Holds-fail, Holds-bind, Holds-mono, Holds-if,
}
use capnproto_rust.Layout.Contract.Checks.{
  Mapped, InMessage-IsPlaced, Inside, Holds-bounds_check, Holds-check_amplified,
}
use capnproto_rust.Layout.Reading.{ListReader, default_list, Followed}
use capnproto_rust.Layout.Reading.Safety.{Located, words_paid}
use capnproto_rust.Layout.Pointer.{
  data_bits_per_element, pointers_per_element, round_bits_up_to_words,
}
use capnproto_rust.Layout.Reading.{plain_target, is_void}
use capnproto_rust.Base.Outcome.{incompatible_element}
use capnproto_rust.Layout.Reading.ListBounds.{
  bits_rounded, step_small, step_void, mul_small, le_add, plain_weight, each_element, fits_expected,
}

abbrev pub is_pointer : ElementSize → Bool
is_pointer pointer = true
is_pointer _ = false

-- Each element lies in a segment of the message, in bits, and has the data and the pointers that are
-- expected of it. Where pointers are expected, `ptr` is the first pointer of the first element, and the
-- pointers of each element lie in the segment.
pub record ListInside (table : RawSegments) (expected : ElementSize) (nesting_limit : ℕ)
    (r : ListReader) : Type 0 where
  pub home : SegmentReader
  pub segment_is : r.segment ≡ some home
  pub in_message : InMessage table home
  pub elements :
      (i : ℕ)
      → i < r.element_count
      → (home.ptr ≤ r.ptr)
        × (8 * r.ptr
              + i * r.step
              + (if is_pointer expected then 64 * r.struct_pointer_count else r.step)
            ≤ 8 * (home.ptr + 8 * home.size))
  pub data_fits : data_bits_per_element expected ≤ r.struct_data_size
  pub pointers_fit : pointers_per_element expected ≤ r.struct_pointer_count
  pub nested : r.nesting_limit + 1 ≡ nesting_limit
  pub step_is : r.step ≡ r.struct_data_size + 64 * r.struct_pointer_count

abbrev pub IsList : RawSegments → ElementSize → ℕ → ListReader → Type 0
IsList table expected nesting_limit r =
    (r ≡ default_list) ⊎ ListInside table expected nesting_limit r

-- What a list costs: the whole words of its elements, or a word for each element that has no size.
abbrev pub list_words : ListReader → ℕ
list_words r = if r.step == 0 then r.element_count else r.element_count * r.step / 64

module _ {Cap : Type 0} {table : RawSegments} (Q : Fault → Type 0) (mem : Memory)
    (mapped : Mapped table) where
  -- A check of a list whose elements have no size pays a word for each.
  pub Holds-amplified :
      {c : ℕ} (b : Bool) (o : Option SegmentReader) (home : SegmentReader) (amount : ℕ)
      → o ≡ some home
      → Holds table Q {Cap = Cap} c
          (λ _. Unit {0})
          (λ _. c + (if b then amount else 0))
          (if b then check_amplified o amount else pure tt)
  Holds-amplified {c = c} true o home amount e =
      subst
        (λ x.
          Holds table Q {Cap = Cap} c (λ _. Unit {0}) (λ _. c + amount) (check_amplified x amount))
        (sym e) (Holds-check_amplified home amount)
  Holds-amplified false o home amount e = Holds-pure tt tt (omega arith)

  pub Holds-bounds :
      {c : ℕ} (f : Followed) (n : ℕ) (l : Located table f)
      → n < 2 ^ 61
      → Holds table Q {Cap = Cap} c
          (λ _. (l.home.ptr ≤ f.ptr) × (f.ptr + 8 * n ≤ l.home.ptr + 8 * l.home.size))
          (λ _. c + n)
          (bounds_check f.segment f.ptr (offset f.ptr n))
  Holds-bounds {c = c} f n l small =
      Holds-mono (bounds_check f.segment f.ptr (offset f.ptr n))
        (subst
          (λ o.
            Holds table Q {Cap = Cap} c (λ _. Inside l.home f.ptr (offset f.ptr n))
              (λ _. c + (offset f.ptr n - f.ptr) / 8) (bounds_check o f.ptr (offset f.ptr n)))
          (sym l.segment_is)
          (Holds-bounds_check l.home f.ptr (offset f.ptr n)
            (InMessage-IsPlaced l.home mapped l.in_message)))
        (λ u inside.
          let (paid, starts, ends) = words_paid l.home f.ptr n l.address small inside in
          ((starts, ends), omega (arith, paid)))

module _ {Cap : Type 0} {table : RawSegments} (Q : Fault → Type 0) (mem : Memory)
    (mapped : Mapped table) where
  pub Holds-plain_target :
      (size expected : ElementSize) (nesting_limit : ℕ) (f : Followed)
      → size ≢ inline_composite
      → (nesting_limit == 0) ≡ false
      → element_count (pointer_at mem f.reff) < 2 ^ 29
      → Located table f
      → Holds table Q {Cap = Cap} 0
          (IsList table expected nesting_limit)
          list_words
          (plain_target mem size expected nesting_limit f)
  unfolding plain_target
  Holds-plain_target size expected nesting_limit f plain z small l =
      let count = element_count (pointer_at mem f.reff) in
      let step = data_bits_per_element size + pointers_per_element size * 64 in
      let (n_small, covered) =
        bits_rounded (count * step) (mul_small count step small (step_small size)) in
      let n = round_bits_up_to_words (count * step) in
      let nested : nesting_limit - 1 + 1 ≡ nesting_limit = ground (arith, z) in
      let fitting =
        fits_expected (data_bits_per_element size) (pointers_per_element size)
          (data_bits_per_element expected) (pointers_per_element expected) in
      let reader : ListReader = record {
        segment = f.segment;
        ptr = f.ptr;
        element_count = count;
        step = step;
        struct_data_size = data_bits_per_element size;
        struct_pointer_count = pointers_per_element size;
        nesting_limit = nesting_limit - 1;
      } in
      Holds-bind (bounds_check f.segment f.ptr (offset f.ptr n)) _
        (Holds-bounds Q mem mapped f n l n_small)
        (λ u inside.
          Holds-bind (if is_void size then check_amplified f.segment count else pure tt) _
            (Holds-amplified Q mem mapped (is_void size) f.segment l.home count l.segment_is)
            (λ u' t.
              Holds-if
                (ltb (data_bits_per_element size) (data_bits_per_element expected)
                  || ltb (pointers_per_element size) (pointers_per_element expected))
                (fail incompatible_element) (pure reader) (λ e. Holds-fail incompatible_element)
                (λ e.
                  Holds-pure reader
                    (inr (record {
                      home = l.home;
                      segment_is = l.segment_is;
                      in_message = l.in_message;
                      elements =
                          each_element (is_pointer expected) l.home.ptr l.home.size f.ptr step
                            (data_bits_per_element size) (pointers_per_element size) count
                            (inr (
                              inside.0,
                              le_add (8 * f.ptr + count * step) (8 * (l.home.ptr + 8 * l.home.size))
                                  (if is_pointer expected then data_bits_per_element size else 0)
                                  (omega (arith, inside.1, covered)),
                            ))
                            (omega arith);
                      data_fits = (fitting e).0;
                      pointers_fit = (fitting e).1;
                      nested = nested;
                      step_is = omega arith;
                    }))
                    (subst
                      (λ b.
                        (if step == 0 then count else count * step / 64)
                        ≤ 0 + n + (if b then count else 0))
                      (sym (step_void size plain))
                      (plain_weight (step == 0) count (count * step) n covered)))))
