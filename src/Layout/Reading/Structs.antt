-- ===== src/Layout/Reading/Structs.antt =====
-- `read_struct_pointer` (src/private/layout.rs) on any bytes.
use capnproto_rust.Base.{
  ℕ, ◌+◌, ◌-◌, ◌*◌, ◌/◌, ◌^◌, ◌≤◌, ◌<◌, ◌≡◌, ◌⊎◌, inl, inr, refl, sym, subst, false, none, some,
  ◌==◌, arith,
}
use capnproto_rust.Base.Outcome.{Fault, not_a_struct, too_deeply_nested}
use capnproto_rust.Arena.{SegmentReader, offset}
use capnproto_rust.Arena.Reader.{RawSegments}
use capnproto_rust.Layout.Pointer.{kind, is_null, target, data_size, word_size}
use capnproto_rust.Layout.Memory.{Memory, pointer_at, ReadState, lift, bounds_check}
use capnproto_rust.Layout.Contract.{
  InMessage, Ready, Post, Holds, Holds-pure, Holds-fail, Holds-bind, Holds-if, Holds-lift,
}
use capnproto_rust.Layout.Contract.Checks.{Mapped, InMessage-IsPlaced, Inside, Holds-bounds_check}
use capnproto_rust.Layout.Reading.{
  StructReader, default_struct, Followed, follow_fars, struct_target, read_struct_pointer,
}
use capnproto_rust.Layout.Reading.Safety.{
  Located, Holds-kind, Holds-follow_fars, kind_lem, target_lt, words_paid,
}

-- Both sections of the struct lie, one after the other, in a segment of the message.
pub record StructInside (table : RawSegments) (nesting_limit : ℕ) (r : StructReader) : Type 0 where
  pub home : SegmentReader
  pub segment_is : r.segment ≡ some home
  pub in_message : InMessage table home
  pub starts : home.ptr ≤ r.data_section
  pub pointers_after : r.pointers ≡ r.data_section + r.data_size / 8
  pub ends : r.pointers + 8 * r.pointer_count ≤ home.ptr + 8 * home.size
  pub nested : r.nesting_limit + 1 ≡ nesting_limit

-- Null pointers give the default struct, which has no sections.
abbrev pub IsStruct : RawSegments → ℕ → StructReader → Type 0
IsStruct table nesting_limit r = (r ≡ default_struct) ⊎ StructInside table nesting_limit r

-- The words of a struct
abbrev pub struct_words : StructReader → ℕ
struct_words r = r.data_size / 64 + r.pointer_count

pointers_offset : (ptr ds n : ℕ) → ds ≤ n → ptr + 8 * n < 2 ^ 64 → offset ptr ds ≡ ptr + 8 * ds
pointers_offset ptr ds n h l = omega (arith, h, l)

module _ {Cap : Type 0} {table : RawSegments} (Q : Fault → Type 0) (mem : Memory)
    (mapped : Mapped table) where
  -- Under the hypothesis that halves of pointers are 32 bits wide.
  Holds-struct_target :
      (nesting_limit : ℕ) (f : Followed)
      → (nesting_limit == 0) ≡ false
      → word_size (pointer_at mem f.reff) < 2 ^ 61
      → Located table f
      → Holds table Q {Cap = Cap} 0
          (IsStruct table nesting_limit)
          struct_words
          (struct_target mem nesting_limit f)
  unfolding struct_target
  Holds-struct_target nesting_limit f z small l =
      let p = pointer_at mem f.reff in
      let (k, e) = kind_lem p in
      let end = offset f.ptr (word_size p) in
      let placed = InMessage-IsPlaced l.home mapped l.in_message in
      Holds-bind (lift (kind p)) _ (Holds-lift (kind p) k e) (λ k' e'.
        Holds-kind k' _ _ _ _
          (Holds-bind (bounds_check f.segment f.ptr end) _
            (subst
              (λ o.
                Holds table Q {Cap = Cap} 0 (λ _. Inside l.home f.ptr end)
                  (λ _. 0 + (end - f.ptr) / 8) (bounds_check o f.ptr end))
              (sym l.segment_is) (Holds-bounds_check l.home f.ptr end placed))
            (λ u inside.
              let (paid, starts, ends) =
                words_paid l.home f.ptr (word_size p) l.address small inside in
              let o =
                pointers_offset f.ptr (data_size p) (word_size p) (omega arith)
                  (omega (arith, ends, placed.in_memory)) in
              Holds-pure _
                (inr (record {
                  home = l.home;
                  segment_is = l.segment_is;
                  in_message = l.in_message;
                  starts = starts;
                  pointers_after = omega (arith, o);
                  ends = omega (arith, o, ends);
                  nested = ground (arith, z);
                }))
                (omega (arith, paid))))
          (Holds-fail not_a_struct) (Holds-fail not_a_struct) (Holds-fail not_a_struct))

word_size_u32 :
    (mem : Memory) (a : ℕ) → ((b : ℕ) → mem b < 256) → word_size (pointer_at mem a) < 2 ^ 61
unfolding pointer_at
word_size_u32 mem a bytes =
    omega (arith, bytes (a + 4), bytes (a + 5), bytes (a + 6), bytes (a + 7))

-- Reading a struct without a default value, from any memory and at any place in it, with a segment of a
-- message whose segments lie in memory: it never panics. A struct that it gives is the default, or
-- lies in a segment of the message, one level further down. Its words are taken off the limit.
pub read_struct_pointer_lem :
    {Cap : Type 0} (table : RawSegments) (mem : Memory) (segment : SegmentReader)
    (reff nesting_limit : ℕ) (s : ReadState Cap)
    → Mapped table
    → ((a : ℕ) → mem a < 256)
    → InMessage table segment
    → Ready table s
    → Post table
        (λ _. ⊥)
        0
        (IsStruct table nesting_limit)
        struct_words
        s
        (read_struct_pointer mem (some segment) reff none nesting_limit s)
unfolding read_struct_pointer
read_struct_pointer_lem table mem segment reff nesting_limit s mapped bytes i r =
    let p = pointer_at mem reff in
    (Holds-if (is_null p) _ _ (λ e. Holds-pure _ (inl refl) (omega arith))
        (λ e.
          Holds-if (nesting_limit == 0) _ _ (λ z. Holds-fail too_deeply_nested)
            (λ z.
              Holds-bind (follow_fars mem reff (target reff p) (some segment)) _
                (Holds-follow_fars mem mapped reff (target reff p) segment i (target_lt reff p))
                (λ f l.
                  Holds-struct_target (λ _. ⊥) mem mapped nesting_limit f z
                    (word_size_u32 mem f.reff bytes) l)))).run
      s r
