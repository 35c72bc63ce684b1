-- ===== src/Layout/Reading/Safety.antt =====
-- What the readers of a message may touch (src/private/layout.rs).
use capnproto_rust.Base.{
  ℕ, ◌+◌, ◌-◌, ◌*◌, ◌/◌, ◌%◌, ◌^◌, ◌≤◌, ◌<◌, ◌≡◌, ◌⊎◌, inl, inr, refl, some, ◌==◌, if◌then◌else◌,
  arith, Bool-cases, ==→eq,
}
use capnproto_rust.Base.Outcome.{ok, Fault}
use capnproto_rust.Arena.{SegmentReader, offset}
use capnproto_rust.Arena.Reader.{RawSegments}
use capnproto_rust.Layout.Pointer.{
  WirePointerKind, struct, list, far, other, WirePointer, kind, kind_from, segment_id,
  far_position_in_segment, is_double_far, target,
}
use capnproto_rust.Layout.Memory.{Memory, pointer_at, Run, lift, arena_segment, bounds_check}
use capnproto_rust.Layout.Contract.{InMessage, Holds, Holds-pure, Holds-bind, Holds-if, Holds-lift}
use capnproto_rust.Layout.Contract.Checks.{
  Mapped, InMessage-IsPlaced, Inside, Holds-bounds_check, Holds-arena_segment,
}
use capnproto_rust.Layout.Reading.{Followed, follow_far, follow_double_far, follow_fars}

four : (n : ℕ) → (n % 256 % 4 ≡ 0) ⊎ ((n % 256 % 4 ≡ 1) ⊎ ((n % 256 % 4 ≡ 2) ⊎ (n % 256 % 4 ≡ 3)))
four n = elim (Bool-cases (n % 256 % 4 == 0)) [
  | inl e ↦ inl (==→eq (n % 256 % 4) 0 e)
  | inr a ↦ elim (Bool-cases (n % 256 % 4 == 1)) [
    | inl e ↦ inr (inl (==→eq (n % 256 % 4) 1 e))
    | inr b ↦ elim (Bool-cases (n % 256 % 4 == 2)) [
      | inl e ↦ inr (inr (inl (==→eq (n % 256 % 4) 2 e)))
      | inr c ↦ inr (inr (inr (ground (arith, a, b, c))))
    ]
  ]
]

pub kind_lem : (p : WirePointer) → (k : WirePointerKind) × (kind p ≡ ok k)
unfolding kind kind_from
kind_lem p = elim (four p.offset_and_kind) [
  | inl e ↦ rw e (struct, refl)
  | inr (inl e) ↦ rw e (list, refl)
  | inr (inr (inl e)) ↦ rw e (far, refl)
  | inr (inr (inr e)) ↦ rw e (other, refl)
]

pub target_lt : (this : ℕ) (p : WirePointer) → target this p < 2 ^ 64
unfolding target
target_lt this p = ground arith

-- The words from an address on, as a bounds check that succeeds sees them.
pub words_paid :
    (s : SegmentReader) (ptr n : ℕ)
    → ptr < 2 ^ 64
    → n < 2 ^ 61
    → Inside s ptr (offset ptr n)
    → ((offset ptr n - ptr) / 8 ≡ n) × (s.ptr ≤ ptr) × (ptr + 8 * n ≤ s.ptr + 8 * s.size)
words_paid s ptr n h l i =
    let e : offset ptr n ≡ ptr + 8 * n = omega (arith, h, l, i.ordered) in
    (omega (arith, e), i.starts, omega (arith, e, i.ends))

-- To show a contract of a run that branches on a kind.
pub Holds-kind :
    {table : RawSegments} {Q : Fault → Type 0} {Cap A : Type 0} {c : ℕ} {P : A → Type 0} {v : A → ℕ}
    (k : WirePointerKind) (m0 m1 m2 m3 : Run Cap A)
    → Holds table Q c P v m0
    → Holds table Q c P v m1
    → Holds table Q c P v m2
    → Holds table Q c P v m3
    → Holds table Q c P v (elim k [ struct ↦ m0 | list ↦ m1 | far ↦ m2 | other ↦ m3 ])
Holds-kind struct m0 m1 m2 m3 h0 h1 h2 h3 = h0
Holds-kind list m0 m1 m2 m3 h0 h1 h2 h3 = h1
Holds-kind far m0 m1 m2 m3 h0 h1 h2 h3 = h2
Holds-kind other m0 m1 m2 m3 h0 h1 h2 h3 = h3

-- Where `follow_fars` arrives: at an address, in a segment of the message.
pub record Located (table : RawSegments) (f : Followed) : Type 0 where
  pub home : SegmentReader
  pub segment_is : f.segment ≡ some home
  pub in_message : InMessage table home
  pub address : f.ptr < 2 ^ 64

module _ {Cap : Type 0} {table : RawSegments} {Q : Fault → Type 0} (mem : Memory)
    (mapped : Mapped table) where
  Holds-follow_double_far :
      {c : ℕ} (pad : ℕ)
      → Holds table Q {Cap = Cap} c (Located table) (λ _. 0) (follow_double_far mem pad)
  unfolding follow_double_far
  Holds-follow_double_far pad =
      Holds-bind (arena_segment (segment_id (pointer_at mem pad))) _
        (Holds-arena_segment (segment_id (pointer_at mem pad)))
        (λ s i.
          Holds-pure _
            (record { home = s; segment_is = refl; in_message = i; address = omega arith })
            (omega arith))

  Holds-follow_far :
      (p : WirePointer) → Holds table Q {Cap = Cap} 0 (Located table) (λ _. 0) (follow_far mem p)
  unfolding follow_far
  Holds-follow_far p =
      Holds-bind (arena_segment (segment_id p)) _ (Holds-arena_segment (segment_id p)) (λ s i.
        let ptr = offset s.ptr (far_position_in_segment p) in
        let end = offset ptr (if is_double_far p then 2 else 1) in
        Holds-bind (bounds_check (some s) ptr end) _
          (Holds-bounds_check s ptr end (InMessage-IsPlaced s mapped i))
          (λ u inside.
            Holds-if (is_double_far p) _ _ (λ e. Holds-follow_double_far ptr)
              (λ e.
                Holds-pure _
                  (record {
                    home = s;
                    segment_is = refl;
                    in_message = i;
                    address = target_lt ptr (pointer_at mem ptr);
                  })
                  (omega arith))))

  -- Far pointers of a message lead into the message.
  pub Holds-follow_fars :
      (reff ref_target : ℕ) (s : SegmentReader)
      → InMessage table s
      → ref_target < 2 ^ 64
      → Holds table Q {Cap = Cap} 0
          (Located table)
          (λ _. 0)
          (follow_fars mem reff ref_target (some s))
  unfolding follow_fars
  Holds-follow_fars reff ref_target s i l =
      let here : Located table (record { reff = reff; ptr = ref_target; segment = some s }) =
        record { home = s; segment_is = refl; in_message = i; address = l } in
      let (k, e) = kind_lem (pointer_at mem reff) in
      Holds-bind (lift (kind (pointer_at mem reff))) _ (Holds-lift (kind (pointer_at mem reff)) k e)
        (λ k' e'.
          Holds-kind k' _ _ _ _ (Holds-pure _ here (omega arith)) (Holds-pure _ here (omega arith))
            (Holds-follow_far (pointer_at mem reff)) (Holds-pure _ here (omega arith)))
