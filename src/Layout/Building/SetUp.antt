-- ===== src/Layout/Building/SetUp.antt =====
-- The two ways in which `wire_helpers::allocate` sets up a pointer (src/private/layout.rs): in the place of
-- the old one, or as a far pointer to a landing pad.
use capnproto_rust.Base.{
  ℕ, ◌+◌, ◌*◌, ◌%◌, ◌^◌, ◌≤◌, ◌<◌, ◌≡◌, ◌≢◌, ◌⊎◌, inl, inr, refl, ap, ◌∙◌, false, arith,
}
use capnproto_rust.Base.Outcome.{ok}
use capnproto_rust.Arena.{SegmentBuilder, offset, get_ptr_unchecked}
use capnproto_rust.Arena.Builder.{Allocator, get_segment}
use capnproto_rust.Layout.Pointer.{
  WirePointerKind, far, kind_code, WirePointer, kind, is_null, target, set_far, set_kind_and_target,
  offset_bits, segment_id, is_double_far, far_position_in_segment,
}
use capnproto_rust.Layout.Fields.{
  Reaches, forwards, offset_bits_mod, kind_code_lt, target-set_kind_and_target, set_far_lem,
}
use capnproto_rust.Layout.Memory.{pointer_at}
use capnproto_rust.Layout.Building.{BuildState}
use capnproto_rust.Layout.Building.Written.{
  halves, lower-write_pointer, pointer_at-write_pointer, pointer_at-off,
}
use capnproto_rust.Layout.Building.Allocated.{put, far_written, pad_written}
use capnproto_rust.Layout.Building.Leads.{Leads, with_upper, kind-lower, target-lower}

is_null-filled : (p : WirePointer) → 0 < p.offset_and_kind + p.upper32bits → is_null p ≡ false
is_null-filled p h = ground arith

pub set_kind-small :
    (this addr : ℕ) (k : WirePointerKind) (p : WirePointer)
    → Reaches this addr
    → ((set_kind_and_target this k addr p).offset_and_kind < 2 ^ 32)
      × (kind_code k ≤ (set_kind_and_target this k addr p).offset_and_kind)
unfolding set_kind_and_target offset_bits
set_kind-small this addr k p r =
    let (n, e) = offset_bits_mod this addr r in
    let l = kind_code_lt k in
    let small : offset_bits this addr < 2 ^ 32 = ground arith in
    (omega (arith, e, l, small), omega arith)

module _ {A : Allocator} {Cap : Type 0} where
  -- A pointer in the place of the old one
  pub Leads-here :
      (reff segment amount ptr : ℕ) (k : WirePointerKind) (p : WirePointer) (s : BuildState A Cap)
      → p.offset_and_kind < 2 ^ 32
      → kind p ≡ ok k
      → k ≢ far
      → target reff p ≡ ptr
      → (reff + 8 ≤ ptr) ⊎ (ptr + 8 * amount ≤ reff)
      → ((u : ℕ) → (0 < amount → 0 < u + kind_code k) → 0 < p.offset_and_kind + u)
      → Leads reff segment amount k
          (record { reff = reff; segment = segment; ptr = ptr })
          (put reff p s)
  Leads-here reff segment amount ptr k p s small is_k near at off fill =
      let low : (pointer_at (put reff p s).memory reff).offset_and_kind ≡ p.offset_and_kind =
        lower-write_pointer reff p s.memory small in
      let after : (u : ℕ)
          → u < 2 ^ 32
          → pointer_at (with_upper reff u (put reff p s)).memory reff ≡ halves p.offset_and_kind u =
        λ u l.
          pointer_at-write_pointer reff
            (halves (pointer_at (put reff p s).memory reff).offset_and_kind u) (put reff p s).memory
            (omega (arith, low, small)) l
          ∙ ap (λ x. halves x u) low in
      record {
        near = near;
        lower = omega (arith, low, small);
        described =
            kind-lower (pointer_at (put reff p s).memory reff) p.offset_and_kind p.upper32bits low
            ∙ is_k;
        way = λ u t l kept.
            let q = kept.first ∙ after u l in
            inl (
              refl,
              refl,
              kind-lower (pointer_at t.memory reff) p.offset_and_kind p.upper32bits
                    (ap (λ (x : WirePointer). x.offset_and_kind) q)
                  ∙ is_k,
            );
        at = λ u t l kept.
            let q = kept.first ∙ after u l in
            target-lower reff (pointer_at t.memory reff) p
              (ap (λ (x : WirePointer). x.offset_and_kind) q)
            ∙ at;
        filled = λ u l h.
            ap is_null (after u l) ∙ is_null-filled (halves p.offset_and_kind u) (fill u h);
        from_reff = off;
        from_new = off;
      }

  far_written-pointer :
      (reff pos id : ℕ) (s : BuildState A Cap)
      → pos < 2 ^ 29
      → id < 2 ^ 32
      → pointer_at (far_written reff pos id s).memory reff ≡ set_far false pos (halves 0 id)
  unfolding set_far
  far_written-pointer reff pos id s h l =
      let p = set_far false pos (pointer_at s.memory reff) in
      let low : (pointer_at (put reff p s).memory reff).offset_and_kind ≡ pos * 8 % 2 ^ 32 + 0 + 2 =
        lower-write_pointer reff p s.memory (omega (arith, h)) in
      pointer_at-write_pointer reff
        (halves (pointer_at (put reff p s).memory reff).offset_and_kind id) (put reff p s).memory
        (omega (arith, low, h)) l
      ∙ ap (λ x. halves x id) low

  -- A far pointer, and behind it a landing pad that the object follows
  pub Leads-far :
      (reff segment amount pad pos id : ℕ) (k : WirePointerKind) (home : SegmentBuilder)
      (s : BuildState A Cap)
      → k ≢ far
      → pos < 2 ^ 29
      → id < 2 ^ 32
      → get_segment A Cap s.arena id ≡ ok home
      → get_ptr_unchecked home pos ≡ pad
      → (reff + 8 ≤ pad) ⊎ (pad + 8 * (amount + 1) ≤ reff)
      → pad + 8 < 2 ^ 64
      → Leads reff segment amount k
          (record { reff = pad; segment = id; ptr = offset pad 1 })
          (pad_written pad k (far_written reff pos id s))
  unfolding set_far
  Leads-far reff segment amount pad pos id k home s near h l g at off room =
      let s1 = far_written reff pos id s in
      let s2 = pad_written pad k s1 in
      let F = set_far false pos (halves 0 id) in
      let apart : (reff + 8 ≤ pad) ⊎ (pad + 8 ≤ reff) = elim off [
        | inl before ↦ inl before
        | inr behind ↦ inr (omega (arith, behind))
      ] in
      let (far_kind, far_pos, far_single) = set_far_lem false pos (halves 0 id) h in
      let far_id : segment_id F ≡ id = refl in
      let P = set_kind_and_target pad k (offset pad 1) (pointer_at s1.memory pad) in
      let reaches : Reaches pad (offset pad 1) = forwards 1 (omega arith) (omega (arith, room)) in
      let (small, has_kind) =
        set_kind-small pad (offset pad 1) k (pointer_at s1.memory pad) reaches in
      let (p_target, p_kind, p_upper) =
        target-set_kind_and_target pad (offset pad 1) k (pointer_at s1.memory pad)
          (omega (arith, room)) (omega arith) reaches in
      let low : (pointer_at s2.memory pad).offset_and_kind ≡ P.offset_and_kind =
        lower-write_pointer pad P s1.memory small in
      let reads : (u : ℕ) → pointer_at (with_upper pad u s2).memory reff ≡ F = λ u.
        pointer_at-off pad (halves (pointer_at s2.memory pad).offset_and_kind u) s2.memory reff
          apart
        ∙ pointer_at-off pad P s1.memory reff apart
        ∙ far_written-pointer reff pos id s h l in
      record {
        near = near;
        lower = omega (arith, low, small);
        described =
            kind-lower (pointer_at s2.memory pad) P.offset_and_kind P.upper32bits low ∙ p_kind;
        way = λ u t v kept.
            let q = kept.first ∙ reads u in
            inr (
              ap kind q ∙ far_kind,
              ap is_double_far q ∙ far_single,
              ap segment_id q ∙ far_id,
              home,
              ap (λ x. get_segment A Cap x id) kept.arena ∙ g,
              ap (λ x. get_ptr_unchecked home (far_position_in_segment x)) q
                  ∙ ap (get_ptr_unchecked home) far_pos
                  ∙ at,
            );
        at = λ u t v kept.
            target-lower pad (pointer_at t.memory pad) P (
              ap (λ (x : WirePointer). x.offset_and_kind) kept.second
              ∙ lower-write_pointer pad (halves (pointer_at s2.memory pad).offset_and_kind u)
                  s2.memory (omega (arith, low, small))
              ∙ low)
            ∙ p_target;
        filled = λ u v f. ap is_null (reads u) ∙ is_null-filled F (omega arith);
        from_reff = elim off [
          | inl before ↦ inl (omega (arith, before, room))
          | inr behind ↦ inr (omega (arith, behind, room))
        ];
        from_new = inl (omega (arith, room));
      }
