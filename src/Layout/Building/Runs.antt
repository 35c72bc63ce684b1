-- ===== src/Layout/Building/Runs.antt =====
-- Steps of the building functions (src/private/layout.rs) as equations: a run that succeeds is followed
-- by what comes after it.
use capnproto_rust.Base.{ℕ, ◌≡◌, ◌≢◌, refl, ap, ◌∙◌, false, none, some}
use capnproto_rust.Base.Outcome.{Outcome, ok}
use capnproto_rust.Arena.{SegmentBuilder, allocate_in, get_ptr_unchecked}
use capnproto_rust.Arena.Builder.{Allocator, BuilderArena, get_segment, allocate}
use capnproto_rust.Layout.Pointer.{
  WirePointerKind, struct, list, far, other, WirePointer, kind, target, segment_id,
  far_position_in_segment, is_double_far,
}
use capnproto_rust.Layout.Memory.{pointer_at}
use capnproto_rust.Layout.Building.{
  BuildState, Build, ◌≫=◌, try_change_pointer, segment_at, take_words, arena_get_segment,
  segment_allocate, arena_allocate, replace_segment, write_pointer,
}
use capnproto_rust.Layout.Building.Objects.{
  follow_builder_fars, follow_builder_far, follow_builder_pad,
}

module _ {A : Allocator} {Cap : Type 0} where
  -- What follows a run that has returned `t`
  pub after :
      {T U : Type 0} (m : Build A Cap T) (f : T → Build A Cap U) (s s' : BuildState A Cap) (t : T)
      → m s ≡ (ok t, s')
      → (m ≫= f) s ≡ f t s'
  unfolding ◌≫=◌
  after m f s s' t e = rw (◌≫=◌, e) refl

  -- A chain whose parts succeed
  pub chain :
      {T U : Type 0} (m : Build A Cap T) (f : T → Build A Cap U) (s s' s'' : BuildState A Cap)
      (t : T) (u : U)
      → m s ≡ (ok t, s')
      → f t s' ≡ (ok u, s'')
      → (m ≫= f) s ≡ (ok u, s'')
  chain m f s s' s'' t u e e' = after m f s s' t e ∙ e'

  pub segment_at-ok :
      (id : ℕ) (segment : SegmentBuilder) (s : BuildState A Cap)
      → get_segment A Cap s.arena id ≡ ok segment
      → segment_at id s ≡ (ok segment, s)
  unfolding segment_at
  segment_at-ok id segment s e = rw (segment_at, e) refl

  pub arena_get_segment-ok :
      (id : ℕ) (segment : SegmentBuilder) (s : BuildState A Cap)
      → get_segment A Cap s.arena id ≡ ok segment
      → arena_get_segment id s ≡ (ok segment, s)
  arena_get_segment-ok id segment s e = rw e refl

  pub segment_allocate-some :
      (id amount ptr : ℕ) (segment segment' : SegmentBuilder) (s : BuildState A Cap)
      → get_segment A Cap s.arena id ≡ ok segment
      → allocate_in segment amount ≡ some (ptr, segment')
      → segment_allocate id amount s
        ≡ (ok (some ptr), record s { arena = replace_segment s.arena id segment' })
  unfolding segment_allocate take_words
  segment_allocate-some id amount ptr segment segment' s e e' =
      chain (segment_at id) (take_words id amount) s s _ segment (some ptr)
        (segment_at-ok id segment s e) (rw (take_words, e') refl)

  pub segment_allocate-none :
      (id amount : ℕ) (segment : SegmentBuilder) (s : BuildState A Cap)
      → get_segment A Cap s.arena id ≡ ok segment
      → allocate_in segment amount ≡ none
      → segment_allocate id amount s ≡ (ok none, s)
  unfolding segment_allocate take_words
  segment_allocate-none id amount segment s e e' =
      chain (segment_at id) (take_words id amount) s s s segment none (segment_at-ok id segment s e)
        (rw (take_words, e') refl)

  pub arena_allocate-ok :
      (amount : ℕ) (granted : ℕ × ℕ) (arena : BuilderArena A Cap) (s : BuildState A Cap)
      → allocate A Cap s.arena amount ≡ ok (granted, arena)
      → arena_allocate amount s ≡ (ok granted, record s { arena = arena })
  unfolding arena_allocate
  arena_allocate-ok amount granted arena s e = rw (arena_allocate, e) refl

  pub try_change_pointer-ok :
      (reff : ℕ) (f : WirePointer → Outcome WirePointer) (q : WirePointer) (s : BuildState A Cap)
      → f (pointer_at s.memory reff) ≡ ok q
      → try_change_pointer reff f s ≡ (ok tt, record s { memory = write_pointer reff q s.memory })
  unfolding try_change_pointer ◌≫=◌
  try_change_pointer-ok reff f q s e = rw (try_change_pointer, e) refl

  -- A pointer that is not far is where its object is described.
  pub follow-near :
      (reff t segment : ℕ) (s : BuildState A Cap) (k : WirePointerKind)
      → kind (pointer_at s.memory reff) ≡ ok k
      → k ≢ far
      → follow_builder_fars reff t segment s
        ≡ (ok (record { reff = reff; segment = segment; ptr = t }), s)
  unfolding follow_builder_fars ◌≫=◌
  follow-near reff t segment s struct e n = rw (follow_builder_fars, e) refl
  follow-near reff t segment s list e n = rw (follow_builder_fars, e) refl
  follow-near reff t segment s far e n = absurd (n refl)
  follow-near reff t segment s other e n = rw (follow_builder_fars, e) refl

  -- A single far pointer leads to a landing pad.
  pub follow-far :
      (reff t segment pad : ℕ) (s : BuildState A Cap) (p : WirePointer) (home : SegmentBuilder)
      → pointer_at s.memory reff ≡ p
      → kind p ≡ ok far
      → is_double_far p ≡ false
      → get_segment A Cap s.arena (segment_id p) ≡ ok home
      → get_ptr_unchecked home (far_position_in_segment p) ≡ pad
      → follow_builder_fars reff t segment s ≡ (
        ok (record {
          reff = pad;
          segment = segment_id p;
          ptr = target pad (pointer_at s.memory pad);
        }),
        s,
      )
  unfolding follow_builder_fars follow_builder_far follow_builder_pad ◌≫=◌
  follow-far reff t segment pad s p home e k d g q =
      let step : follow_builder_fars reff t segment s ≡ follow_builder_far p s =
        rw (follow_builder_fars, e, k) (ap (λ x. follow_builder_far x s) e) in
      step
      ∙ chain (arena_get_segment (segment_id p)) (follow_builder_pad p) s s s home _
          (arena_get_segment-ok (segment_id p) home s g)
          (rw (follow_builder_pad, d)
            (ap
              (λ x. (
                ok (record {
                  reff = x;
                  segment = segment_id p;
                  ptr = target x (pointer_at s.memory x);
                }),
                s,
              ))
              q))
