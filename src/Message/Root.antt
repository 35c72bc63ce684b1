-- ===== src/Message/Root.antt =====
-- The root pointer of a message that is being built (src/message.rs, `Builder::get_root_internal`).
use capnproto_rust.Base.{
  ℕ, ltb, ◌-◌, ◌+◌, ◌≤◌, ◌≡◌, refl, sym, ap, ◌∙◌, true, false, none, some, ◌==◌, arith, Bool-cases,
  inl, inr, ==→eq, eq→==, subst, List, [],
}
use capnproto_rust.Base.Outcome.{ok, fault, panicked}
use capnproto_rust.Arena.{
  new_segment, SegmentBuilder, SegmentReader, HasUsed, current_size, allocate_in, get_ptr_unchecked,
}
use capnproto_rust.Arena.Segment.{current_size-HasUsed, allocate_in-fits}
use capnproto_rust.Arena.Builder.{Allocator, BuilderArena, new_arena}
use capnproto_rust.Message.{
  get_root_internal, scratch, ScratchSpaceHeapAllocator, scratch_allocate_segment,
}

first_address :
    (s : SegmentBuilder) (used : ℕ) → HasUsed s used → get_ptr_unchecked s 0 ≡ s.reader.ptr
first_address s used h = omega (arith, h.placed.in_memory)

module _ (A : Allocator) (Cap : Type 0) (arena : BuilderArena A Cap) where
  root-again :
      (location : ℕ)
      → (current_size arena.segment0 == 0) ≡ false
      → get_ptr_unchecked arena.segment0 0 ≡ location
      → get_root_internal A Cap arena ≡ ok (location, arena)
  unfolding get_root_internal
  root-again location e l = rw (get_root_internal, e, l) refl

  root-first :
      (s : SegmentBuilder)
      → (current_size arena.segment0 == 0) ≡ true
      → allocate_in arena.segment0 1 ≡ some (arena.segment0.pos, s)
      → (arena.segment0.pos == get_ptr_unchecked s 0) ≡ true
      → get_root_internal A Cap arena ≡ ok (arena.segment0.pos, record arena { segment0 = s })
  unfolding get_root_internal
  root-first s e f g = rw (get_root_internal, e, f, g) refl

  root-full :
      (current_size arena.segment0 == 0) ≡ true
      → allocate_in arena.segment0 1 ≡ none
      → get_root_internal A Cap arena ≡ fault panicked
  unfolding get_root_internal
  root-full e f = rw (get_root_internal, e, f) refl

  root_first_lem :
      (used : ℕ)
      → (current_size arena.segment0 == 0) ≡ true
      → used ≡ 0
      → HasUsed arena.segment0 used
      → 1 ≤ arena.segment0.reader.size
      → (s : SegmentBuilder) × (get_root_internal A Cap arena
          ≡ ok (arena.segment0.reader.ptr, record arena { segment0 = s }))
        × HasUsed s 1
        × (s.reader ≡ arena.segment0.reader)
  root_first_lem used e u h room =
      let (s, a, h', r, d) = allocate_in-fits arena.segment0 used 1 h (omega (arith, u, room)) in
      let p : arena.segment0.pos ≡ arena.segment0.reader.ptr = omega (arith, h.position, u) in
      let q : get_ptr_unchecked s 0 ≡ arena.segment0.reader.ptr =
        first_address s (used + 1) h' ∙ ap (λ (x : SegmentReader). x.ptr) r in
      (
        s,
        root-first s e a (eq→== arena.segment0.pos (get_ptr_unchecked s 0) (p ∙ sym q))
            ∙ ap (λ k. ok (k, record arena { segment0 = s })) p,
        subst (HasUsed s) (omega (arith, u)) h',
        r,
      )

module _ (A : Allocator) (Cap : Type 0) where
  -- The root pointer of a message whose first segment has room for a word is that segment's first
  -- word. Asking again gives the same place and changes nothing.
  pub get_root_internal_lem :
      (arena : BuilderArena A Cap) (used : ℕ)
      → HasUsed arena.segment0 used
      → 1 ≤ arena.segment0.reader.size
      → (arena' : BuilderArena A Cap) × (get_root_internal A Cap arena
          ≡ ok (arena.segment0.reader.ptr, arena'))
        × (get_root_internal A Cap arena' ≡ ok (arena.segment0.reader.ptr, arena'))
  get_root_internal_lem arena used h room = elim (Bool-cases (current_size arena.segment0 == 0)) [
    | inl e ↦
        let u : used ≡ 0 =
          sym (current_size-HasUsed arena.segment0 used h)
          ∙ ==→eq (current_size arena.segment0) 0 e in
        let (s, g, h', r) = root_first_lem A Cap arena used e u h room in
        let z : (current_size s == 0) ≡ false = ground (arith, current_size-HasUsed s 1 h') in
        (
          record arena { segment0 = s },
          g,
          root-again A Cap (record arena { segment0 = s }) arena.segment0.reader.ptr z
              (first_address s 1 h' ∙ ap (λ (x : SegmentReader). x.ptr) r),
        )
    | inr e ↦
        let g =
          root-again A Cap arena arena.segment0.reader.ptr e
            (first_address arena.segment0 used h) in
        (arena, g, g)
  ]

empty_segment-current_size : (ptr : ℕ) → (current_size (new_segment 0 ptr 0) == 0) ≡ true
unfolding current_size
empty_segment-current_size ptr = ground arith

empty_segment-allocate_in : (ptr : ℕ) → allocate_in (new_segment 0 ptr 0) 1 ≡ none
unfolding allocate_in
empty_segment-allocate_in ptr =
    let e : ltb (0 - current_size (new_segment 0 ptr 0)) 1 ≡ true = ground arith in rw e refl

module _ (Cap : Type 0) where
  scratch_segment0 :
      (malloc : List (ℕ × ℕ) → ℕ → ℕ) (a : ScratchSpaceHeapAllocator)
      → a.scratch_space.in_use ≡ false
      → a.scratch_space.words ≡ []
      → (new_arena (scratch malloc) Cap a).segment0 ≡ new_segment 0 a.scratch_space.ptr 0
  unfolding new_arena scratch_allocate_segment
  scratch_segment0 malloc a free empty = rw (scratch_allocate_segment, free, empty) refl

  -- A message whose scratch space is empty has no root: the scratch space does not look at the size
  -- that is asked of it.
  pub get_root_internal-empty_scratch :
      (malloc : List (ℕ × ℕ) → ℕ → ℕ) (a : ScratchSpaceHeapAllocator)
      → a.scratch_space.in_use ≡ false
      → a.scratch_space.words ≡ []
      → get_root_internal (scratch malloc) Cap (new_arena (scratch malloc) Cap a) ≡ fault panicked
  get_root_internal-empty_scratch malloc a free empty =
      let arena = new_arena (scratch malloc) Cap a in
      let e = scratch_segment0 malloc a free empty in
      root-full (scratch malloc) Cap arena
        (ap (λ s. current_size s == 0) e ∙ empty_segment-current_size a.scratch_space.ptr)
        (ap (λ s. allocate_in s 1) e ∙ empty_segment-allocate_in a.scratch_space.ptr)
