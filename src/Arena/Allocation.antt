-- ===== src/Arena/Allocation.antt =====
-- Allocation in a message that is being built (src/private/arena.rs, `BuilderArena::allocate`), over an
-- allocator that keeps its promise (src/message.rs, `Allocator`).
use capnproto_rust.Base.{
  false, ℕ, zero, suc, ◌+◌, ◌-◌, ◌%◌, ◌^◌, ◌≤◌, ◌<◌, ◌≡◌, refl, sym, ap, ◌∙◌, ◌⊎◌, inl, inr, [],
  ◌∷◌, ◌++◌, none, some, length, get_elem?, set, get_elem?-within, arith, false, subst, ◌==◌,
  Bool-cases, ==→eq,
}
use capnproto_rust.Base.Outcome.{Outcome, ok}
use capnproto_rust.Arena.{SegmentBuilder, new_segment, allocate_in, IsPlaced, HasUsed}
use capnproto_rust.Arena.Builder.{
  Allocator, BuilderArena, get_segment, allocate, allocate_more, allocate_new, new_arena,
}
use capnproto_rust.Arena.Segment.{allocate_in-fits, fits_or_full}
use capnproto_rust.Arena.Granted.{
  IsSegment, IsBuilt, Granted, Granted-IsBuilt, Granted-first, Granted-last, Granted-new,
  get_segment-more, ok_inj,
}

-- What an allocator promises while its state is `Valid`: memory of at least the size asked for.
pub record Supplies (A : Allocator) (Valid : A.State → Type 0) (size : ℕ) (a : A.State)
    : Type 0 where
  pub enough : size ≤ (A.allocate_segment size a).0.1
  pub placed :
      IsPlaced
        (record { ptr = (A.allocate_segment size a).0.0; size = (A.allocate_segment size a).0.1 })
  pub valid : Valid (A.allocate_segment size a).1

zero_or_suc : (n : ℕ) → (n ≡ 0) ⊎ ((m : ℕ) × (n ≡ suc m))
zero_or_suc zero = inl refl
zero_or_suc (suc n) = inr (n, refl)

module _ (A : Allocator) (Cap : Type 0) where
  module _ (arena : BuilderArena A Cap) (amount : ℕ) where
    allocate-first :
        (ptr : ℕ) (s' : SegmentBuilder)
        → allocate_in arena.segment0 amount ≡ some (ptr, s')
        → allocate A Cap arena amount ≡ ok ((0, ptr), record arena { segment0 = s' })
    unfolding allocate
    allocate-first ptr s' e = rw (allocate, e) refl

    allocate-more :
        allocate_in arena.segment0 amount ≡ none
        → allocate A Cap arena amount ≡ allocate_more A Cap arena amount
    unfolding allocate
    allocate-more e = rw (allocate, e) refl

    allocate_new-some :
        (n ptr : ℕ) (s' : SegmentBuilder)
        → allocate_in
            (new_segment
              (n % 2 ^ 32)
              (A.allocate_segment amount arena.allocator).0.0
              (A.allocate_segment amount arena.allocator).0.1)
            amount
          ≡ some (ptr, s')
        → allocate_new A Cap arena n amount
          ≡ ok (
            (n, ptr),
            record arena {
              allocator = (A.allocate_segment amount arena.allocator).1;
              more_segments = arena.more_segments ++ (s' ∷ []);
            },
          )
    unfolding allocate_new
    allocate_new-some n ptr s' e = rw (allocate_new, e) refl

    allocate_more-some :
        (n ptr : ℕ) (last s' : SegmentBuilder)
        → length arena.more_segments ≡ suc n
        → get_elem? arena.more_segments n ≡ some last
        → allocate_in last amount ≡ some (ptr, s')
        → allocate_more A Cap arena amount
          ≡ ok ((suc n, ptr), record arena { more_segments = set arena.more_segments n s' })
    unfolding allocate_more
    allocate_more-some n ptr last s' l g e =
        let z : (length arena.more_segments == 0) ≡ false = ground (arith, l) in
        let d : length arena.more_segments - 1 ≡ n = omega (arith, l) in
        let q : suc n - 1 ≡ n = omega arith in rw (allocate_more, z, d, g, e, l, q) refl

    allocate_more-full :
        (n : ℕ) (last : SegmentBuilder)
        → length arena.more_segments ≡ suc n
        → get_elem? arena.more_segments n ≡ some last
        → allocate_in last amount ≡ none
        → allocate_more A Cap arena amount
          ≡ allocate_new A Cap arena (suc (length arena.more_segments)) amount
    unfolding allocate_more
    allocate_more-full n last l g e =
        let z : (length arena.more_segments == 0) ≡ false = ground (arith, l) in
        let d : length arena.more_segments - 1 ≡ n = omega (arith, l) in
        let q : length arena.more_segments + 1 ≡ suc (length arena.more_segments) = omega arith in
        rw (allocate_more, z, d, g, e) (ap (λ k. allocate_new A Cap arena k amount) q)

    allocate_more-empty :
        length arena.more_segments ≡ 0
        → allocate_more A Cap arena amount
          ≡ allocate_new A Cap arena (suc (length arena.more_segments)) amount
    unfolding allocate_more
    allocate_more-empty l = rw (allocate_more, l) refl

    -- The run `m` grants `amount` words and leaves the allocator valid.
    abbrev pub Grants : (A.State → Type 0) → Outcome ((ℕ × ℕ) × BuilderArena A Cap) → Type 0
    Grants Valid m =
        (id ptr : ℕ) × (arena' : BuilderArena A Cap) × (m ≡ ok ((id, ptr), arena'))
        × Valid arena'.allocator
        × Granted A Cap arena amount id ptr arena'

    module _ (Valid : A.State → Type 0) where
      Grants-new :
          Supplies A Valid amount arena.allocator
          → length arena.more_segments + 1 < 2 ^ 32
          → Grants Valid (allocate_new A Cap arena (suc (length arena.more_segments)) amount)
      unfolding allocate_new
      Grants-new supplies small =
          let n = suc (length arena.more_segments) in
          let ((words, size), a') = A.allocate_segment amount arena.allocator in
          let new = new_segment (n % 2 ^ 32) words size in
          let h : HasUsed new 0 = record {
            placed = supplies.placed;
            position = omega arith;
            fits = omega arith;
          } in
          let (s', e, h', r, d) =
            allocate_in-fits new 0 amount h (omega (arith, supplies.enough)) in
          (
            n,
            words,
            record arena { allocator = a'; more_segments = arena.more_segments ++ (s' ∷ []) },
            allocate_new-some n words s' e,
            supplies.valid,
            Granted-new A Cap arena amount a' s' supplies.placed h' r (omega (arith, d, small)),
          )

      Grants-more :
          IsBuilt A Cap arena
          → Supplies A Valid amount arena.allocator
          → Valid arena.allocator
          → length arena.more_segments + 1 < 2 ^ 32
          → Grants Valid (allocate_more A Cap arena amount)
      Grants-more b supplies v small = elim (zero_or_suc (length arena.more_segments)) [
        | inl l ↦ subst (Grants Valid) (sym (allocate_more-empty l)) (Grants-new supplies small)
        | inr (n, l) ↦
            let within : n < length arena.more_segments = omega (arith, l) in
            let (last, g) = get_elem?-within arena.more_segments n within in
            let i = b (suc n) last (get_segment-more A Cap arena n last g) in
            elim (fits_or_full last i.used amount i.has_used) [
              | inl (s', e, h', r, d) ↦ (
                suc n,
                last.pos,
                record arena { more_segments = set arena.more_segments n s' },
                allocate_more-some n last.pos last s' l g e,
                v,
                Granted-last A Cap arena amount n i.used last s' within g i.named i.has_used h' r d,
              )
              | inr full ↦
                  subst (Grants Valid) (sym (allocate_more-full n last l g full))
                    (Grants-new supplies small)
            ]
      ]

      -- In a message all of whose segments are valid, with an allocator that keeps its promise for this
      -- size, `allocate` never panics. It grants words that were not in use and leaves every segment
      -- valid, as long as fewer than 2 ^ 32 - 1 further segments exist.
      pub allocate_lem :
          IsBuilt A Cap arena
          → Supplies A Valid amount arena.allocator
          → Valid arena.allocator
          → length arena.more_segments + 1 < 2 ^ 32
          → (id ptr : ℕ) × (arena' : BuilderArena A Cap) × (allocate A Cap arena amount
              ≡ ok ((id, ptr), arena'))
            × Valid arena'.allocator
            × IsBuilt A Cap arena'
            × Granted A Cap arena amount id ptr arena'
      unfolding get_segment
      allocate_lem b supplies v small =
          let i = b 0 arena.segment0 refl in
          elim (fits_or_full arena.segment0 i.used amount i.has_used) [
            | inl (s', e, h', r, d) ↦
                let arena' = record arena { segment0 = s' } in
                let g = Granted-first A Cap arena amount s' i.used i.named i.has_used h' r d in
                (
                  0,
                  arena.segment0.pos,
                  arena',
                  allocate-first arena.segment0.pos s' e,
                  v,
                  Granted-IsBuilt A Cap arena amount 0 arena.segment0.pos arena' b g,
                  g,
                )
            | inr full ↦
                let (id, ptr, arena', e, v', g) = Grants-more b supplies v small in
                (
                  id,
                  ptr,
                  arena',
                  allocate-more full ∙ e,
                  v',
                  Granted-IsBuilt A Cap arena amount id ptr arena' b g,
                  g,
                )
          ]

  new_arena-segment :
      (a : A.State) (j : ℕ) (s : SegmentBuilder)
      → get_segment A Cap (new_arena A Cap a) j ≡ ok s
      → (j ≡ 0) × (new_segment 0 (A.allocate_segment 2 a).0.0 (A.allocate_segment 2 a).0.1 ≡ s)
  unfolding new_arena get_segment
  new_arena-segment a j s = elim (Bool-cases (j == 0)) [
    | inl z ↦ rw z (λ e. (==→eq j 0 z, ok_inj e))
    | inr z ↦ rw z (λ e. absurd cc)
  ]

  -- A new message over an allocator that keeps its promise has one segment: the memory that the
  -- allocator gave for 2 words, of which no word is in use. All its segments are valid, and so is the
  -- allocator.
  pub new_arena-IsBuilt :
      (Valid : A.State → Type 0) (a : A.State)
      → Supplies A Valid 2 a
      → let (memory, a') = A.allocate_segment 2 a in
        let arena = new_arena A Cap a in
        Valid arena.allocator
        × IsBuilt A Cap arena
        × (arena.allocator ≡ a')
        × (arena.more_segments ≡ [])
        × (arena.segment0.reader ≡ record { ptr = memory.0; size = memory.1 })
        × HasUsed arena.segment0 0
        × (2 ≤ arena.segment0.reader.size)
  unfolding new_arena
  new_arena-IsBuilt Valid a supplies = (
    supplies.valid,
    λ j s e.
        let (z, t) = new_arena-segment a j s e in
        subst (IsSegment j) t (record {
          named = sym z;
          used = 0;
          has_used = record {
            placed = supplies.placed;
            position = omega arith;
            fits = omega arith;
          };
        }),
    refl,
    refl,
    refl,
    record { placed = supplies.placed; position = omega arith; fits = omega arith },
    supplies.enough,
  )
