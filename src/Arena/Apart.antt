-- ===== src/Arena/Apart.antt =====
-- Where the segments of a message that is built lie in memory, and the words that `BuilderArena::allocate`
-- hands out (src/private/arena.rs).
use capnproto_rust.Base.{
  ℕ, ◌+◌, ◌*◌, ◌^◌, ◌≤◌, ◌<◌, ◌≡◌, ◌≢◌, ◌⊎◌, inl, inr, refl, sym, ap, subst, ◌∙◌, length, ◌==◌,
  arith, Bool-cases, ==→eq,
}
use capnproto_rust.Base.Outcome.{ok}
use capnproto_rust.Arena.{SegmentReader, SegmentBuilder}
use capnproto_rust.Arena.Builder.{Allocator, BuilderArena, get_segment, allocate}
use capnproto_rust.Arena.Granted.{IsBuilt, Granted, fresh, ok_inj, ==-distinct}
use capnproto_rust.Arena.Allocation.{Supplies, allocate_lem}

-- One of them ends before the other begins.
abbrev pub Apart : SegmentReader → SegmentReader → Type 0
Apart r r' = (r.ptr + 8 * r.size ≤ r'.ptr) ⊎ (r'.ptr + 8 * r'.size ≤ r.ptr)

Apart-sym : (r r' : SegmentReader) → Apart r r' → Apart r' r
Apart-sym r r' (inl h) = inr h
Apart-sym r r' (inr h) = inl h

module _ (A : Allocator) (Cap : Type 0) where
  -- No two segments overlap, and none is longer than the positions of far pointers reach.
  pub record IsLaidOut (arena : BuilderArena A Cap) : Type 0 where
    pub small :
        (j : ℕ) (s : SegmentBuilder) → get_segment A Cap arena j ≡ ok s → s.reader.size ≤ 2 ^ 29
    pub apart :
        (i j : ℕ) (s s' : SegmentBuilder)
        → i ≢ j
        → get_segment A Cap arena i ≡ ok s
        → get_segment A Cap arena j ≡ ok s'
        → Apart s.reader s'.reader

  -- What an allocator promises: memory that no segment overlaps.
  pub record Separates (arena : BuilderArena A Cap) (amount : ℕ) : Type 0 where
    pub small : (fresh A Cap arena.allocator amount).size ≤ 2 ^ 29
    pub apart :
        (j : ℕ) (s : SegmentBuilder)
        → get_segment A Cap arena j ≡ ok s
        → Apart s.reader (fresh A Cap arena.allocator amount)

  module _ (arena : BuilderArena A Cap) (amount id ptr : ℕ) (arena' : BuilderArena A Cap)
      (g : Granted A Cap arena amount id ptr arena') where
    -- A segment afterwards is one that was there, or the new one.
    segment_from :
        (j : ℕ) (s' : SegmentBuilder)
        → get_segment A Cap arena' j ≡ ok s'
        → ((s : SegmentBuilder) × (get_segment A Cap arena j ≡ ok s) × (s'.reader ≡ s.reader))
          ⊎ ((j ≡ id) × (s'.reader ≡ fresh A Cap arena.allocator amount))
    segment_from j s' e = elim (Bool-cases (j == id)) [
      | inr other ↦ inl (s', sym (g.others j (==-distinct j id other)) ∙ e, refl)
      | inl same ↦
          let i = ==→eq j id same in
          let t : s' ≡ g.segment = ok_inj (sym e ∙ ap (get_segment A Cap arena') i ∙ g.found) in
          let r = ap (λ (x : SegmentBuilder). x.reader) t in
          elim g.origin [
            | inl (s, q) ↦ inl (s, ap (get_segment A Cap arena) i ∙ q, r ∙ (g.before s q).1)
            | inr q ↦ inr (i, r ∙ q)
          ]
    ]

    pub Granted-IsLaidOut : IsLaidOut arena → Separates arena amount → IsLaidOut arena'
    Granted-IsLaidOut l p = record {
      small = λ j s' e. elim (segment_from j s' e) [
        | inl (s, q, r) ↦ omega (arith, l.small j s q, ap (λ (x : SegmentReader). x.size) r)
        | inr (q, r) ↦ omega (arith, p.small, ap (λ (x : SegmentReader). x.size) r)
      ];
      apart = λ i j s s' d e e'. elim (segment_from i s e) [
        | inl (o, q, r) ↦ elim (segment_from j s' e') [
          | inl (o', q', r') ↦
              subst (λ x. Apart s.reader x) (sym r')
                (subst (λ x. Apart x o'.reader) (sym r) (l.apart i j o o' d q q'))
          | inr (q', r') ↦
              subst (λ x. Apart s.reader x) (sym r')
                (subst (λ x. Apart x (fresh A Cap arena.allocator amount)) (sym r) (p.apart i o q))
        ]
        | inr (q, r) ↦ elim (segment_from j s' e') [
          | inl (o', q', r') ↦
              subst (λ x. Apart s.reader x) (sym r')
                (subst (λ x. Apart x o'.reader) (sym r)
                  (Apart-sym o'.reader (fresh A Cap arena.allocator amount) (p.apart j o' q')))
          | inr (q', r') ↦ absurd (d (q ∙ sym q'))
        ]
      ];
    }

    -- What lies in the part of a segment that was in use is apart from the new words.
    pub Granted-unused :
        IsLaidOut arena'
        → (j : ℕ) (s : SegmentBuilder) (a n : ℕ) → get_segment A Cap arena j ≡ ok s
        → s.pos ≤ s.reader.ptr + 8 * s.reader.size
        → s.reader.ptr ≤ a
        → a + n ≤ s.pos
        → (a + n ≤ ptr) ⊎ (ptr + 8 * amount ≤ a)
    Granted-unused l j s a n e inside starts ends = elim (Bool-cases (j == id)) [
      | inl same ↦
          let (at, r) = g.before s (ap (get_segment A Cap arena) (sym (==→eq j id same)) ∙ e) in
          inl (omega (arith, at, ends))
      | inr other ↦
          let d = ==-distinct j id other in
          elim (l.apart j id s g.segment d (g.others j d ∙ e) g.found) [
            | inl before ↦ inl (omega (arith, before, ends, inside, g.start))
            | inr after ↦ inr (omega (arith, after, starts, g.start, g.has_used.fits))
          ]
    ]

  -- In a message whose segments are valid and lie apart, with an allocator that keeps its promises for
  -- this size, and fewer than 2 ^ 32 - 1 further segments, `allocate` succeeds. The segments are valid
  -- and lie apart afterwards, and the words that it hands out do not overlap the `n` bytes at `a`, where
  -- those were in use, in any segment.
  pub allocate-apart :
      (arena : BuilderArena A Cap) (amount : ℕ) (Valid : A.State → Type 0) (j : ℕ)
      (s : SegmentBuilder) (a n : ℕ)
      → IsBuilt A Cap arena
      → IsLaidOut arena
      → Supplies A Valid amount arena.allocator
      → Separates arena amount
      → Valid arena.allocator
      → length arena.more_segments + 1 < 2 ^ 32
      → get_segment A Cap arena j ≡ ok s
      → s.reader.ptr ≤ a
      → a + n ≤ s.pos
      → (id ptr : ℕ) × (arena' : BuilderArena A Cap) × (allocate A Cap arena amount
          ≡ ok ((id, ptr), arena'))
        × IsBuilt A Cap arena'
        × IsLaidOut arena'
        × Granted A Cap arena amount id ptr arena'
        × ((a + n ≤ ptr) ⊎ (ptr + 8 * amount ≤ a))
  allocate-apart arena amount Valid j s a n b l supplies separates v small q starts ends =
      let (id, ptr, arena', e, v', b', g) =
        allocate_lem A Cap arena amount Valid b supplies v small in
      let l' = Granted-IsLaidOut arena amount id ptr arena' g l separates in
      let i = b j s q in
      (
        id,
        ptr,
        arena',
        e,
        b',
        l',
        g,
        Granted-unused arena amount id ptr arena' g l' j s a n q
            (omega (arith, i.has_used.position, i.has_used.fits)) starts ends,
      )
