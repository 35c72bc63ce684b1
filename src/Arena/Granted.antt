-- ===== src/Arena/Granted.antt =====
-- What `BuilderArena::allocate` (src/private/arena.rs) does to the segments of a message: one of them
-- grows, or one is added.
use capnproto_rust.Base.{
  ℕ, suc, ◌+◌, ◌-◌, ◌*◌, ◌≤◌, ◌<◌, ◌≡◌, ◌≢◌, ◌⊎◌, refl, sym, ap, ◌∙◌, inl, inr, [], ◌∷◌, ◌++◌, some,
  length, get_elem?, set, get_elem?-set, get_elem?-set_other, get_elem?-last,
  get_elem?-append_other, get_elem?-end, arith, false, subst, ◌==◌, Bool-cases, ==→eq,
}
use capnproto_rust.Base.Outcome.{ok}
use capnproto_rust.Arena.{SegmentReader, SegmentBuilder, IsPlaced, HasUsed}
use capnproto_rust.Arena.Builder.{Allocator, BuilderArena, get_segment}

-- Every segment has its number, lies in memory, and is used up to its position.
pub record IsSegment (i : ℕ) (s : SegmentBuilder) : Type 0 where
  pub named : s.id ≡ i
  pub used : ℕ
  pub has_used : HasUsed s used

pub ==-distinct : (a b : ℕ) → (a == b) ≡ false → a ≢ b
==-distinct a b h e = absurd (ground arith)

pub ok_inj : {A : Type 0} {x y : A} → ok x ≡ ok y → x ≡ y
ok_inj h = cc

module _ (A : Allocator) (Cap : Type 0) where
  abbrev pub IsBuilt : BuilderArena A Cap → Type 0
  IsBuilt arena = (j : ℕ) (s : SegmentBuilder) → get_segment A Cap arena j ≡ ok s → IsSegment j s

  -- The memory that the allocator would give out next
  abbrev pub fresh : A.State → ℕ → SegmentReader
  fresh a amount = record {
    ptr = (A.allocate_segment amount a).0.0;
    size = (A.allocate_segment amount a).0.1;
  }

  -- `amount` words at `ptr` of segment `id` are new in `arena'`: they are the end of the part of that
  -- segment which is used, they come after all that was used, and no other segment has changed.
  pub record Granted (arena : BuilderArena A Cap) (amount id ptr : ℕ) (arena' : BuilderArena A Cap)
      : Type 0 where
    pub segment : SegmentBuilder
    pub used : ℕ
    pub found : get_segment A Cap arena' id ≡ ok segment
    pub named : segment.id ≡ id
    pub has_used : HasUsed segment (used + amount)
    pub start : ptr ≡ segment.reader.ptr + 8 * used
    pub others : (j : ℕ) → j ≢ id → get_segment A Cap arena' j ≡ get_segment A Cap arena j
    pub before :
        (s : SegmentBuilder)
        → get_segment A Cap arena id ≡ ok s
        → (s.pos ≡ ptr) × (segment.reader ≡ s.reader)
    pub origin :
        ((s : SegmentBuilder) × (get_segment A Cap arena id ≡ ok s))
        ⊎ (segment.reader ≡ fresh arena.allocator amount)
    pub id_bound : id ≤ suc (length arena.more_segments)

  pub Granted-IsBuilt :
      (arena : BuilderArena A Cap) (amount id ptr : ℕ) (arena' : BuilderArena A Cap)
      → IsBuilt arena
      → Granted arena amount id ptr arena'
      → IsBuilt arena'
  Granted-IsBuilt arena amount id ptr arena' b g j s e = elim (Bool-cases (j == id)) [
    | inl same ↦
        let t : s ≡ g.segment = cc (==→eq j id same, e, g.found) in
        record {
          named = cc (ap (λ (x : SegmentBuilder). x.id) t, g.named, ==→eq j id same);
          used = g.used + amount;
          has_used = subst (λ x. HasUsed x (g.used + amount)) (sym t) g.has_used;
        }
    | inr other ↦ b j s (sym (g.others j (==-distinct j id other)) ∙ e)
  ]

  get_segment-same :
      (arena arena' : BuilderArena A Cap) (j : ℕ)
      → arena.segment0 ≡ arena'.segment0
      → (j ≢ 0 → get_elem? arena.more_segments (j - 1) ≡ get_elem? arena'.more_segments (j - 1))
      → get_segment A Cap arena j ≡ get_segment A Cap arena' j
  unfolding get_segment
  get_segment-same arena arena' j h k = elim (Bool-cases (j == 0)) [
    | inl e ↦ rw e (ap ok h)
    | inr e ↦ rw (e, k (==-distinct j 0 e)) refl
  ]

  pub get_segment-more :
      (arena : BuilderArena A Cap) (n : ℕ) (s : SegmentBuilder)
      → get_elem? arena.more_segments n ≡ some s
      → get_segment A Cap arena (suc n) ≡ ok s
  unfolding get_segment
  get_segment-more arena n s h =
      let e : (suc n == 0) ≡ false = ground arith in
      let d : suc n - 1 ≡ n = omega arith in rw (e, d, h) refl

  module _ (arena : BuilderArena A Cap) (amount : ℕ) where
    pub Granted-first :
        (s' : SegmentBuilder) (used : ℕ)
        → arena.segment0.id ≡ 0
        → HasUsed arena.segment0 used
        → HasUsed s' (used + amount)
        → s'.reader ≡ arena.segment0.reader
        → s'.id ≡ arena.segment0.id
        → Granted arena amount 0 arena.segment0.pos (record arena { segment0 = s' })
    unfolding get_segment
    Granted-first s' used i h h' r n = record {
      segment = s';
      used = used;
      found = refl;
      named = n ∙ i;
      has_used = h';
      start = h.position ∙ ap (λ (x : SegmentReader). x.ptr + 8 * used) (sym r);
      others = λ j q. let e : (j == 0) ≡ false = ground (arith, q) in rw e refl;
      before = λ s e. (
        ap (λ (x : SegmentBuilder). x.pos) (sym (ok_inj e)),
        r ∙ ap (λ (x : SegmentBuilder). x.reader) (ok_inj e),
      );
      origin = inl (arena.segment0, refl);
      id_bound = omega arith;
    }

    -- The last segment has room.
    pub Granted-last :
        (n used : ℕ) (last s' : SegmentBuilder)
        → n < length arena.more_segments
        → get_elem? arena.more_segments n ≡ some last
        → last.id ≡ suc n
        → HasUsed last used
        → HasUsed s' (used + amount)
        → s'.reader ≡ last.reader
        → s'.id ≡ last.id
        → Granted arena amount
            (suc n)
            last.pos
            (record arena { more_segments = set arena.more_segments n s' })
    Granted-last n used last s' l g i h h' r d =
        let arena' : BuilderArena A Cap = record arena {
          more_segments = set arena.more_segments n s';
        } in
        record {
          segment = s';
          used = used;
          found = get_segment-more arena' n s' (get_elem?-set arena.more_segments n s' l);
          named = d ∙ i;
          has_used = h';
          start = h.position ∙ ap (λ (x : SegmentReader). x.ptr + 8 * used) (sym r);
          others = λ j q. get_segment-same arena' arena j refl (λ z.
              get_elem?-set_other arena.more_segments n (j - 1) s' (λ w. q (omega (arith, w, z))));
          before = λ s e.
              let t : last ≡ s = ok_inj (sym (get_segment-more arena n last g) ∙ e) in
              (
                ap (λ (x : SegmentBuilder). x.pos) (sym t),
                r ∙ ap (λ (x : SegmentBuilder). x.reader) t,
              );
          origin = inl (last, get_segment-more arena n last g);
          id_bound = omega (arith, l);
        }

    -- A new segment is added.
    pub Granted-new :
        (a' : A.State) (s' : SegmentBuilder)
        → IsPlaced (fresh arena.allocator amount)
        → HasUsed s' (0 + amount)
        → s'.reader ≡ fresh arena.allocator amount
        → s'.id ≡ suc (length arena.more_segments)
        → Granted arena amount
            (suc (length arena.more_segments))
            (fresh arena.allocator amount).ptr
            (record arena { allocator = a'; more_segments = arena.more_segments ++ (s' ∷ []) })
    unfolding get_segment
    Granted-new a' s' p h r d =
        let arena' : BuilderArena A Cap = record arena {
          allocator = a';
          more_segments = arena.more_segments ++ (s' ∷ []);
        } in
        let n = length arena.more_segments in
        record {
          segment = s';
          used = 0;
          found = get_segment-more arena' n s' (get_elem?-last arena.more_segments s');
          named = d;
          has_used = h;
          start = omega (arith, ap (λ (x : SegmentReader). x.ptr) r);
          others = λ j q. get_segment-same arena' arena j refl (λ z.
              get_elem?-append_other arena.more_segments s' (j - 1) (λ w. q (omega (arith, w, z))));
          before = λ s.
              let e : (suc n == 0) ≡ false = ground arith in
              let d : suc n - 1 ≡ n = omega arith in
              rw (e, d, get_elem?-end arena.more_segments) (λ q. absurd cc);
          origin = inr r;
          id_bound = omega arith;
        }
