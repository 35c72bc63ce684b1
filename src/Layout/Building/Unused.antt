-- ===== src/Layout/Building/Unused.antt =====
-- The bytes of a message that is being built which are not in use (src/private/arena.rs): those that
-- `SegmentBuilder::allocate` and `BuilderArena::allocate` hand out next.
use capnproto_rust.Base.{
  ℕ, ◌+◌, ◌-◌, ◌*◌, ◌≤◌, ◌<◌, ◌≡◌, ◌⊎◌, inl, inr, sym, ap, ◌∙◌, arith, Bool-cases, ◌==◌, ==→eq,
}
use capnproto_rust.Base.Outcome.{ok}
use capnproto_rust.Arena.{SegmentBuilder}
use capnproto_rust.Arena.Builder.{Allocator, BuilderArena, get_segment}
use capnproto_rust.Arena.Granted.{IsBuilt, Granted, ok_inj, ==-distinct}
use capnproto_rust.Arena.Apart.{IsLaidOut, Granted-unused}
use capnproto_rust.Layout.Memory.{Memory}

-- Every byte outside of the parts of the segments that are in use is 0.
abbrev pub IsZeroed : (A : Allocator) (Cap : Type 0) → BuilderArena A Cap → Memory → Type 0
IsZeroed A Cap arena mem =
    (a : ℕ)
    → ((j : ℕ) (s : SegmentBuilder)
        → get_segment A Cap arena j ≡ ok s
        → (a < s.reader.ptr) ⊎ (s.pos ≤ a))
    → mem a ≡ 0

module _ {A : Allocator} {Cap : Type 0} where
  -- The rest of a segment is not in use.
  pub rest_not_in_use :
      (arena : BuilderArena A Cap) (segment : ℕ) (home : SegmentBuilder) (a : ℕ)
      → IsBuilt A Cap arena
      → IsLaidOut A Cap arena
      → get_segment A Cap arena segment ≡ ok home
      → home.pos ≤ a
      → a < home.reader.ptr + 8 * home.reader.size
      → (j : ℕ) (s : SegmentBuilder) → get_segment A Cap arena j ≡ ok s
      → (a < s.reader.ptr) ⊎ (s.pos ≤ a)
  rest_not_in_use arena segment home a b l found from to j s e = elim (Bool-cases (j == segment)) [
    | inl same ↦
        let t : s ≡ home =
          ok_inj (sym e ∙ ap (get_segment A Cap arena) (==→eq j segment same) ∙ found) in
        inr (omega (arith, ap (λ (x : SegmentBuilder). x.pos) t, from))
    | inr apart ↦
        let i = b j s e in
        let h = (b segment home found).has_used in
        elim (l.apart j segment s home (==-distinct j segment apart) e found) [
          | inl before ↦
              inr (omega (arith, before, i.has_used.position, i.has_used.fits, h.position, from))
          | inr after ↦ inl (omega (arith, after, to))
        ]
  ]

  -- Words that were granted were not in use.
  pub Granted-not_in_use :
      (arena arena' : BuilderArena A Cap) (amount id ptr a : ℕ)
      → IsBuilt A Cap arena
      → Granted A Cap arena amount id ptr arena'
      → IsLaidOut A Cap arena'
      → ptr ≤ a
      → a < ptr + 8 * amount
      → (j : ℕ) (s : SegmentBuilder) → get_segment A Cap arena j ≡ ok s
      → (a < s.reader.ptr) ⊎ (s.pos ≤ a)
  Granted-not_in_use arena arena' amount id ptr a b g l from to j s e =
      let i = b j s e in
      elim (Granted-unused A Cap arena amount id ptr arena' g l j s s.reader.ptr
        (s.pos - s.reader.ptr) e (omega (arith, i.has_used.position, i.has_used.fits)) (omega arith)
        (omega (arith, i.has_used.position))) [
          | inl before ↦ inr (omega (arith, before, from, i.has_used.position))
          | inr after ↦ inl (omega (arith, after, to))
        ]
