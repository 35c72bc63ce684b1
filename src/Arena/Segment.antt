-- ===== src/Arena/Segment.antt =====
-- Allocation in one segment (src/private/arena.rs, `SegmentBuilder::allocate`).
use capnproto_rust.Base.{
  ℕ, ◌+◌, ◌-◌, ◌≤◌, ◌<◌, ◌≡◌, refl, ◌⊎◌, inl, inr, none, some, arith, true, false, ltb, Bool-cases,
  ltb→lt, ltb_false→le,
}
use capnproto_rust.Arena.{SegmentBuilder, current_size, allocate_in, HasUsed, offset}

pub current_size-HasUsed : (s : SegmentBuilder) (used : ℕ) → HasUsed s used → current_size s ≡ used
unfolding current_size
current_size-HasUsed s used h = omega (arith, h.position, h.fits, h.placed.size_u32)

-- In a segment with room the next words are handed out.
pub allocate_in-fits :
    (s : SegmentBuilder) (used amount : ℕ)
    → HasUsed s used
    → used + amount ≤ s.reader.size
    → (s' : SegmentBuilder) × (allocate_in s amount ≡ some (s.pos, s'))
      × HasUsed s' (used + amount)
      × (s'.reader ≡ s.reader)
      × (s'.id ≡ s.id)
unfolding allocate_in
allocate_in-fits s used amount h room =
    let e : ltb (s.reader.size - current_size s) amount ≡ false =
      ground (arith, current_size-HasUsed s used h) in
    rw e (
      record s { pos = offset s.pos amount },
      refl,
      record {
        placed = h.placed;
        position = omega (arith, h.position, h.placed.in_memory);
        fits = room;
      },
      refl,
      refl,
    )

allocate_in-full :
    (s : SegmentBuilder) (used amount : ℕ)
    → HasUsed s used
    → s.reader.size < used + amount
    → allocate_in s amount ≡ none
unfolding allocate_in
allocate_in-full s used amount h full =
    let e : ltb (s.reader.size - current_size s) amount ≡ true =
      ground (arith, current_size-HasUsed s used h, h.fits) in
    rw e refl

pub fits_or_full :
    (s : SegmentBuilder) (used amount : ℕ)
    → HasUsed s used
    → ((s' : SegmentBuilder) × (allocate_in s amount ≡ some (s.pos, s'))
        × HasUsed s' (used + amount)
        × (s'.reader ≡ s.reader)
        × (s'.id ≡ s.id))
      ⊎ (allocate_in s amount ≡ none)
fits_or_full s used amount h = elim (Bool-cases (ltb s.reader.size (used + amount))) [
  | inl e ↦ inr (allocate_in-full s used amount h (ltb→lt s.reader.size (used + amount) e))
  | inr e ↦ inl (allocate_in-fits s used amount h (ltb_false→le s.reader.size (used + amount) e))
]
