-- ===== src/Layout/Building/Readable.antt =====
-- What a reader of a message that has been built finds behind a pointer (src/private/layout.rs,
-- `follow_fars`; src/private/arena.rs, `get_segments_for_output` and `ReaderArena::new`).
use capnproto_rust.Base.{
  ℕ, ◌+◌, ◌-◌, ◌*◌, ◌/◌, ◌≤◌, ◌≡◌, ◌≢◌, inl, inr, refl, sym, ap, ◌∙◌, true, false, some, leb, ltb,
  arith,
}
use capnproto_rust.Base.Outcome.{Outcome, ok}
use capnproto_rust.Arena.{
  SegmentReader, SegmentBuilder, IsPlaced, contains_interval, can_read, currently_allocated, offset,
  get_ptr_unchecked,
}
use capnproto_rust.Arena.Builder.{Allocator, BuilderArena, get_segment}
use capnproto_rust.Arena.Granted.{ok_inj}
use capnproto_rust.Arena.Reader.{
  ReaderArena, new_arena, new_arena-IsCoherent, new_reader, IsCoherent, try_get_segment,
  try_get_segment-answer,
}
use capnproto_rust.Layout.Pointer.{
  WirePointer, WirePointerKind, struct, list, other, far, kind, target, segment_id, is_double_far,
  far_position_in_segment,
}
use capnproto_rust.Layout.Memory.{Memory, pointer_at, ReadState, ◌⟫=◌, arena_segment, bounds_check}
use capnproto_rust.Layout.Reading.{Followed, follow_fars, follow_far}
use capnproto_rust.Layout.Building.{BuildState}
use capnproto_rust.Layout.Building.Objects.{Allocation}
use capnproto_rust.Layout.Building.Stands.{Stands, outputs, outputs-segment, new_reader-HasUsed}
use capnproto_rust.Layout.Building.Leads.{Way}

-- An interval that lies in a segment is granted if the limit allows its words.
contains_interval-granted :
    (s : SegmentReader) (from to limit : ℕ)
    → IsPlaced s
    → s.ptr ≤ from
    → to ≤ s.ptr + 8 * s.size
    → from ≤ to
    → (to - from) / 8 ≤ limit
    → contains_interval s from to limit ≡ (true, limit - (to - from) / 8)
unfolding contains_interval can_read
contains_interval-granted s from to limit p a b c d =
    let end : offset s.ptr s.size ≡ s.ptr + 8 * s.size = omega (arith, p.in_memory) in
    let a' : leb s.ptr from ≡ true = ground (arith, a) in
    let b' : leb to (s.ptr + 8 * s.size) ≡ true = ground (arith, b) in
    let c' : leb from to ≡ true = ground (arith, c) in
    let d' : ltb limit ((to - from) / 8) ≡ false = ground (arith, d) in
    rw (end, a', b', c', d') refl

module _ {Cap : Type 0} (mem : Memory) where
  follow_fars-near :
      (reff ref_target : ℕ) (k : WirePointerKind) (s : SegmentReader) (r : ReadState Cap)
      → kind (pointer_at mem reff) ≡ ok k
      → k ≢ far
      → follow_fars mem reff ref_target (some s) r
        ≡ (ok (record { reff = reff; ptr = ref_target; segment = some s }), r)
  unfolding ◌⟫=◌ follow_fars
  follow_fars-near reff t struct s r e n = rw (follow_fars, e) refl
  follow_fars-near reff t list s r e n = rw (follow_fars, e) refl
  follow_fars-near reff t other s r e n = rw (follow_fars, e) refl
  follow_fars-near reff t far s r e n = absurd (n refl)

  follow_fars-far :
      (reff ref_target : ℕ) (s : SegmentReader) (r : ReadState Cap)
      → kind (pointer_at mem reff) ≡ ok far
      → follow_fars mem reff ref_target (some s) r ≡ follow_far mem (pointer_at mem reff) r
  unfolding ◌⟫=◌ follow_fars
  follow_fars-far reff t s r e = rw (follow_fars, e) refl

  -- A far pointer to one landing pad in a segment with that number
  follow_far-single :
      (p : WirePointer) (pad : ℕ) (seg : SegmentReader) (arena' : ReaderArena Cap)
      (r : ReadState Cap)
      → is_double_far p ≡ false
      → try_get_segment r.arena (segment_id p) ≡ ok (seg, arena')
      → offset seg.ptr (far_position_in_segment p) ≡ pad
      → contains_interval seg pad (offset pad 1) r.limit ≡ (true, r.limit - 1)
      → follow_far mem p r ≡ (
        ok (record { reff = pad; ptr = target pad (pointer_at mem pad); segment = some seg }),
        record r { arena = arena'; limit = r.limit - 1 },
      )
  unfolding ◌⟫=◌ arena_segment bounds_check follow_far
  follow_far-single p pad seg arena' r d e at g =
      rw (follow_far, arena_segment, e, at, d, bounds_check, g) refl

-- The segment in which an object stands, as its readers see it
abbrev pub whole :
    {A : Allocator} {Cap : Type 0} {arena : BuilderArena A Cap} {amount : ℕ} {new : Allocation}
    → Stands A Cap arena amount new
    → SegmentReader
whole st = record { ptr = st.home.reader.ptr; size = st.used }

module _ {A : Allocator} {Cap : Type 0} where
  whole-IsPlaced :
      {arena : BuilderArena A Cap} {amount : ℕ} {new : Allocation}
      (st : Stands A Cap arena amount new)
      → IsPlaced (whole st)
  whole-IsPlaced st =
      let h = st.has_used in
      record {
        size_u32 = omega (arith, h.fits, h.placed.size_u32);
        in_memory = omega (arith, h.fits, h.placed.in_memory);
      }

  -- The words of the object pass a bounds check if the limit allows them.
  pub whole-granted :
      {arena : BuilderArena A Cap} (amount : ℕ) (new : Allocation)
      (st : Stands A Cap arena amount new) (limit : ℕ)
      → amount ≤ limit
      → contains_interval (whole st) new.ptr (offset new.ptr amount) limit ≡ (true, limit - amount)
  whole-granted amount new st limit l =
      let h = st.has_used in
      let i = whole-IsPlaced st in
      let end : offset new.ptr amount ≡ new.ptr + 8 * amount =
        omega (arith, st.ends, h.position, i.in_memory) in
      let words : (new.ptr + 8 * amount - new.ptr) / 8 ≡ amount = omega arith in
      rw end (
        contains_interval-granted (whole st) new.ptr (new.ptr + 8 * amount) limit i st.starts
          (omega (arith, st.ends, h.position)) (omega arith) (omega (arith, words, l))
        ∙ ap (λ n. (true, limit - n)) words)

  -- A lookup of the segment by a reader of the message
  found-whole :
      (arena : BuilderArena A Cap) (amount : ℕ) (new : Allocation)
      (st : Stands A Cap arena amount new) (readers : ReaderArena Cap)
      → IsCoherent readers
      → readers.raw_segments ≡ outputs arena
      → (readers' : ReaderArena Cap) × (try_get_segment readers new.segment
          ≡ ok (whole st, readers'))
  found-whole arena amount new st readers c over =
      let listed : readers.raw_segments new.segment ≡ some (currently_allocated st.home) =
        ap (λ f. f new.segment) over ∙ outputs-segment arena new.segment st.home st.found in
      elim (try_get_segment-answer readers new.segment c) [
        | inl (n, e) ↦ absurd cc
        | inr (seg, readers', a, e, c', same) ↦
            let t : seg ≡ new_reader (currently_allocated st.home) = cc in
            (
              readers',
              e ∙ ap (λ x. ok (x, readers')) (t ∙ new_reader-HasUsed st.home st.used st.has_used),
            )
      ]

  module _ (t : BuildState A Cap) (reff segment amount : ℕ) (k : WirePointerKind) (new : Allocation)
      (st : Stands A Cap t.arena amount new) (start : SegmentReader) (r : ReadState Cap) where
    -- The reader follows the pointer to the object as well, for one word of the limit at most.
    abbrev pub ReaderFinds : Type 0
    ReaderFinds =
        (r' : ReadState Cap) × (follow_fars t.memory reff (target reff (pointer_at t.memory reff))
            (some start) r
          ≡ (ok (record { reff = new.reff; ptr = new.ptr; segment = some (whole st) }), r'))
        × (r.limit ≤ r'.limit + 1)

    ReaderFinds-near :
        new.reff ≡ reff
        → kind (pointer_at t.memory reff) ≡ ok k
        → k ≢ far
        → target new.reff (pointer_at t.memory new.reff) ≡ new.ptr
        → start ≡ whole st
        → ReaderFinds
    ReaderFinds-near same e n at here =
        let result : ℕ → ℕ → SegmentReader → Outcome Followed × ReadState Cap =
          λ a p g. (ok (record { reff = a; ptr = p; segment = some g }), r) in
        (
          r,
          follow_fars-near t.memory reff (target reff (pointer_at t.memory reff)) k start r e n
              ∙ ap (λ a. result a (target a (pointer_at t.memory a)) start) (sym same)
              ∙ ap (λ p. result new.reff p start) at
              ∙ ap (result new.reff new.ptr) here,
          omega arith,
        )

    ReaderFinds-far :
        (readers' : ReaderArena Cap)
        → kind (pointer_at t.memory reff) ≡ ok far
        → is_double_far (pointer_at t.memory reff) ≡ false
        → get_ptr_unchecked st.home (far_position_in_segment (pointer_at t.memory reff)) ≡ new.reff
        → try_get_segment r.arena (segment_id (pointer_at t.memory reff)) ≡ ok (whole st, readers')
        → target new.reff (pointer_at t.memory new.reff) ≡ new.ptr
        → 1 ≤ r.limit
        → ReaderFinds
    ReaderFinds-far readers' e d pad found at paid =
        let p = pointer_at t.memory reff in
        let i = whole-IsPlaced st in
        let h = st.has_used in
        let after : offset new.reff 1 ≡ new.reff + 8 =
          omega (arith, st.pad_ends, h.position, i.in_memory) in
        let one : (new.reff + 8 - new.reff) / 8 ≡ 1 = omega arith in
        let granted : contains_interval (whole st) new.reff (offset new.reff 1) r.limit
            ≡ (true, r.limit - 1) =
          rw after (
            contains_interval-granted (whole st) new.reff (new.reff + 8) r.limit i st.pad_starts
              (omega (arith, st.pad_ends, h.position)) (omega arith) (omega (arith, paid))
            ∙ ap (λ n. (true, r.limit - n)) one) in
        (
          record r { arena = readers'; limit = r.limit - 1 },
          follow_fars-far t.memory reff (target reff p) start r e
              ∙ follow_far-single t.memory p new.reff (whole st) readers' r d found pad granted
              ∙ ap
                  (λ x. (
                    ok (record { reff = new.reff; ptr = x; segment = some (whole st) }),
                    record r { arena = readers'; limit = r.limit - 1 },
                  ))
                  at,
          omega arith,
        )

    pub ReaderFinds-way :
        k ≢ far
        → Way reff segment k new t
        → target new.reff (pointer_at t.memory new.reff) ≡ new.ptr
        → IsCoherent r.arena
        → r.arena.raw_segments ≡ outputs t.arena
        → ((h : SegmentBuilder)
            → get_segment A Cap t.arena segment ≡ ok h
            → start ≡ new_reader (currently_allocated h))
        → 1 ≤ r.limit
        → ReaderFinds
    ReaderFinds-way near way at c over begins paid = elim way [
      | inl (same, home, is_k) ↦ ReaderFinds-near same is_k near at (
          begins st.home (ap (get_segment A Cap t.arena) (sym home) ∙ st.found)
          ∙ new_reader-HasUsed st.home st.used st.has_used)
      | inr (is_far, single, named, home, found, pad) ↦
          let (readers', e) = found-whole t.arena amount new st r.arena c over in
          let same : home ≡ st.home = ok_inj (sym found ∙ st.found) in
          ReaderFinds-far readers' is_far single
            (ap (λ x. get_ptr_unchecked x (far_position_in_segment (pointer_at t.memory reff)))
                (sym same)
              ∙ pad)
            (ap (try_get_segment r.arena) named ∙ e) at paid
    ]

module _ {A : Allocator} {Cap : Type 0} (arena : BuilderArena A Cap) where
  -- A reader's arena over the segments of a message that was built
  pub reader_of_outputs :
      (readers : ReaderArena Cap) × (new_arena Cap (outputs arena) ≡ ok readers)
      × IsCoherent readers
      × (readers.raw_segments ≡ outputs arena)
      × ((h : SegmentBuilder)
          → get_segment A Cap arena 0 ≡ ok h
          → readers.segment0 ≡ new_reader (currently_allocated h))
  unfolding get_segment
  reader_of_outputs =
      let listed = outputs-segment arena 0 arena.segment0 refl in
      let (readers, e, c, over) =
        new_arena-IsCoherent (outputs arena) (currently_allocated arena.segment0) listed in
      (
        readers,
        e,
        c,
        over,
        λ h q.
            c.first (currently_allocated arena.segment0) (ap (λ f. f 0) over ∙ listed)
            ∙ ap (λ x. new_reader (currently_allocated x)) (ok_inj q),
      )
