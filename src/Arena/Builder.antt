-- ===== src/Arena/Builder.antt =====
-- `BuilderArena` (src/private/arena.rs): the segments of a message that is being built. The allocator
-- is the trait of src/message.rs, and capabilities are opaque.
use capnproto_rust.Base.{
  ℕ, ◌+◌, ◌-◌, ◌%◌, ◌^◌, List, [], ◌∷◌, ◌++◌, Option, none, some, length, get_elem?, set, map, ◌==◌,
  if◌then◌else◌,
}
use capnproto_rust.Base.Outcome.{Outcome, ok, err, fault, panicked, invalid_segment_id}
use capnproto_rust.Arena.{
  SegmentReader, SegmentBuilder, new_segment, allocate_in, currently_allocated,
}

-- `Allocator::allocate_segment`: address and size of new memory, and the allocator afterwards.
pub record Allocator : Type 1 where
  pub State : Type 0
  pub allocate_segment : ℕ → State → (ℕ × ℕ) × State

module _ (A : Allocator) (Cap : Type 0) where
  pub record BuilderArena : Type 0 where
    pub allocator : A.State
    pub segment0 : SegmentBuilder
    pub more_segments : List SegmentBuilder
    pub cap_table : List (Option Cap)

  -- `BuilderArena::new`
  unfoldable pub new_arena : A.State → BuilderArena
  new_arena a =
      let ((first_segment, num_words), a') = A.allocate_segment 2 a in
      record {
        allocator = a';
        segment0 = new_segment 0 first_segment num_words;
        more_segments = [];
        cap_table = [];
      }

  -- `&self.more_segments[(id - 1) as usize]`, or the error
  unfoldable pub get_segment : BuilderArena → ℕ → Outcome SegmentBuilder
  get_segment arena id =
      if id == 0 then ok arena.segment0 else elim (get_elem? arena.more_segments (id - 1)) [
        | none ↦ err invalid_segment_id
        | some s ↦ ok s
      ]

  -- `BuilderArena::try_get_segment`
  unfoldable pub try_get_segment : BuilderArena → ℕ → Outcome SegmentReader
  try_get_segment arena id =
      if id == 0 then ok arena.segment0.reader else elim (get_elem? arena.more_segments (id - 1)) [
        | none ↦ err invalid_segment_id
        | some s ↦ ok s.reader
      ]

  -- The way out of `allocate`: a segment with room, which gets the id `id`.
  unfoldable pub allocate_new : BuilderArena → ℕ → ℕ → Outcome ((ℕ × ℕ) × BuilderArena)
  allocate_new arena id amount =
      let ((words, size), a') = A.allocate_segment amount arena.allocator in
      elim (allocate_in (new_segment (id % 2 ^ 32) words size) amount) [
        | none ↦ fault panicked
        | some (ptr, s) ↦ ok (
          (id, ptr),
          record arena { allocator = a'; more_segments = arena.more_segments ++ (s ∷ []) },
        )
      ]

  -- Where the first segment is full: the last one, or a new one.
  unfoldable pub allocate_more : BuilderArena → ℕ → Outcome ((ℕ × ℕ) × BuilderArena)
  allocate_more arena amount =
      let len = length arena.more_segments in
      if len == 0
      then allocate_new arena 1 amount
      else elim (get_elem? arena.more_segments (len - 1)) [
        | none ↦ fault panicked
        | some last ↦ elim (allocate_in last amount) [
          | some (ptr, s) ↦
              ok ((len, ptr), record arena { more_segments = set arena.more_segments (len - 1) s })
          | none ↦ allocate_new arena (len + 1) amount
        ]
      ]

  -- `BuilderArena::allocate`: the number of the segment, and the address in it.
  unfoldable pub allocate : BuilderArena → ℕ → Outcome ((ℕ × ℕ) × BuilderArena)
  allocate arena amount = elim (allocate_in arena.segment0 amount) [
    | some (ptr, s) ↦ ok ((0, ptr), record arena { segment0 = s })
    | none ↦ allocate_more arena amount
  ]

  -- `get_segments_for_output`, whose two cases are one list to the caller (`OutputSegments::deref` of
  -- src/lib.rs).
  unfoldable pub get_segments_for_output : BuilderArena → List (ℕ × ℕ)
  get_segments_for_output arena =
      if length arena.more_segments == 0
      then currently_allocated arena.segment0 ∷ []
      else currently_allocated arena.segment0 ∷ map currently_allocated arena.more_segments

  unfoldable pub inject_cap : BuilderArena → Cap → ℕ × BuilderArena
  inject_cap arena cap =
      let table = arena.cap_table ++ (some cap ∷ []) in
      (length table % 2 ^ 32 - 1, record arena { cap_table = table })

  -- `ArenaPtr::extract_cap` on a builder
  unfoldable pub extract_cap : BuilderArena → ℕ → Option Cap
  extract_cap arena index = elim (get_elem? arena.cap_table index) [ none ↦ none | some c ↦ c ]
