-- ===== src/Layout/Building.antt =====
-- Runs of the building functions of `wire_helpers` (src/private/layout.rs): they write memory, take
-- words from the segments of an arena, and copy from a message that is read. A `*mut SegmentBuilder`
-- is the number of a segment. What a write does is seen at once: nothing else writes in between.
pub mod Objects
pub mod Structs
pub mod ListPointers
pub mod StructLists
pub mod Blobs
pub mod Copying
pub mod Written
pub mod Runs
pub mod Allocated
pub mod Stands
pub mod Unused
pub mod Readable
pub mod Leads
pub mod SetUp
pub mod Finds
pub mod Found
pub mod Returned
pub mod ReturnedLists
pub mod ReturnedData
pub mod ReadStructs
pub mod ReadData
pub mod ReadText
mod Tests
use capnproto_rust.Base.{
  ℕ, zero, suc, ◌+◌, ◌-◌, ◌*◌, ◌/◌, ◌%◌, ◌^◌, Bool, true, false, Option, none, some, List, [], ◌∷◌,
  get_elem?, set, ◌==◌, ltb, leb, ◌&&◌, if◌then◌else◌,
}
use capnproto_rust.Base.Outcome.{Outcome, ok, err, fault, Error, Fault, overrun}
use capnproto_rust.Arena.{SegmentBuilder, allocate_in}
use capnproto_rust.Arena.Builder.{Allocator, BuilderArena, get_segment, allocate}
use capnproto_rust.Layout.Pointer.{WirePointer}
use capnproto_rust.Layout.Memory.{Memory, pointer_at, ReadState, Run}

-- Whether an address is one of `n` from `start` on
abbrev pub within : ℕ → ℕ → ℕ → Bool
within start n a = leb start a && ltb a (start + n)

-- `ptr::write_bytes` with 0
unfoldable pub zero_bytes : ℕ → ℕ → Memory → Memory
zero_bytes start n mem a = if within start n a then 0 else mem a

abbrev pub zero_words : ℕ → ℕ → Memory → Memory
zero_words start n mem = zero_bytes start (8 * n) mem

-- `ptr::copy_nonoverlapping`
unfoldable pub copy_bytes : ℕ → ℕ → ℕ → Memory → Memory
copy_bytes src dst n mem a = if within dst n a then mem (src + (a - dst)) else mem a

abbrev pub copy_words : ℕ → ℕ → ℕ → Memory → Memory
copy_words src dst n mem = copy_bytes src dst (8 * n) mem

-- The byte of a number at an index, little end first
unfoldable pub byte_of : ℕ → ℕ → ℕ
byte_of v zero = v % 256
byte_of v (suc i) = byte_of (v / 256) i

-- `WireValue::set` for a number of `n` bytes
unfoldable pub write_number : ℕ → ℕ → ℕ → Memory → Memory
write_number start n v mem a = if within start n a then byte_of v (a - start) else mem a

-- Both halves of a pointer
unfoldable pub write_pointer : ℕ → WirePointer → Memory → Memory
write_pointer p w mem =
    write_number (p + 4) 4 w.upper32bits (write_number p 4 w.offset_and_kind mem)

-- The bytes of a slice, one after the other
unfoldable pub write_bytes : ℕ → List ℕ → Memory → Memory
write_bytes start [] mem = mem
write_bytes start (b ∷ bs) mem = write_bytes (start + 1) bs (write_number start 1 b mem)

module _ (A : Allocator) (Cap : Type 0) where
  -- `source` is the message that is copied from, where one is.
  pub record BuildState : Type 0 where
    pub arena : BuilderArena A Cap
    pub memory : Memory
    pub source : ReadState Cap

  abbrev pub Build : Type 0 → Type 0
  Build T = BuildState → Outcome T × BuildState

module _ {A : Allocator} {Cap : Type 0} where
  infixl 5 ◌≫=◌ ◌≫◌
  abbrev pub go_on :
      {T U : Type 0}
      → (T → Build A Cap U)
      → Outcome T × BuildState A Cap
      → Outcome U × BuildState A Cap
  go_on f (ok t, s) = f t s
  go_on f (err e, s) = (err e, s)
  go_on f (fault x, s) = (fault x, s)

  unfoldable pub ◌≫=◌ : {T U : Type 0} → Build A Cap T → (T → Build A Cap U) → Build A Cap U
  ◌≫=◌ m f s = go_on f (m s)

  abbrev pub ◌≫◌ : {U : Type 0} → Build A Cap (Unit {0}) → Build A Cap U → Build A Cap U
  m ≫ k = m ≫= λ _. k

  abbrev pub from_outcome : {T : Type 0} → Outcome T → Build A Cap T
  from_outcome o s = (o, s)

  abbrev pub done : {T : Type 0} → T → Build A Cap T
  done t = from_outcome (ok t)

  abbrev pub refuse : {T : Type 0} → Error → Build A Cap T
  refuse e = from_outcome (err e)

  abbrev pub crash : {T : Type 0} → Fault → Build A Cap T
  crash x = from_outcome (fault x)

  abbrev pub read_memory : {T : Type 0} → (Memory → T) → Build A Cap T
  read_memory f s = (ok (f s.memory), s)

  abbrev pub write : (Memory → Memory) → Build A Cap (Unit {0})
  write f s = (ok tt, record s { memory = f s.memory })

  -- `*reff`
  abbrev pub read_pointer : ℕ → Build A Cap WirePointer
  read_pointer reff = read_memory (λ mem. pointer_at mem reff)

  -- A method of `*reff` that changes it
  abbrev pub change_pointer : ℕ → (WirePointer → WirePointer) → Build A Cap (Unit {0})
  change_pointer reff f = write (λ mem. write_pointer reff (f (pointer_at mem reff)) mem)

  -- A method of `*reff` that may panic
  unfoldable pub try_change_pointer :
      ℕ → (WirePointer → Outcome WirePointer) → Build A Cap (Unit {0})
  try_change_pointer reff f =
      read_pointer reff ≫= λ p. from_outcome (f p) ≫= λ q. write (write_pointer reff q)

  -- A run that reads the message `source`.
  abbrev pub reading : {T : Type 0} → (Memory → Run Cap T) → Build A Cap T
  reading m s = let (o, r) = m s.memory s.source in (o, record s { source = r })

  -- `*segment`. A number that no segment has would be a wild pointer.
  unfoldable pub segment_at : ℕ → Build A Cap SegmentBuilder
  segment_at id s = elim (get_segment A Cap s.arena id) [
    | ok segment ↦ (ok segment, s)
    | _ ↦ (fault overrun, s)
  ]

  -- `get_segment` of the arena
  abbrev pub arena_get_segment : ℕ → Build A Cap SegmentBuilder
  arena_get_segment id s = (get_segment A Cap s.arena id, s)

  abbrev pub replace_segment : BuilderArena A Cap → ℕ → SegmentBuilder → BuilderArena A Cap
  replace_segment arena id segment =
      if id == 0
      then record arena { segment0 = segment }
      else record arena { more_segments = set arena.more_segments (id - 1) segment }

  unfoldable pub take_words : ℕ → ℕ → SegmentBuilder → Build A Cap (Option ℕ)
  take_words id amount segment s = elim (allocate_in segment amount) [
    | none ↦ (ok none, s)
    | some (ptr, segment') ↦
        (ok (some ptr), record s { arena = replace_segment s.arena id segment' })
  ]

  -- `(**segment).allocate(amount)`
  unfoldable pub segment_allocate : ℕ → ℕ → Build A Cap (Option ℕ)
  segment_allocate id amount = segment_at id ≫= take_words id amount

  -- `get_arena().allocate(amount)`: the number of a segment, and an address in it.
  unfoldable pub arena_allocate : ℕ → Build A Cap (ℕ × ℕ)
  arena_allocate amount s = elim (allocate A Cap s.arena amount) [
    | ok (granted, arena) ↦ (ok granted, record s { arena = arena })
    | err e ↦ (err e, s)
    | fault x ↦ (fault x, s)
  ]
