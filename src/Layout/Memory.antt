-- ===== src/Layout/Memory.antt =====
-- Runs of the reading functions of src/private/layout.rs: they read memory, keep segments in the arena,
-- and use up the limit of all readers. On an error the state is what it was when the error came up.
use capnproto_rust.Base.{ℕ, ◌+◌, Bool, Option, none, some, if◌then◌else◌}
use capnproto_rust.Base.Outcome.{Outcome, ok, err, fault, Error, out_of_bounds, amplified_list}
use capnproto_rust.Words.{read_u32}
use capnproto_rust.Arena.{ReadLimiter, SegmentReader, contains_interval, amplified_read}
use capnproto_rust.Arena.Reader.{ReaderArena, try_get_segment}
use capnproto_rust.Layout.Pointer.{WirePointer}

-- The byte at each address.
abbrev pub Memory : Type 0
Memory = ℕ → ℕ

-- `*reff`: both halves of the pointer at an address
unfoldable pub pointer_at : Memory → ℕ → WirePointer
pointer_at mem p = record {
  offset_and_kind = read_u32 (mem p) (mem (p + 1)) (mem (p + 2)) (mem (p + 3));
  upper32bits = read_u32 (mem (p + 4)) (mem (p + 5)) (mem (p + 6)) (mem (p + 7));
}

module _ (Cap : Type 0) where
  pub record ReadState : Type 0 where
    pub arena : ReaderArena Cap
    pub limit : ReadLimiter

  abbrev pub Run : Type 0 → Type 0
  Run A = ReadState → Outcome A × ReadState

module _ {Cap : Type 0} where
  infixl 5 ◌⟫=◌ ◌⟫◌
  abbrev pub continue :
      {A B : Type 0} → (A → Run Cap B) → Outcome A × ReadState Cap → Outcome B × ReadState Cap
  continue f (ok a, s) = f a s
  continue f (err e, s) = (err e, s)
  continue f (fault x, s) = (fault x, s)

  -- `try!`, and what comes after it
  unfoldable pub ◌⟫=◌ : {A B : Type 0} → Run Cap A → (A → Run Cap B) → Run Cap B
  ◌⟫=◌ m f s = continue f (m s)

  abbrev pub ◌⟫◌ : {B : Type 0} → Run Cap (Unit {0}) → Run Cap B → Run Cap B
  m ⟫ k = m ⟫= λ _. k

  abbrev pub lift : {A : Type 0} → Outcome A → Run Cap A
  lift o s = (o, s)

  abbrev pub pure : {A : Type 0} → A → Run Cap A
  pure a = lift (ok a)

  abbrev pub fail : {A : Type 0} → Error → Run Cap A
  fail e = lift (err e)

  -- `try_get_segment` of the arena of a segment
  unfoldable pub arena_segment : ℕ → Run Cap SegmentReader
  arena_segment id s = elim (try_get_segment s.arena id) [
    | ok (segment, arena) ↦ (ok segment, record s { arena = arena })
    | err e ↦ (err e, s)
    | fault x ↦ (fault x, s)
  ]

  abbrev pub checked :
      Error → Bool × ReadLimiter → ReadState Cap → Outcome (Unit {0}) × ReadState Cap
  checked e (granted, limit) s = (if granted then ok tt else err e, record s { limit = limit })

  -- `bounds_check`: a null segment is that of an unchecked message. The four texts for the kinds of
  -- pointers are one error.
  unfoldable pub bounds_check : Option SegmentReader → ℕ → ℕ → Run Cap (Unit {0})
  bounds_check none start end s = (ok tt, s)
  bounds_check (some segment) start end s =
      checked out_of_bounds (contains_interval segment start end s.limit) s

  -- `wire_helpers::amplified_read`
  unfoldable pub check_amplified : Option SegmentReader → ℕ → Run Cap (Unit {0})
  check_amplified none virtual_amount s = (ok tt, s)
  check_amplified (some segment) virtual_amount s =
      checked amplified_list (amplified_read segment virtual_amount s.limit) s
