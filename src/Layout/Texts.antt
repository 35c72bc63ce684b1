-- ===== src/Layout/Texts.antt =====
-- Text and data of a message (src/private/layout.rs, src/text.rs, src/data.rs). A text is the address
-- and the number of its bytes. `from_utf8` is the test of the standard library.
pub mod Inside
mod Tests
use capnproto_rust.Base.{
  ℕ, zero, suc, ◌+◌, ◌-◌, Bool, Option, List, [], ◌∷◌, ◌==◌, not, if◌then◌else◌,
}
use capnproto_rust.Base.Outcome.{not_a_list, not_bytes, no_nul_terminator, not_utf8}
use capnproto_rust.Arena.{SegmentReader, offset}
use capnproto_rust.Layout.Pointer.{
  ElementSize, byte, WirePointerKind, list, kind, is_null, target, element_size, element_count,
  round_bytes_up_to_words,
}
use capnproto_rust.Layout.Memory.{
  Memory, pointer_at, Run, ◌⟫=◌, ◌⟫◌, lift, pure, fail, bounds_check,
}
use capnproto_rust.Layout.Reading.{Followed, follow_fars}
use capnproto_rust.Layout.Readers.{PointerReader, reff_of}

-- A slice of memory: `text::Reader` and `data::Reader`.
pub record Slice : Type 0 where
  pub ptr : ℕ
  pub size : ℕ

-- The bytes of a slice
unfoldable pub slice_bytes : Memory → ℕ → ℕ → List ℕ
slice_bytes mem a zero = []
slice_bytes mem a (suc n) = mem a ∷ slice_bytes mem (a + 1) n

module _ {Cap : Type 0} (from_utf8 : List ℕ → Bool) (mem : Memory) where
  -- `text::new_reader`
  unfoldable pub new_text : ℕ → ℕ → Run Cap Slice
  new_text a n =
      if from_utf8 (slice_bytes mem a n) then pure (record { ptr = a; size = n }) else fail not_utf8

module _ {Cap : Type 0} (mem : Memory) where
  -- The checks that text and data share: the number of bytes of a list of bytes.
  unfoldable pub byte_list : Followed → Run Cap ℕ
  byte_list f =
      let p = pointer_at mem f.reff in
      let size = element_count p in
      lift (kind p) ⟫= λ k. elim k [
        | list ↦ lift (element_size p) ⟫= λ s. elim s [
          | byte ↦
              bounds_check f.segment f.ptr (offset f.ptr (round_bytes_up_to_words size)) ⟫ pure size
          | _ ↦ fail not_bytes
        ]
        | _ ↦ fail not_a_list
      ]

module _ {Cap : Type 0} (from_utf8 : List ℕ → Bool) (mem : Memory) where
  -- The text of a list of bytes without its terminator
  unfoldable pub terminated_text : ℕ → ℕ → Run Cap Slice
  terminated_text ptr size =
      if size == 0
      then fail no_nul_terminator
      else if not (mem (ptr + (size - 1)) == 0)
      then fail no_nul_terminator
      else new_text from_utf8 mem ptr (size - 1)

  unfoldable pub read_text_pointer : Option SegmentReader → ℕ → ℕ → ℕ → Run Cap Slice
  read_text_pointer segment reff default_value default_size =
      let p = pointer_at mem reff in
      if is_null p
      then new_text from_utf8 mem default_value default_size
      else follow_fars mem reff (target reff p) segment ⟫= λ f.
          byte_list mem f ⟫= terminated_text f.ptr

module _ {Cap : Type 0} (mem : Memory) where
  unfoldable pub read_data_pointer : Option SegmentReader → ℕ → ℕ → ℕ → Run Cap Slice
  read_data_pointer segment reff default_value default_size =
      let p = pointer_at mem reff in
      if is_null p
      then pure (record { ptr = default_value; size = default_size })
      else follow_fars mem reff (target reff p) segment ⟫= λ f.
          byte_list mem f ⟫= λ size. pure (record { ptr = f.ptr; size = size })

-- `PointerReader::get_text`
unfoldable pub get_text :
    {Cap : Type 0} → (List ℕ → Bool) → Memory → ℕ → PointerReader → ℕ → ℕ → Run Cap Slice
get_text from_utf8 mem zero_pointer r default_value default_size =
    read_text_pointer from_utf8 mem r.segment (reff_of zero_pointer r) default_value default_size

-- `PointerReader::get_data`
unfoldable pub get_data : {Cap : Type 0} → Memory → ℕ → PointerReader → ℕ → ℕ → Run Cap Slice
get_data mem zero_pointer r default_value default_size =
    read_data_pointer mem r.segment (reff_of zero_pointer r) default_value default_size
