-- ===== src/Layout/Building/Blobs.antt =====
-- Text and data of a message that is built (src/private/layout.rs, src/text.rs). A string or a slice
-- that is copied into the message is the list of its bytes.
use capnproto_rust.Base.{
  ℕ, zero, suc, ◌+◌, ◌-◌, ◌%◌, ◌^◌, Bool, List, [], ◌∷◌, length, ltb, ◌==◌, ◌||◌, ◌&&◌, not,
  if◌then◌else◌,
}
use capnproto_rust.Base.Outcome.{
  panicked, assert, not_a_list, not_bytes, no_nul_terminator, not_utf8,
}
use capnproto_rust.Arena.Builder.{Allocator}
use capnproto_rust.Layout.Pointer.{
  byte, list, kind, is_null, target, set_list_ref, element_size, element_count,
  round_bytes_up_to_words,
}
use capnproto_rust.Layout.Texts.{Slice, slice_bytes}
use capnproto_rust.Layout.Building.{
  Build, ◌≫=◌, ◌≫◌, from_outcome, done, refuse, crash, write, read_memory, read_pointer,
  try_change_pointer, copy_bytes, write_number, write_bytes,
}
use capnproto_rust.Layout.Building.Objects.{Allocation, allocate_object, follow_builder_fars}

-- `text::Builder`: the bytes, and how many of them are written.
pub record TextBuilder : Type 0 where
  pub ptr : ℕ
  pub size : ℕ
  pub pos : ℕ

-- `SegmentAnd`
pub record SegmentAnd (T : Type 0) : Type 0 where
  pub segment : ℕ
  pub value : T

module _ {A : Allocator} {Cap : Type 0} where
  -- `self.bytes[i] = b`, which panics where there is no such byte.
  unfoldable pub set_byte : TextBuilder → ℕ → ℕ → Build A Cap (Unit {0})
  set_byte t i b = if ltb i t.size then write (write_number (t.ptr + i) 1 b) else crash panicked

  unfoldable pub push_ascii : TextBuilder → ℕ → Build A Cap TextBuilder
  push_ascii t ascii =
      from_outcome (assert (ltb ascii 128))
      ≫ set_byte t t.pos ascii
      ≫ done (record t { pos = t.pos + 1 })

  -- The loop of `push_str`
  unfoldable pub set_bytes : TextBuilder → ℕ → List ℕ → Build A Cap (Unit {0})
  set_bytes t i [] = done tt
  set_bytes t i (b ∷ bs) = set_byte t i b ≫ set_bytes t (i + 1) bs

  unfoldable pub push_str : TextBuilder → List ℕ → Build A Cap TextBuilder
  push_str t string = set_bytes t t.pos string ≫ done (record t { pos = t.pos + length string })

  -- The loop of `clear`
  unfoldable pub clear_bytes : TextBuilder → ℕ → ℕ → Build A Cap (Unit {0})
  clear_bytes t i zero = done tt
  clear_bytes t i (suc n) = set_byte t i 0 ≫ clear_bytes t (i + 1) n

  unfoldable pub clear_text : TextBuilder → Build A Cap TextBuilder
  clear_text t = clear_bytes t 0 t.pos ≫ done (record t { pos = 0 })

  -- `text::Builder::new`
  unfoldable pub new_text_builder : (List ℕ → Bool) → (ptr size pos : ℕ) → Build A Cap TextBuilder
  new_text_builder from_utf8 ptr size pos =
      read_memory (λ mem. slice_bytes mem ptr size) ≫= λ bytes.
      if not (pos == 0) && not (from_utf8 bytes)
      then refuse not_utf8
      else done (record { ptr = ptr; size = size; pos = pos })

  -- The list of bytes that a pointer leads to
  unfoldable pub listed_bytes : Allocation → Build A Cap Slice
  listed_bytes old = read_pointer old.reff ≫= λ t. from_outcome (kind t) ≫= λ k. elim k [
    | list ↦ from_outcome (element_size t) ≫= λ size. elim size [
      | byte ↦ done (record { ptr = old.ptr; size = element_count t })
      | _ ↦ refuse not_bytes
    ]
    | _ ↦ refuse not_a_list
  ]

  unfoldable pub writable_bytes : (reff segment : ℕ) → Build A Cap Slice
  writable_bytes reff segment =
      read_pointer reff ≫= λ p. follow_builder_fars reff (target reff p) segment ≫= listed_bytes

  unfoldable pub terminated_builder : (List ℕ → Bool) → Slice → Build A Cap TextBuilder
  terminated_builder from_utf8 b = read_memory (λ mem. mem (b.ptr + (b.size - 1))) ≫= λ last.
      if b.size == 0 || not (last == 0)
      then refuse no_nul_terminator
      else new_text_builder from_utf8 b.ptr (b.size - 1) (b.size - 1)

module _ {A : Allocator} {Cap : Type 0} (fuel : ℕ) where
  -- A list of `byte_size` bytes
  unfoldable pub init_bytes : (reff segment byte_size : ℕ) → Build A Cap Allocation
  init_bytes reff segment byte_size =
      allocate_object fuel reff segment (round_bytes_up_to_words byte_size) list ≫= λ new.
      try_change_pointer new.reff (set_list_ref byte byte_size) ≫ done new

  -- The bytes of a text are followed by a zero, which the memory holds already.
  unfoldable pub init_text_pointer : (reff segment size : ℕ) → Build A Cap (SegmentAnd TextBuilder)
  init_text_pointer reff segment size = init_bytes reff segment ((size + 1) % 2 ^ 32) ≫= λ new.
      done
        (record { segment = new.segment; value = record { ptr = new.ptr; size = size; pos = 0 } })

  unfoldable pub set_text_pointer :
      (reff segment : ℕ) → List ℕ → Build A Cap (SegmentAnd TextBuilder)
  set_text_pointer reff segment value =
      init_text_pointer reff segment (length value % 2 ^ 32) ≫= λ allocation.
      push_str allocation.value value ≫= λ t. done (record allocation { value = t })

  unfoldable pub init_data_pointer : (reff segment size : ℕ) → Build A Cap (SegmentAnd Slice)
  init_data_pointer reff segment size = init_bytes reff segment size ≫= λ new.
      done (record { segment = new.segment; value = record { ptr = new.ptr; size = size } })

  unfoldable pub set_data_pointer : (reff segment : ℕ) → List ℕ → Build A Cap (SegmentAnd Slice)
  set_data_pointer reff segment value =
      init_data_pointer reff segment (length value % 2 ^ 32) ≫= λ allocation.
      write (write_bytes allocation.value.ptr value) ≫ done allocation

  -- A default value is `unimplemented!`.
  unfoldable pub get_writable_text_pointer :
      (List ℕ → Bool) → (reff segment default_size : ℕ) → Build A Cap TextBuilder
  get_writable_text_pointer from_utf8 reff segment default_size = read_pointer reff ≫= λ p.
      if is_null p
      then (if default_size == 0
          then new_text_builder from_utf8 0 0 0
          else init_text_pointer reff segment default_size ≫= λ b. crash panicked)
      else writable_bytes reff segment ≫= terminated_builder from_utf8

  unfoldable pub get_writable_data_pointer :
      (reff segment default_value default_size : ℕ) → Build A Cap Slice
  get_writable_data_pointer reff segment default_value default_size = read_pointer reff ≫= λ p.
      if is_null p
      then (if default_size == 0
          then done (record { ptr = 0; size = 0 })
          else init_data_pointer reff segment default_size ≫= λ b.
              write (copy_bytes default_value b.value.ptr default_size) ≫ done b.value)
      else writable_bytes reff segment
