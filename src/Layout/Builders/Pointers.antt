-- ===== src/Layout/Builders/Pointers.antt =====
-- `PointerBuilder` (src/private/layout.rs). A null `*mut SegmentBuilder`, which only an element of the
-- default list has, is `none`.
use capnproto_rust.Base.{ℕ, ◌==◌, Bool, Option, none, some, List, not, if◌then◌else◌}
use capnproto_rust.Base.Outcome.{overrun, panicked, invalid_capability, not_a_capability}
use capnproto_rust.Arena.{SegmentReader}
use capnproto_rust.Arena.Builder.{Allocator, extract_cap}
use capnproto_rust.Layout.Pointer.{ElementSize, is_null, StructSize, is_capability, cap_index}
use capnproto_rust.Layout.Memory.{Memory, pointer_at}
use capnproto_rust.Layout.Reading.{StructReader, ListReader}
use capnproto_rust.Layout.Readers.{PointerReader}
use capnproto_rust.Layout.Texts.{Slice}
use capnproto_rust.Layout.Building.{
  Build, ◌≫=◌, ◌≫◌, done, refuse, crash, write, read_pointer, zero_words,
}
use capnproto_rust.Layout.Building.Objects.{zero_object}
use capnproto_rust.Layout.Building.Structs.{
  StructBuilder, init_struct_pointer, get_writable_struct_pointer,
}
use capnproto_rust.Layout.Building.ListPointers.{
  ListBuilder, init_list_pointer, get_writable_list_pointer,
}
use capnproto_rust.Layout.Building.StructLists.{
  init_struct_list_pointer, get_writable_struct_list_pointer,
}
use capnproto_rust.Layout.Building.Blobs.{
  TextBuilder, init_text_pointer, init_data_pointer, set_text_pointer, set_data_pointer,
  get_writable_text_pointer, get_writable_data_pointer,
}
use capnproto_rust.Layout.Building.Copying.{
  set_capability_pointer, set_struct_pointer, set_list_pointer, copy_pointer,
}

pub record PointerBuilder : Type 0 where
  pub segment : Option ℕ
  pub pointer : ℕ

-- `PointerBuilder::get_root`
abbrev pub builder_root : ℕ → ℕ → PointerBuilder
builder_root segment location = record { segment = some segment; pointer = location }

abbrev pub builder_is_null : Memory → PointerBuilder → Bool
builder_is_null mem b = is_null (pointer_at mem b.pointer)

-- `PointerBuilder::as_reader`, whose segment is that of the builder
abbrev pub as_reader : SegmentReader → PointerBuilder → PointerReader
as_reader segment b = record {
  segment = some segment;
  pointer = b.pointer;
  nesting_limit = 2147483647;
}

module _ {A : Allocator} {Cap : Type 0} where
  abbrev pub in_segment : {T : Type 0} → PointerBuilder → (ℕ → Build A Cap T) → Build A Cap T
  in_segment b k = elim b.segment [ none ↦ crash overrun | some segment ↦ k segment ]

  unfoldable pub get_list : PointerBuilder → ElementSize → Option ℕ → Build A Cap ListBuilder
  get_list b size default_value =
      in_segment b (λ s. get_writable_list_pointer b.pointer s size default_value)

  unfoldable pub set_capability : PointerBuilder → Cap → Build A Cap (Unit {0})
  set_capability b cap = in_segment b (λ s. set_capability_pointer s b.pointer cap)

  -- `read_capability_pointer` on the segment of the builder
  unfoldable pub get_capability : PointerBuilder → Build A Cap Cap
  get_capability b = in_segment b (λ segment. read_pointer b.pointer ≫= λ p.
      if is_null p
      then crash panicked
      else if not (is_capability p)
      then refuse not_a_capability
      else λ s. elim (extract_cap A Cap s.arena (cap_index p)) [
        | none ↦ refuse invalid_capability s
        | some cap ↦ done cap s
      ])

module _ {A : Allocator} {Cap : Type 0} (fuel : ℕ) where
  unfoldable pub get_struct : PointerBuilder → StructSize → Option ℕ → Build A Cap StructBuilder
  get_struct b size default_value =
      in_segment b (λ s. get_writable_struct_pointer fuel b.pointer s size default_value)

  unfoldable pub get_struct_list : PointerBuilder → StructSize → Option ℕ → Build A Cap ListBuilder
  get_struct_list b size default_value =
      in_segment b (λ s. get_writable_struct_list_pointer fuel b.pointer s size default_value)

  unfoldable pub get_text : (List ℕ → Bool) → PointerBuilder → ℕ → Build A Cap TextBuilder
  get_text from_utf8 b default_size =
      in_segment b (λ s. get_writable_text_pointer fuel from_utf8 b.pointer s default_size)

  unfoldable pub get_data : PointerBuilder → (default_value default_size : ℕ) → Build A Cap Slice
  get_data b default_value default_size =
      in_segment b (λ s. get_writable_data_pointer fuel b.pointer s default_value default_size)

  unfoldable pub init_struct : PointerBuilder → StructSize → Build A Cap StructBuilder
  init_struct b size = in_segment b (λ s. init_struct_pointer fuel b.pointer s size)

  unfoldable pub init_list : PointerBuilder → ElementSize → ℕ → Build A Cap ListBuilder
  init_list b size element_count =
      in_segment b (λ s. init_list_pointer fuel b.pointer s element_count size)

  unfoldable pub init_struct_list : PointerBuilder → ℕ → StructSize → Build A Cap ListBuilder
  init_struct_list b element_count size =
      in_segment b (λ s. init_struct_list_pointer fuel b.pointer s element_count size)

  unfoldable pub init_text : PointerBuilder → ℕ → Build A Cap TextBuilder
  init_text b size =
      in_segment b (λ s. init_text_pointer fuel b.pointer s size ≫= λ r. done r.value)

  unfoldable pub init_data : PointerBuilder → ℕ → Build A Cap Slice
  init_data b size =
      in_segment b (λ s. init_data_pointer fuel b.pointer s size ≫= λ r. done r.value)

  unfoldable pub set_struct : PointerBuilder → StructReader → Build A Cap (Unit {0})
  set_struct b value = in_segment b (λ s.
      set_struct_pointer fuel (copy_pointer fuel value.nesting_limit) s b.pointer value ≫= λ _.
      done tt)

  unfoldable pub set_list : PointerBuilder → ListReader → Build A Cap (Unit {0})
  set_list b value = in_segment b (λ s.
      set_list_pointer fuel (copy_pointer fuel value.nesting_limit) s b.pointer value ≫= λ _.
      done tt)

  unfoldable pub set_text : PointerBuilder → List ℕ → Build A Cap (Unit {0})
  set_text b value = in_segment b (λ s. set_text_pointer fuel b.pointer s value ≫= λ _. done tt)

  unfoldable pub set_data : PointerBuilder → List ℕ → Build A Cap (Unit {0})
  set_data b value = in_segment b (λ s. set_data_pointer fuel b.pointer s value ≫= λ _. done tt)

  unfoldable pub clear : PointerBuilder → Build A Cap (Unit {0})
  clear b = in_segment b (λ s. zero_object fuel s b.pointer ≫ write (zero_words b.pointer 1))

  unfoldable pub copy_from : PointerBuilder → PointerReader → Build A Cap (Unit {0})
  copy_from b other =
      if other.pointer == 0
      then (if b.pointer == 0 then done tt else clear b)
      else in_segment b (λ s.
        copy_pointer fuel other.nesting_limit s b.pointer other.segment other.pointer ≫= λ _.
        done tt)
