-- ===== src/Lists/Objects.antt =====
-- Lists of structs, lists, texts and data (src/struct_list.rs, src/list_list.rs, src/text_list.rs,
-- src/data_list.rs).
use capnproto_rust.Base.{ℕ, Bool, List, none}
use capnproto_rust.Base.Outcome.{Outcome, ok}
use capnproto_rust.Arena.Builder.{Allocator}
use capnproto_rust.Layout.Pointer.{StructSize}
use capnproto_rust.Layout.Memory.{Memory, Run, ◌⟫=◌, lift}
use capnproto_rust.Layout.Reading.{StructReader, ListReader}
use capnproto_rust.Layout.Readers.{PointerReader}
use capnproto_rust.Layout.Readers
use capnproto_rust.Layout.Texts.{Slice}
use capnproto_rust.Layout.Texts
use capnproto_rust.Layout.Building.{Build, ◌≫=◌, from_outcome}
use capnproto_rust.Layout.Building.Structs.{StructBuilder}
use capnproto_rust.Layout.Building.ListPointers.{ListBuilder}
use capnproto_rust.Layout.Building.Blobs.{TextBuilder}
use capnproto_rust.Layout.Builders.ListElements.{reader_len, builder_len}
use capnproto_rust.Layout.Builders.ListElements
use capnproto_rust.Layout.Builders.Pointers.{
  PointerBuilder, init_struct_list, get_struct_list, get_text, get_data, set_text, set_data,
}
use capnproto_rust.Lists.{checked_index}

-- `struct_list::Reader::get`. `new` is `FromStructReader::new`, which wraps the reader.
unfoldable pub get_struct_at : {T : Type 0} → (StructReader → T) → ListReader → ℕ → Outcome T
get_struct_at new r index =
    checked_index index (reader_len r) (ok (new (Readers.get_struct_element r index)))

-- `struct_list::Builder::get`
unfoldable pub get_struct_builder_at :
    {T : Type 0} → (StructBuilder → T) → ListBuilder → ℕ → Outcome T
get_struct_builder_at new b index =
    checked_index index (builder_len b) (ok (new (ListElements.get_struct_element b index)))

module _ {Cap : Type 0} where
  -- `list_list::Reader::get`. `from` is `FromPointerReader::get_from_pointer` of the elements.
  unfoldable pub get_list_at :
      {T : Type 0} → (PointerReader → Run Cap T) → ListReader → ℕ → Run Cap T
  get_list_at from r index =
      lift (checked_index index (reader_len r) (ok (Readers.get_pointer_element r index))) ⟫= from

  -- `text_list::Reader::get` and `data_list::Reader::get`
  unfoldable pub get_text_at : (List ℕ → Bool) → Memory → ℕ → ListReader → ℕ → Run Cap Slice
  get_text_at from_utf8 mem zero_pointer r index =
      get_list_at (λ p. Texts.get_text from_utf8 mem zero_pointer p 0 0) r index

  unfoldable pub get_data_at : Memory → ℕ → ListReader → ℕ → Run Cap Slice
  get_data_at mem zero_pointer r index =
      get_list_at (λ p. Texts.get_data mem zero_pointer p 0 0) r index

module _ {A : Allocator} {Cap : Type 0} where
  -- An element of a builder that is a pointer
  unfoldable pub at_index :
      {T : Type 0} → (PointerBuilder → Build A Cap T) → ListBuilder → ℕ → Build A Cap T
  at_index k b index =
      from_outcome
        (checked_index index (builder_len b) (ok (ListElements.get_pointer_element b index)))
      ≫= k

  -- `list_list::Builder::init`, which does not check the index, and `get`
  unfoldable pub init_list_at :
      {T : Type 0}
      → (PointerBuilder → ℕ → Build A Cap T)
      → ListBuilder
      → (index size : ℕ) → Build A Cap T
  init_list_at init_pointer b index size =
      init_pointer (ListElements.get_pointer_element b index) size

  unfoldable pub get_list_builder_at :
      {T : Type 0} → (PointerBuilder → Build A Cap T) → ListBuilder → ℕ → Build A Cap T
  get_list_builder_at from b index = at_index from b index

  -- `text_list::Builder::set`, and `get`, which does not check the index
  unfoldable pub set_text_at : ℕ → ListBuilder → ℕ → List ℕ → Build A Cap (Unit {0})
  set_text_at fuel b index value = at_index (λ p. set_text fuel p value) b index

  unfoldable pub get_text_builder_at :
      (List ℕ → Bool) → ℕ → ListBuilder → ℕ → Build A Cap TextBuilder
  get_text_builder_at from_utf8 fuel b index =
      get_text fuel from_utf8 (ListElements.get_pointer_element b index) 0

  -- `data_list::Builder::set` and `get`
  unfoldable pub set_data_at : ℕ → ListBuilder → ℕ → List ℕ → Build A Cap (Unit {0})
  set_data_at fuel b index value = at_index (λ p. set_data fuel p value) b index

  unfoldable pub get_data_builder_at : ℕ → ListBuilder → ℕ → Build A Cap Slice
  get_data_builder_at fuel b index = at_index (λ p. get_data fuel p 0 0) b index

  -- `FromPointerBuilder` of a list of structs
  unfoldable pub init_struct_list_of : ℕ → StructSize → PointerBuilder → ℕ → Build A Cap ListBuilder
  init_struct_list_of fuel struct_size b size = init_struct_list fuel b size struct_size

  unfoldable pub struct_list_from_pointer :
      ℕ → StructSize → PointerBuilder → Build A Cap ListBuilder
  struct_list_from_pointer fuel struct_size b = get_struct_list fuel b struct_size none
