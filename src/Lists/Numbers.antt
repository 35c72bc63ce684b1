-- ===== src/Lists/Numbers.antt =====
-- Lists of numbers and of enums (src/primitive_list.rs, src/enum_list.rs). A primitive type is its
-- number of bytes and its element size. `from_u16` and `to_u16` are those of the enum.
use capnproto_rust.Base.{ℕ, ◌*◌, none, ◌==◌, if◌then◌else◌}
use capnproto_rust.Base.Outcome.{Outcome, ok, fault, panicked}
use capnproto_rust.Arena.Builder.{Allocator}
use capnproto_rust.Layout.Pointer.{ElementSize, void, bit, byte, two_bytes, four_bytes, eight_bytes}
use capnproto_rust.Layout.Memory.{Memory, Run}
use capnproto_rust.Layout.Reading.{ListReader}
use capnproto_rust.Layout.Readers.{PointerReader}
use capnproto_rust.Layout.Readers
use capnproto_rust.Layout.Building.{Build}
use capnproto_rust.Layout.Building.ListPointers.{ListBuilder}
use capnproto_rust.Layout.Builders.ListElements.{
  reader_len, builder_len, get_element, get_from_builder, set_element,
}
use capnproto_rust.Layout.Builders.Pointers.{PointerBuilder, init_list, get_list, set_list}
use capnproto_rust.Lists.{checked_index}

module _ (mem : Memory) (bytes : ℕ) where
  -- `primitive_list::Reader::get`
  unfoldable pub get_primitive : ListReader → ℕ → Outcome ℕ
  get_primitive r index = checked_index index (reader_len r) (ok (get_element mem bytes r index))

  -- `primitive_list::Builder::get`
  unfoldable pub get_primitive_from_builder : ListBuilder → ℕ → Outcome ℕ
  get_primitive_from_builder b index =
      checked_index index (builder_len b) (ok (get_from_builder mem bytes b index))

-- `primitive_list::Builder::set`, which does not check the index
unfoldable pub set_primitive : ℕ → ListBuilder → (index value : ℕ) → Memory → Memory
set_primitive bytes b index value mem = set_element bytes b index value mem

-- `bits_per_element` of src/private/units.rs, for a type of `size_of` bytes
abbrev pub bits_per_element : ℕ → ℕ
bits_per_element size_of = 8 * size_of

-- The element size for a number of bits
unfoldable pub size_for_bits : ℕ → Outcome ElementSize
size_for_bits bits =
    if bits == 0
    then ok void
    else if bits == 1
    then ok bit
    else if bits == 8
    then ok byte
    else if bits == 16
    then ok two_bytes
    else if bits == 32
    then ok four_bytes
    else if bits == 64
    then ok eight_bytes
    else fault panicked

unfoldable pub element_size_for_type : ℕ → Outcome ElementSize
element_size_for_type size_of = size_for_bits (bits_per_element size_of)

-- `FromPointerReader::get_from_pointer` of a list of elements of a size
unfoldable pub reader_from_pointer :
    {Cap : Type 0} → Memory → ℕ → ElementSize → PointerReader → Run Cap ListReader
reader_from_pointer mem zero_pointer size r = Readers.get_list mem zero_pointer r size none

module _ {A : Allocator} {Cap : Type 0} where
  -- `FromPointerBuilder::init_pointer` and `get_from_pointer`
  unfoldable pub init_list_of : ℕ → ElementSize → PointerBuilder → ℕ → Build A Cap ListBuilder
  init_list_of fuel size b n = init_list fuel b size n

  unfoldable pub builder_from_pointer : ElementSize → PointerBuilder → Build A Cap ListBuilder
  builder_from_pointer size b = get_list b size none

  -- `SetPointerBuilder::set_pointer_builder`
  unfoldable pub set_list_pointer_builder : ℕ → PointerBuilder → ListReader → Build A Cap (Unit {0})
  set_list_pointer_builder fuel b value = set_list fuel b value

module _ {T : Type 0} (from_u16 : ℕ → T) where
  -- `enum_list::Reader::get`
  unfoldable pub get_enum : Memory → ListReader → ℕ → Outcome T
  get_enum mem r index =
      checked_index index (reader_len r) (ok (from_u16 (get_element mem 2 r index)))

  -- `enum_list::Builder::get`
  unfoldable pub get_enum_from_builder : Memory → ListBuilder → ℕ → Outcome T
  get_enum_from_builder mem b index =
      checked_index index (builder_len b) (ok (from_u16 (get_from_builder mem 2 b index)))

-- `enum_list::Builder::set`
unfoldable pub set_enum : {T : Type 0} → (T → ℕ) → ListBuilder → ℕ → T → Memory → Outcome Memory
set_enum to_u16 b index value mem =
    checked_index index (builder_len b) (ok (set_element 2 b index (to_u16 value) mem))
