-- ===== src/Layout/Builders/StructFields.antt =====
-- The fields of `StructBuilder` (src/private/layout.rs), those of numbers for an unsigned type of
-- `bytes` bytes. No method checks a bound. Writes are functions on the memory.
use capnproto_rust.Base.{ℕ, ◌+◌, ◌*◌, Bool, some}
use capnproto_rust.Arena.{SegmentReader, offset}
use capnproto_rust.Layout.Memory.{Memory}
use capnproto_rust.Layout.Reading.{StructReader}
use capnproto_rust.Layout.Readers.{read_number, mask, xor_bool}
use capnproto_rust.Layout.Building.{write_number}
use capnproto_rust.Layout.Building.Structs.{StructBuilder}
use capnproto_rust.Layout.Builders.{write_bit, read_bit}
use capnproto_rust.Layout.Builders.Pointers.{PointerBuilder}

-- `StructBuilder::as_reader`, whose segment is that of the builder
unfoldable pub as_reader : SegmentReader → StructBuilder → StructReader
as_reader segment b = record {
  segment = some segment;
  data_section = b.data_section;
  pointers = b.pointers;
  data_size = b.data_size;
  pointer_count = b.pointer_count;
  nesting_limit = 2147483647;
}

unfoldable pub set_data_field : ℕ → StructBuilder → (i value : ℕ) → Memory → Memory
set_data_field bytes b i value mem = write_number (b.data_section + i * bytes) bytes value mem

unfoldable pub set_data_field_mask : ℕ → StructBuilder → (i value m : ℕ) → Memory → Memory
set_data_field_mask bytes b i value m mem = set_data_field bytes b i (mask (8 * bytes) value m) mem

unfoldable pub get_data_field : Memory → ℕ → StructBuilder → ℕ → ℕ
get_data_field mem bytes b i = read_number mem (b.data_section + i * bytes) bytes

unfoldable pub get_data_field_mask : Memory → ℕ → StructBuilder → (i m : ℕ) → ℕ
get_data_field_mask mem bytes b i m = mask (8 * bytes) (get_data_field mem bytes b i) m

unfoldable pub set_bool_field : StructBuilder → ℕ → Bool → Memory → Memory
set_bool_field b i value mem = write_bit b.data_section i value mem

unfoldable pub set_bool_field_mask : StructBuilder → ℕ → (value m : Bool) → Memory → Memory
set_bool_field_mask b i value m mem = set_bool_field b i (xor_bool value m) mem

unfoldable pub get_bool_field : Memory → StructBuilder → ℕ → Bool
get_bool_field mem b i = read_bit mem b.data_section i

unfoldable pub get_bool_field_mask : Memory → StructBuilder → ℕ → Bool → Bool
get_bool_field_mask mem b i m = xor_bool (get_bool_field mem b i) m

unfoldable pub get_pointer_field : StructBuilder → ℕ → PointerBuilder
get_pointer_field b ptr_index = record {
  segment = b.segment;
  pointer = offset b.pointers ptr_index;
}
