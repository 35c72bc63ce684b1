-- ===== src/Layout/Builders/ListElements.antt =====
-- The elements of `ListReader` and `ListBuilder`, those of numbers for a `PrimitiveElement` of `bytes`
-- bytes (src/private/layout.rs). No method checks an index.
use capnproto_rust.Base.{ℕ, ◌+◌, ◌*◌, ◌/◌, ◌%◌, ◌^◌, Bool}
use capnproto_rust.Layout.Memory.{Memory}
use capnproto_rust.Layout.Reading.{ListReader}
use capnproto_rust.Layout.Readers.{read_number}
use capnproto_rust.Layout.Building.{write_number}
use capnproto_rust.Layout.Building.Structs.{StructBuilder}
use capnproto_rust.Layout.Building.ListPointers.{ListBuilder}
use capnproto_rust.Layout.Builders.{write_bit, read_bit}
use capnproto_rust.Layout.Builders.Pointers.{PointerBuilder}

abbrev pub reader_len : ListReader → ℕ
reader_len r = r.element_count

abbrev pub builder_len : ListBuilder → ℕ
builder_len b = b.element_count

-- `ListBuilder::get_struct_element`, whose product is a `u32` and wraps in a release build.
unfoldable pub get_struct_element : ListBuilder → ℕ → StructBuilder
get_struct_element b index =
    let struct_data = (b.ptr + index * b.step % 2 ^ 32 / 8) % 2 ^ 64 in
    record {
      segment = b.segment;
      data_section = struct_data;
      pointers = (struct_data + b.struct_data_size / 8) % 2 ^ 64;
      data_size = b.struct_data_size;
      pointer_count = b.struct_pointer_count;
    }

-- `ListBuilder::get_pointer_element`
unfoldable pub get_pointer_element : ListBuilder → ℕ → PointerBuilder
get_pointer_element b index = record {
  segment = b.segment;
  pointer = (b.ptr + index * b.step % 2 ^ 32 / 8) % 2 ^ 64;
}

-- `PrimitiveElement::get`
unfoldable pub get_element : Memory → ℕ → ListReader → ℕ → ℕ
get_element mem bytes r index = read_number mem (r.ptr + index * r.step / 8) bytes

-- `PrimitiveElement::get_from_builder`
unfoldable pub get_from_builder : Memory → ℕ → ListBuilder → ℕ → ℕ
get_from_builder mem bytes b index = read_number mem (b.ptr + index * b.step / 8) bytes

-- `PrimitiveElement::set`
unfoldable pub set_element : ℕ → ListBuilder → (index value : ℕ) → Memory → Memory
set_element bytes b index value mem = write_number (b.ptr + index * b.step / 8) bytes value mem

-- The three methods for `bool`
unfoldable pub get_bool_element : Memory → ListReader → ℕ → Bool
get_bool_element mem r index = read_bit mem r.ptr (index * r.step)

unfoldable pub get_bool_from_builder : Memory → ListBuilder → ℕ → Bool
get_bool_from_builder mem b index = read_bit mem b.ptr (index * b.step)

unfoldable pub set_bool_element : ListBuilder → ℕ → Bool → Memory → Memory
set_bool_element b index value mem = write_bit b.ptr (index * b.step) value mem
