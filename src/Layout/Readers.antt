-- ===== src/Layout/Readers.antt =====
-- `PointerReader`, and the fields of `StructReader` and `ListReader` (src/private/layout.rs). A null
-- pointer is the address 0, and `zero_pointer` is the address of the static `ZERO`.
pub mod Fields
pub mod Elements
use capnproto_rust.Base.{
  ℕ, zero, suc, ◌+◌, ◌-◌, ◌*◌, ◌/◌, ◌%◌, ◌^◌, Bool, true, false, Option, none, some, ◌==◌, ltb, leb,
  ◌||◌, not, if◌then◌else◌,
}
use capnproto_rust.Arena.{SegmentReader, offset}
use capnproto_rust.Layout.Pointer.{ElementSize, is_null}
use capnproto_rust.Layout.Memory.{Memory, pointer_at, Run, ◌⟫=◌, ◌⟫◌, pure, bounds_check}
use capnproto_rust.Layout.Reading.{
  StructReader, ListReader, read_struct_pointer, read_list_pointer, read_capability_pointer,
}

pub record PointerReader : Type 0 where
  pub segment : Option SegmentReader
  pub pointer : ℕ
  pub nesting_limit : ℕ

-- `PointerReader::new_default`
abbrev pub default_pointer : PointerReader
default_pointer = record { segment = none; pointer = 0; nesting_limit = 2147483647 }

-- `PointerReader::get_root`
unfoldable pub get_root : {Cap : Type 0} → SegmentReader → ℕ → ℕ → Run Cap PointerReader
get_root segment location nesting_limit =
    bounds_check (some segment) location (offset location 1)
    ⟫ pure (record { segment = some segment; pointer = location; nesting_limit = nesting_limit })

abbrev pub get_root_unchecked : ℕ → PointerReader
get_root_unchecked location = record {
  segment = none;
  pointer = location;
  nesting_limit = 2147483647;
}

-- An `n`-byte number at an address, little end first.
unfoldable pub read_number : Memory → ℕ → ℕ → ℕ
read_number mem a zero = 0
read_number mem a (suc n) = mem a + 256 * read_number mem (a + 1) n

module _ (mem : Memory) where
  abbrev pub reader_is_null : PointerReader → Bool
  reader_is_null r = r.pointer == 0 || is_null (pointer_at mem r.pointer)

  -- `StructReader::get_data_field` for an unsigned type of `bytes` bytes
  unfoldable pub get_data_field : ℕ → StructReader → ℕ → ℕ
  get_data_field bytes r i =
      if leb ((i + 1) * (8 * bytes)) r.data_size
      then read_number mem (r.data_section + i * bytes) bytes
      else 0

  unfoldable pub get_bool_field : StructReader → ℕ → Bool
  get_bool_field r i =
      let boffset = i % 2 ^ 32 in
      if ltb boffset r.data_size
      then not (mem (r.data_section + boffset / 8) / 2 ^ (boffset % 8) % 2 == 0)
      else false

-- `Mask::mask` of an integer of `n` bits: the exclusive or. That of a float is on its bits.
unfoldable pub mask : ℕ → ℕ → ℕ → ℕ
mask zero value m = 0
mask (suc n) value m = (value + m) % 2 + 2 * mask n (value / 2) (m / 2)

-- `^` of two `bool`s
abbrev pub xor_bool : Bool → Bool → Bool
xor_bool false m = m
xor_bool true m = not m

module _ (mem : Memory) where
  unfoldable pub get_data_field_mask : ℕ → StructReader → ℕ → ℕ → ℕ
  get_data_field_mask bytes r i m = mask (8 * bytes) (get_data_field mem bytes r i) m

  unfoldable pub get_bool_field_mask : StructReader → ℕ → Bool → Bool
  get_bool_field_mask r i m = xor_bool (get_bool_field mem r i) m

-- `StructReader::get_pointer_field`
unfoldable pub get_pointer_field : StructReader → ℕ → PointerReader
get_pointer_field r ptr_index =
    if ltb ptr_index r.pointer_count
    then record {
      segment = r.segment;
      pointer = offset r.pointers ptr_index;
      nesting_limit = r.nesting_limit;
    }
    else default_pointer

-- `ListReader::get_struct_element`. The nesting limit is only compared with 0, so -1 may be 0 here.
unfoldable pub get_struct_element : ListReader → ℕ → StructReader
get_struct_element r index =
    let struct_data = (r.ptr + index * r.step / 8) % 2 ^ 64 in
    record {
      segment = r.segment;
      data_section = struct_data;
      pointers = (struct_data + r.struct_data_size / 8) % 2 ^ 64;
      data_size = r.struct_data_size;
      pointer_count = r.struct_pointer_count;
      nesting_limit = r.nesting_limit - 1;
    }

-- `ListReader::get_pointer_element`, whose product is a `u32` and wraps in a release build.
unfoldable pub get_pointer_element : ListReader → ℕ → PointerReader
get_pointer_element r index = record {
  segment = r.segment;
  pointer = (r.ptr + index * r.step % 2 ^ 32 / 8) % 2 ^ 64;
  nesting_limit = r.nesting_limit;
}

abbrev pub reff_of : ℕ → PointerReader → ℕ
reff_of zero_pointer r = if r.pointer == 0 then zero_pointer else r.pointer

module _ {Cap : Type 0} (mem : Memory) (zero_pointer : ℕ) where
  unfoldable pub get_struct : PointerReader → Option ℕ → Run Cap StructReader
  get_struct r default_value =
      read_struct_pointer mem r.segment (reff_of zero_pointer r) default_value r.nesting_limit

  unfoldable pub get_list : PointerReader → ElementSize → Option ℕ → Run Cap ListReader
  get_list r expected default_value =
      read_list_pointer mem r.segment (reff_of zero_pointer r) default_value expected
        r.nesting_limit

  unfoldable pub get_capability : PointerReader → Run Cap Cap
  get_capability r = read_capability_pointer mem (reff_of zero_pointer r)
