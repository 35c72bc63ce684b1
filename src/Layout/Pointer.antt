-- ===== src/Layout/Pointer.antt =====
-- `WirePointer` and its views (src/private/layout.rs): a struct, list, far or capability reference is
-- the upper half of a pointer. A half is the number that `WireValue` reads from it, little end first.
use capnproto_rust.Base.{
  ℕ, ◌+◌, ◌-◌, ◌*◌, ◌/◌, ◌%◌, ◌^◌, Bool, ◌==◌, ltb, leb, ◌&&◌, not, if◌then◌else◌,
}
use capnproto_rust.Base.Outcome.{Outcome, ok, fault, panicked, ◌>>◌, assert}

pub data ElementSize : Type 0 where
  void bit byte two_bytes four_bytes eight_bytes pointer inline_composite : ElementSize

abbrev pub size_code : ElementSize → ℕ
size_code void = 0
size_code bit = 1
size_code byte = 2
size_code two_bytes = 3
size_code four_bytes = 4
size_code eight_bytes = 5
size_code pointer = 6
size_code inline_composite = 7

-- `ElementSize::from` panics above 7. Its only caller passes three bits.
unfoldable pub size_from : ℕ → Outcome ElementSize
size_from v =
    if v == 0
    then ok void
    else if v == 1
    then ok bit
    else if v == 2
    then ok byte
    else if v == 3
    then ok two_bytes
    else if v == 4
    then ok four_bytes
    else if v == 5
    then ok eight_bytes
    else if v == 6
    then ok pointer
    else if v == 7
    then ok inline_composite
    else fault panicked

abbrev pub data_bits_per_element : ElementSize → ℕ
data_bits_per_element void = 0
data_bits_per_element bit = 1
data_bits_per_element byte = 8
data_bits_per_element two_bytes = 16
data_bits_per_element four_bytes = 32
data_bits_per_element eight_bytes = 64
data_bits_per_element pointer = 0
data_bits_per_element inline_composite = 0

abbrev pub pointers_per_element : ElementSize → ℕ
pointers_per_element pointer = 1
pointers_per_element _ = 0

pub record StructSize : Type 0 where
  pub data_words : ℕ
  pub pointers : ℕ

-- `StructSize::total`
abbrev pub total : StructSize → ℕ
total s = s.data_words + s.pointers * 1

pub data WirePointerKind : Type 0 where
  struct list far other : WirePointerKind

abbrev pub kind_code : WirePointerKind → ℕ
kind_code struct = 0
kind_code list = 1
kind_code far = 2
kind_code other = 3

-- `WirePointerKind::from` panics above 3. Its only caller passes two bits.
unfoldable pub kind_from : ℕ → Outcome WirePointerKind
kind_from v =
    if v == 0
    then ok struct
    else if v == 1
    then ok list
    else if v == 2
    then ok far
    else if v == 3
    then ok other
    else fault panicked

pub record WirePointer : Type 0 where
  pub offset_and_kind : ℕ
  pub upper32bits : ℕ

-- The fields of `StructRef`: two `u16`s.
abbrev pub data_size : WirePointer → ℕ
data_size p = p.upper32bits % 65536

abbrev pub ptr_count : WirePointer → ℕ
ptr_count p = p.upper32bits / 65536

-- `StructRef::word_size`
abbrev pub word_size : WirePointer → ℕ
word_size p = data_size p + ptr_count p * 1

-- `StructRef::set` and `StructRef::set_from_struct_size`
unfoldable pub set_struct_ref : ℕ → ℕ → WirePointer → WirePointer
set_struct_ref ds rc p = record p { upper32bits = ds + 65536 * rc }

-- `ListRef`
unfoldable pub element_size : WirePointer → Outcome ElementSize
element_size p = size_from (p.upper32bits % 256 % 8)

abbrev pub element_count : WirePointer → ℕ
element_count p = p.upper32bits / 8

abbrev pub inline_composite_word_count : WirePointer → ℕ
inline_composite_word_count p = element_count p

unfoldable pub set_list_ref : ElementSize → ℕ → WirePointer → Outcome WirePointer
set_list_ref es ec p =
    assert (ltb ec (2 ^ 29)) >> ok (record p { upper32bits = ec * 8 + size_code es })

unfoldable pub set_inline_composite : ℕ → WirePointer → Outcome WirePointer
set_inline_composite wc p =
    assert (ltb wc (2 ^ 29)) >> ok (record p { upper32bits = wc * 8 + size_code inline_composite })

-- `FarRef` and `CapRef`
abbrev pub segment_id : WirePointer → ℕ
segment_id p = p.upper32bits

abbrev pub set_far_ref : ℕ → WirePointer → WirePointer
set_far_ref si p = record p { upper32bits = si }

abbrev pub cap_index : WirePointer → ℕ
cap_index p = p.upper32bits

unfoldable pub kind : WirePointer → Outcome WirePointerKind
kind p = kind_from (p.offset_and_kind % 256 % 4)

abbrev pub is_capability : WirePointer → Bool
is_capability p = p.offset_and_kind == kind_code other

-- `target` and `mut_target` of a pointer that stands at the address `this`. The shift of the `i32`
-- keeps its sign, so a number from 2 ^ 31 on counts words backwards.
unfoldable pub target : ℕ → WirePointer → ℕ
target this p =
    if ltb p.offset_and_kind (2 ^ 31)
    then (this + 8 * (1 + p.offset_and_kind / 4)) % 2 ^ 64
    else (this + 8 * (1 + p.offset_and_kind / 4) + 2 ^ 64 - 8 * 2 ^ 30) % 2 ^ 64

-- The distance in words, less one, as a `u32`, shifted by two. The division of a negative `isize`
-- rounds towards 0.
unfoldable pub offset_bits : ℕ → ℕ → ℕ
offset_bits this addr =
    if leb this addr
    then ((addr - this) / 8 * 4 + 2 ^ 32 - 4) % 2 ^ 32
    else (2 ^ 32 - 4 + (2 ^ 30 - (this - addr) / 8 % 2 ^ 30) * 4) % 2 ^ 32

-- The two lowest bits of the shifted number are free, so `|` adds the kind.
unfoldable pub set_kind_and_target : ℕ → WirePointerKind → ℕ → WirePointer → WirePointer
set_kind_and_target this k addr p = record p {
  offset_and_kind = offset_bits this addr + kind_code k;
}

abbrev pub set_kind_with_zero_offset : WirePointerKind → WirePointer → WirePointer
set_kind_with_zero_offset k p = record p { offset_and_kind = kind_code k }

abbrev pub set_kind_and_target_for_empty_struct : WirePointer → WirePointer
set_kind_and_target_for_empty_struct p = record p { offset_and_kind = 4294967292 }

abbrev pub inline_composite_list_element_count : WirePointer → ℕ
inline_composite_list_element_count p = p.offset_and_kind / 4

unfoldable pub set_kind_and_inline_composite_list_element_count :
    WirePointerKind → ℕ → WirePointer → WirePointer
set_kind_and_inline_composite_list_element_count k count p = record p {
  offset_and_kind = count * 4 % 2 ^ 32 + kind_code k;
}

abbrev pub far_position_in_segment : WirePointer → ℕ
far_position_in_segment p = p.offset_and_kind / 8

abbrev pub is_double_far : WirePointer → Bool
is_double_far p = not (p.offset_and_kind / 4 % 2 == 0)

unfoldable pub set_far : Bool → ℕ → WirePointer → WirePointer
set_far double pos p = record p {
  offset_and_kind = pos * 8 % 2 ^ 32 + (if double then 4 else 0) + kind_code far;
}

unfoldable pub set_cap : ℕ → WirePointer → WirePointer
set_cap index p = record p { offset_and_kind = kind_code other; upper32bits = index }

abbrev pub is_null : WirePointer → Bool
is_null p = p.offset_and_kind == 0 && p.upper32bits == 0

-- The roundings of `wire_helpers`, on `u32`s and `u64`s. The sum of the first wraps.
abbrev pub round_bytes_up_to_words : ℕ → ℕ
round_bytes_up_to_words bytes = (bytes + 7) % 2 ^ 32 / 8

abbrev pub round_bits_up_to_words : ℕ → ℕ
round_bits_up_to_words bits = (bits + 63) / 64 % 2 ^ 32

abbrev pub round_bits_up_to_bytes : ℕ → ℕ
round_bits_up_to_bytes bits = (bits + 7) / 8 % 2 ^ 32
