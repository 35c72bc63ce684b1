-- ===== src/Layout/Builders/Tests.antt =====
-- Fields of a struct of one data word.
use capnproto_rust.Base.{◌≡◌, true, false, none, arith}
use capnproto_rust.Arena.{SegmentReader}
use capnproto_rust.Layout.Memory.{Memory}
use capnproto_rust.Layout.Readers.{
  get_data_field, get_data_field_mask, get_bool_field, get_bool_field_mask,
}
use capnproto_rust.Layout.Building.Structs.{StructBuilder}
use capnproto_rust.Layout.Builders.StructFields.{
  as_reader, set_data_field_mask, set_bool_field_mask,
}
use capnproto_rust.Layout.Builders.Stored.{
  set_data_field-get_data_field, set_bool_field-get_bool_field,
}

abbrev segment : SegmentReader
segment = record { ptr = 800; size = 10 }

abbrev b : StructBuilder
b = record { segment = none; data_section = 808; pointers = 816; data_size = 64; pointer_count = 0 }

abbrev memory : Memory
memory a = 255

set_data_field_example :
    (get_data_field_mask (set_data_field_mask 2 b 1 999 7 memory) 2 (as_reader segment b) 1 7 ≡ 999)
    × (get_data_field (set_data_field_mask 2 b 1 999 7 memory) 2 (as_reader segment b) 3
        ≡ get_data_field memory 2 (as_reader segment b) 3)
set_data_field_example =
    set_data_field-get_data_field 2 b segment 1 3 999 7 memory (omega arith) (omega arith)
      (λ e. absurd (omega (arith, e)))

set_bool_field_example :
    (get_bool_field_mask (set_bool_field_mask b 9 false true memory) (as_reader segment b) 9 true
      ≡ false)
    × (get_bool_field (set_bool_field_mask b 9 false true memory) (as_reader segment b) 12
        ≡ get_bool_field memory (as_reader segment b) 12)
set_bool_field_example =
    set_bool_field-get_bool_field b segment 9 12 false true memory (omega arith) (omega arith)
      (omega arith) (λ e. absurd (omega (arith, e)))
