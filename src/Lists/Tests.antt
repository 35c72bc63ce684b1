-- ===== src/Lists/Tests.antt =====
-- A list of three structs of one data word.
use capnproto_rust.Base.{ℕ, suc, ◌≡◌, none}
use capnproto_rust.Base.Outcome.{ok}
use capnproto_rust.Layout.Reading.{StructReader, ListReader}
use capnproto_rust.Layout.Readers.{get_struct_element}
use capnproto_rust.Lists.Objects.{get_struct_at}
use capnproto_rust.Lists.Iteration.{collect, new_iter, count_from, iterate-get_struct_element}

abbrev three : ListReader
three = record {
  segment = none;
  ptr = 808;
  element_count = 3;
  step = 64;
  struct_data_size = 64;
  struct_pointer_count = 0;
  nesting_limit = 9;
}

abbrev address : StructReader → ℕ
address r = r.data_section

iterate_example :
    collect (get_struct_at address three) (suc 3) (new_iter 3)
    ≡ ok (count_from (λ i. address (get_struct_element three i)) 0 3)
iterate_example = iterate-get_struct_element address three
