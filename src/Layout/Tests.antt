-- ===== src/Layout/Tests.antt =====
-- Pointers, and the reading of a small message, on concrete bytes.
use capnproto_rust.Base.{
  ℕ, zero, suc, ◌+◌, ◌*◌, ◌/◌, ◌%◌, subst, ◌≤◌, ◌<◌, ◌≡◌, ◌⊎◌, refl, ap, List, [], ◌∷◌, Option,
  none, some, arith,
}
use capnproto_rust.Base.Outcome.{ok, panicked}
use capnproto_rust.Arena.{IsPlaced}
use capnproto_rust.Arena.Reader.{RawSegments, new_reader, lookup_segment}
use capnproto_rust.Layout.Pointer.{
  four_bytes, inline_composite, WirePointer, list, kind, target, set_kind_and_target,
}
use capnproto_rust.Layout.Fields.{backwards, target-set_kind_and_target}
use capnproto_rust.Layout.Memory.{Memory, ReadState}
use capnproto_rust.Layout.Contract.{InMessage, Ready, Post}
use capnproto_rust.Layout.Contract.Checks.{Mapped}
use capnproto_rust.Layout.Reading.{read_struct_pointer, read_list_pointer, StructReader, ListReader}
use capnproto_rust.Layout.Reading.Structs.{
  StructInside, IsStruct, struct_words, read_struct_pointer_lem,
}
use capnproto_rust.Layout.Reading.ListTargets.{ListInside, IsList, list_words}
use capnproto_rust.Layout.Reading.Lists.{read_list_pointer_lem}
use capnproto_rust.Layout.Readers.{get_pointer_field, get_struct_element, default_pointer}
use capnproto_rust.Layout.Readers.Elements.{get_pointer_field-inside, get_struct_element-inside}
use capnproto_rust.Layout.Size.{MessageSize, total_size}
use capnproto_rust.Layout.Size.Bounded.{total_size_lem}

abbrev blank : WirePointer
blank = record { offset_and_kind = 0; upper32bits = 7 }

target-set_kind_and_target_example :
    (target 808 (set_kind_and_target 808 list 800 blank) ≡ 800)
    × (kind (set_kind_and_target 808 list 800 blank) ≡ ok list)
    × ((set_kind_and_target 808 list 800 blank).upper32bits ≡ 7)
target-set_kind_and_target_example =
    target-set_kind_and_target 808 800 list blank (omega arith) (omega arith)
      (backwards 1 (omega arith) refl)

-- A struct of one data word and one pointer, which is to a list of two four-byte numbers.
abbrev message_bytes : List ℕ
message_bytes =
    0 ∷ 0 ∷ 0 ∷ 0 ∷ 1 ∷ 0 ∷ 1 ∷ 0 ∷ 42 ∷ 0 ∷ 0 ∷ 0 ∷ 0 ∷ 0 ∷ 0 ∷ 0 ∷ 1 ∷ 0 ∷ 0 ∷ 0 ∷ 20 ∷ 0 ∷ 0 ∷ 0
    ∷ 7 ∷ 0 ∷ 0 ∷ 0 ∷ 8 ∷ 0 ∷ 0 ∷ 0 ∷ []

abbrev nth_byte : List ℕ → ℕ → ℕ
nth_byte [] i = 0
nth_byte (b ∷ bs) zero = b
nth_byte (b ∷ bs) (suc i) = nth_byte bs i

-- The message stands at the start of memory.
abbrev memory : Memory
memory a = nth_byte message_bytes a % 256

memory-bytes : (a : ℕ) → memory a < 256
memory-bytes a = omega arith

abbrev table : RawSegments
table zero = some (0, 4)
table (suc id) = none

table-Mapped : Mapped table
table-Mapped zero raw h =
    let e : (0, 4) ≡ raw = cc in
    subst (λ r. IsPlaced (new_reader r)) e
      (record { size_u32 = omega arith; in_memory = omega arith })
table-Mapped (suc id) raw h = absurd cc

whole-InMessage : InMessage table (new_reader (0, 4))
whole-InMessage = record { id = 0; raw = (0, 4); listed = refl; same = refl }

abbrev start : ReadState ℕ
start = record {
  arena = record {
    raw_segments = table;
    segment0 = new_reader (0, 4);
    more_segments = [];
    cap_table = [];
  };
  limit = 100;
}

start-Ready : Ready table start
unfolding lookup_segment
start-Ready = record {
  coherent = record {
    first = λ s h.
        ap (λ (o : Option (ℕ × ℕ)). elim o [ none ↦ new_reader (0, 4) | some x ↦ new_reader x ]) h;
    has_first = λ n. absurd cc;
    kept = λ id s h. absurd cc;
  };
  over = refl;
}

read_struct_pointer_example :
    Post table
      (λ _. ⊥)
      0
      (IsStruct table 64)
      struct_words
      start
      (read_struct_pointer memory (some (new_reader (0, 4))) 0 none 64 start)
read_struct_pointer_example =
    read_struct_pointer_lem table memory (new_reader (0, 4)) 0 64 start table-Mapped memory-bytes
      whole-InMessage start-Ready

read_list_pointer_example :
    Post table
      (λ _. ⊥)
      0
      (IsList table four_bytes 63)
      list_words
      start
      (read_list_pointer memory (some (new_reader (0, 4))) 16 none four_bytes 63 start)
read_list_pointer_example =
    read_list_pointer_lem table memory (new_reader (0, 4)) 16 four_bytes 63 start table-Mapped
      memory-bytes whole-InMessage start-Ready

total_size_example :
    Post table
      (λ x. x ≡ panicked)
      0
      (λ _. Unit {0})
      (λ (r : MessageSize). r.word_count)
      start
      (total_size memory 64 (some (new_reader (0, 4))) 0 start)
total_size_example =
    total_size_lem table memory 64 (new_reader (0, 4)) 0 start table-Mapped memory-bytes
      whole-InMessage start-Ready

abbrev reader : StructReader
reader = record {
  segment = some (new_reader (0, 4));
  data_section = 8;
  pointers = 16;
  data_size = 64;
  pointer_count = 1;
  nesting_limit = 63;
}

abbrev reader-StructInside : StructInside table 64 reader
reader-StructInside = record {
  home = new_reader (0, 4);
  segment_is = refl;
  in_message = whole-InMessage;
  starts = omega arith;
  pointers_after = refl;
  ends = omega arith;
  nested = refl;
}

get_pointer_field_example :
    ((1 ≤ 0) × (get_pointer_field reader 0 ≡ default_pointer))
    ⊎ ((0 < 1)
        × (0 ≤ (get_pointer_field reader 0).pointer)
        × ((get_pointer_field reader 0).pointer + 8 ≤ 0 + 8 * 4)
        × ((get_pointer_field reader 0).segment ≡ some (new_reader (0, 4)))
        × ((get_pointer_field reader 0).nesting_limit + 1 ≡ 64))
get_pointer_field_example =
    get_pointer_field-inside table 64 reader 0 reader-StructInside table-Mapped

-- The list of two numbers, read as a list of structs
abbrev numbers : ListReader
numbers = record {
  segment = some (new_reader (0, 4));
  ptr = 24;
  element_count = 2;
  step = 32;
  struct_data_size = 32;
  struct_pointer_count = 0;
  nesting_limit = 62;
}

abbrev numbers-ListInside : ListInside table inline_composite 63 numbers
numbers-ListInside = record {
  home = new_reader (0, 4);
  segment_is = refl;
  in_message = whole-InMessage;
  elements = λ i h. (omega arith, omega (arith, h));
  data_fits = omega arith;
  pointers_fit = omega arith;
  nested = refl;
  step_is = refl;
}

get_struct_element_example :
    let e = get_struct_element numbers 1 in
    (0 ≤ e.data_section)
    × (e.pointers ≡ e.data_section + e.data_size / 8)
    × (e.pointers + 8 * e.pointer_count ≤ 0 + 8 * 4)
    × (e.segment ≡ some (new_reader (0, 4)))
    × (e.data_size ≡ 32)
    × (e.pointer_count ≡ 0)
    × (e.nesting_limit ≡ 61)
get_struct_element_example =
    get_struct_element-inside table 63 numbers 1 numbers-ListInside table-Mapped refl (omega arith)
