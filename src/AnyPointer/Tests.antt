-- ===== src/AnyPointer/Tests.antt =====
-- A message of two words: a struct whose only pointer is null.
use capnproto_rust.Base.{
  ℕ, zero, suc, ◌%◌, ◌<◌, ◌≡◌, refl, ap, subst, true, List, [], ◌∷◌, Option, none, some, inr, arith,
}
use capnproto_rust.Arena.{IsPlaced}
use capnproto_rust.Arena.Reader.{RawSegments, new_reader, lookup_segment}
use capnproto_rust.Layout.Memory.{Memory, ReadState, pointer_at}
use capnproto_rust.Layout.Contract.{InMessage, Ready, Post}
use capnproto_rust.Layout.Contract.Checks.{Mapped}
use capnproto_rust.Layout.Pointer.{is_null}
use capnproto_rust.Layout.Readers.{PointerReader}
use capnproto_rust.AnyPointer.{PipelineOp, noop, get_pointer_field_op, follow_ops}
use capnproto_rust.AnyPointer.Pipelined.{IsPointer, follow_ops_lem}

abbrev nth_byte : List ℕ → ℕ → ℕ
nth_byte [] i = 0
nth_byte (b ∷ bs) zero = b
nth_byte (b ∷ bs) (suc i) = nth_byte bs i

abbrev memory : Memory
memory a = nth_byte (0 ∷ 0 ∷ 0 ∷ 0 ∷ 0 ∷ 0 ∷ 1 ∷ 0 ∷ []) a % 256

memory-bytes : (a : ℕ) → memory a < 256
memory-bytes a = omega arith

abbrev table : RawSegments
table zero = some (0, 2)
table (suc id) = none

table-Mapped : Mapped table
table-Mapped zero raw h =
    let e : (0, 2) ≡ raw = cc in
    subst (λ r. IsPlaced (new_reader r)) e
      (record { size_u32 = omega arith; in_memory = omega arith })
table-Mapped (suc id) raw h = absurd cc

whole : InMessage table (new_reader (0, 2))
whole = record { id = 0; raw = (0, 2); listed = refl; same = refl }

abbrev start : ReadState ℕ
start = record {
  arena = record {
    raw_segments = table;
    segment0 = new_reader (0, 2);
    more_segments = [];
    cap_table = [];
  };
  limit = 10;
}

start-Ready : Ready table start
unfolding lookup_segment
start-Ready = record {
  coherent = record {
    first = λ s h.
        ap (λ (o : Option (ℕ × ℕ)). elim o [ none ↦ new_reader (0, 2) | some x ↦ new_reader x ]) h;
    has_first = λ n. absurd cc;
    kept = λ id s h. absurd cc;
  };
  over = refl;
}

abbrev root : PointerReader
root = record { segment = some (new_reader (0, 2)); pointer = 0; nesting_limit = 64 }

root-IsPointer : IsPointer table root
root-IsPointer = inr (record {
  home = new_reader (0, 2);
  segment_is = refl;
  in_message = whole;
  starts = omega arith;
  ends = omega arith;
})

zero-null : is_null (pointer_at memory 100) ≡ true
unfolding pointer_at
zero-null = refl

abbrev path : List PipelineOp
path = noop ∷ get_pointer_field_op 0 ∷ get_pointer_field_op 3 ∷ []

follow_ops_example :
    Post table (λ _. ⊥) 0 (IsPointer table) (λ _. 0) start (follow_ops memory 100 path root start)
follow_ops_example =
    follow_ops_lem table memory 100 path root start table-Mapped memory-bytes zero-null
      root-IsPointer start-Ready
