-- ===== src/Layout/Texts/Tests.antt =====
-- A message of two words, which hold the pointer to a text and the text.
use capnproto_rust.Base.{
  ℕ, zero, suc, ◌%◌, ◌<◌, ◌≡◌, refl, ap, subst, true, List, [], ◌∷◌, Option, none, some, Bool, ltb,
  ◌&&◌, arith,
}
use capnproto_rust.Arena.{IsPlaced}
use capnproto_rust.Arena.Reader.{RawSegments, new_reader, lookup_segment}
use capnproto_rust.Layout.Memory.{Memory, ReadState}
use capnproto_rust.Layout.Contract.{InMessage, Ready, Post}
use capnproto_rust.Layout.Contract.Checks.{Mapped}
use capnproto_rust.Layout.Texts.{Slice, read_text_pointer}
use capnproto_rust.Layout.Texts.Inside.{IsText, byte_words, read_text_pointer_lem}

abbrev nth_byte : List ℕ → ℕ → ℕ
nth_byte [] i = 0
nth_byte (b ∷ bs) zero = b
nth_byte (b ∷ bs) (suc i) = nth_byte bs i

abbrev memory : Memory
memory a = nth_byte (1 ∷ 0 ∷ 0 ∷ 0 ∷ 26 ∷ 0 ∷ 0 ∷ 0 ∷ 104 ∷ 105 ∷ 0 ∷ []) a % 256

memory-bytes : (a : ℕ) → memory a < 256
memory-bytes a = omega arith

abbrev table : RawSegments
table zero = some (0, 2)
table (suc id) = none

table-Mapped : Mapped table
table-Mapped zero raw h =
    let e : (0, 2) ≡ raw = cc in
    subst (λ r. IsPlaced (new_reader r)) e
      (record { size_u32 = omega arith; in_memory = omega arith })
table-Mapped (suc id) raw h = absurd cc

whole : InMessage table (new_reader (0, 2))
whole = record { id = 0; raw = (0, 2); listed = refl; same = refl }

abbrev start : ReadState ℕ
start = record {
  arena = record {
    raw_segments = table;
    segment0 = new_reader (0, 2);
    more_segments = [];
    cap_table = [];
  };
  limit = 10;
}

start-Ready : Ready table start
unfolding lookup_segment
start-Ready = record {
  coherent = record {
    first = λ s h.
        ap (λ (o : Option (ℕ × ℕ)). elim o [ none ↦ new_reader (0, 2) | some x ↦ new_reader x ]) h;
    has_first = λ n. absurd cc;
    kept = λ id s h. absurd cc;
  };
  over = refl;
}

-- ASCII alone
abbrev is_ascii : List ℕ → Bool
is_ascii [] = true
is_ascii (b ∷ bs) = ltb b 128 && is_ascii bs

read_text_pointer_example :
    Post table
      (λ _. ⊥)
      0
      (IsText table is_ascii memory)
      (λ (r : Slice). byte_words r.size)
      start
      (read_text_pointer is_ascii memory (some (new_reader (0, 2))) 0 0 0 start)
read_text_pointer_example =
    read_text_pointer_lem table is_ascii memory (new_reader (0, 2)) 0 start refl table-Mapped
      memory-bytes whole start-Ready
