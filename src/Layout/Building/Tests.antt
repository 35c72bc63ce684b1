-- ===== src/Layout/Building/Tests.antt =====
-- Objects that are initialised in a small message: one segment of ten words, whose first is the root.
use capnproto_rust.Base.{
  ℕ, zero, suc, ◌+◌, ◌*◌, ◌%◌, ◌≤◌, ◌<◌, ◌≡◌, ◌⊎◌, inl, refl, sym, ap, subst, ◌∙◌, true, false,
  List, [], ◌∷◌, none, some, ◌==◌, arith,
}
use capnproto_rust.Base.Outcome.{ok}
use capnproto_rust.Arena.{SegmentBuilder}
use capnproto_rust.Arena.Builder.{Allocator, BuilderArena, get_segment, allocate}
use capnproto_rust.Arena.Granted.{IsSegment, IsBuilt, Granted}
use capnproto_rust.Arena.Allocation.{Supplies}
use capnproto_rust.Arena.Apart.{Apart, IsLaidOut, Separates, allocate-apart}
use capnproto_rust.Arena.Reader.{ReaderArena, new_arena, new_reader}
use capnproto_rust.Layout.Pointer.{StructSize, two_bytes, is_null}
use capnproto_rust.Layout.Memory.{pointer_at, ReadState}
use capnproto_rust.Layout.Reading.{StructReader, read_struct_pointer}
use capnproto_rust.Layout.Texts.{Slice, slice_bytes, read_data_pointer, read_text_pointer}
use capnproto_rust.Layout.Building.{BuildState}
use capnproto_rust.Layout.Building.Structs.{
  StructBuilder, init_struct_pointer, get_writable_struct_pointer,
}
use capnproto_rust.Layout.Building.ListPointers.{
  ListBuilder, init_list_pointer, get_writable_list_pointer,
}
use capnproto_rust.Layout.Building.Blobs.{
  SegmentAnd, TextBuilder, set_data_pointer, set_text_pointer,
}
use capnproto_rust.Layout.Building.Finds.{InUse}
use capnproto_rust.Layout.Building.Stands.{outputs}
use capnproto_rust.Layout.Readers.{get_data_field_mask}
use capnproto_rust.Layout.Builders.StructFields.{set_data_field_mask}
use capnproto_rust.Layout.Builders.Returned.{set_data_field-read_struct}
use capnproto_rust.Layout.Building.ReadStructs.{init_struct-read_struct}
use capnproto_rust.Layout.Building.ReadText.{set_text-read_text}
use capnproto_rust.Layout.Building.ReadData.{set_data-read_data}
use capnproto_rust.Layout.Building.Returned.{init_struct-get_struct}
use capnproto_rust.Layout.Building.ReturnedLists.{step_of, init_list-get_list}

-- An allocator that gives four words more than it is asked for, always at one place.
abbrev generous : Allocator
generous = record { State = ℕ; allocate_segment = λ size n. ((8192, size % 1024 + 4), n + 1) }

abbrev Any : ℕ → Type 0
Any n = Unit {0}

generous-Supplies : (size n : ℕ) → size < 1024 → Supplies generous Any size n
generous-Supplies size n h = record {
  enough = omega (arith, h);
  placed = record { size_u32 = omega arith; in_memory = omega arith };
  valid = tt;
}

abbrev first : SegmentBuilder
first = record { reader = record { ptr = 800; size = 10 }; id = 0; pos = 808 }

abbrev arena : BuilderArena generous ℕ
arena = record { allocator = 0; segment0 = first; more_segments = []; cap_table = [] }

only_segment :
    (j : ℕ) (s : SegmentBuilder) → get_segment generous ℕ arena j ≡ ok s → (j ≡ 0) × (s ≡ first)
unfolding get_segment
only_segment zero s = λ e. (refl, cc)
only_segment (suc j) s = let n : (suc j == 0) ≡ false = ground arith in rw n (λ e. absurd cc)

arena-IsBuilt : IsBuilt generous ℕ arena
arena-IsBuilt j s e =
    let (z, f) = only_segment j s e in
    subst (λ i. IsSegment i s) (sym z)
      (subst (IsSegment 0) (sym f) (record {
        named = refl;
        used = 1;
        has_used = record {
          placed = record { size_u32 = omega arith; in_memory = omega arith };
          position = omega arith;
          fits = omega arith;
        };
      }))

arena-IsLaidOut : IsLaidOut generous ℕ arena
arena-IsLaidOut = record {
  small = λ j s e. omega (arith, ap (λ (x : SegmentBuilder). x.reader.size) (only_segment j s e).1);
  apart = λ i j s s' d e e'. absurd (d ((only_segment i s e).0 ∙ sym (only_segment j s' e').0));
}

arena-Separates : (amount : ℕ) → Separates generous ℕ arena amount
arena-Separates amount = record {
  small = omega arith;
  apart = λ j s e.
      subst
        (λ (x : SegmentBuilder). Apart x.reader (record { ptr = 8192; size = amount % 1024 + 4 }))
        (sym (only_segment j s e).1) (inl (omega arith));
}

first-found : get_segment generous ℕ arena 0 ≡ ok first
unfolding get_segment
first-found = refl

abbrev root : InUse generous ℕ arena 0 800
root = record { home = first; found = first-found; index = 0; at = omega arith; used = omega arith }

abbrev start : BuildState generous ℕ
start = record {
  arena = arena;
  memory = λ a. 0;
  source = record {
    arena = record {
      raw_segments = λ id. none;
      segment0 = new_reader (0, 0);
      more_segments = [];
      cap_table = [];
    };
    limit = 0;
  };
}

start-null : is_null (pointer_at start.memory 800) ≡ true
unfolding pointer_at
start-null = refl

allocate-apart_example :
    (id ptr : ℕ) × (arena' : BuilderArena generous ℕ) × (allocate generous ℕ arena 12
      ≡ ok ((id, ptr), arena'))
    × IsBuilt generous ℕ arena'
    × IsLaidOut generous ℕ arena'
    × Granted generous ℕ arena 12 id ptr arena'
    × ((800 + 8 ≤ ptr) ⊎ (ptr + 8 * 12 ≤ 800))
allocate-apart_example =
    allocate-apart generous ℕ arena 12 Any 0 first 800 8 arena-IsBuilt arena-IsLaidOut
      (generous-Supplies 12 0 (omega arith)) (arena-Separates 12) tt (omega arith) first-found
      (omega arith) (omega arith)

-- Eight words of data and four pointers do not fit into the first segment.
abbrev size : StructSize
size = record { data_words = 8; pointers = 4 }

init_struct-get_struct_example :
    (b : StructBuilder) × (t : BuildState generous ℕ) × (init_struct_pointer 9 800 0 size start
      ≡ (ok b, t))
    × (b.data_size ≡ 8 * 64)
    × (b.pointer_count ≡ 4)
    × (get_writable_struct_pointer 9 800 0 size none t ≡ (ok b, t))
init_struct-get_struct_example =
    init_struct-get_struct Any 9 800 0 size start (omega arith) (omega arith) start-null root
      arena-IsBuilt arena-IsLaidOut (generous-Supplies 13 0 (omega arith)) (arena-Separates 13) tt
      (omega arith)

init_list-get_list_example :
    (b : ListBuilder) × (t : BuildState generous ℕ) × (init_list_pointer 9 800 0 7 two_bytes start
      ≡ (ok b, t))
    × (b.element_count ≡ 7)
    × (b.step ≡ step_of two_bytes)
    × (get_writable_list_pointer 800 0 two_bytes none t ≡ (ok b, t))
init_list-get_list_example =
    init_list-get_list Any 9 800 0 7 two_bytes start refl (omega arith) start-null root
      arena-IsBuilt arena-IsLaidOut (generous-Supplies 3 0 (omega arith)) (arena-Separates 3) tt
      (omega arith)

abbrev hello : List ℕ
hello = 104 ∷ 101 ∷ 108 ∷ 108 ∷ 111 ∷ []

-- The same struct, found by a reader behind a far pointer
init_struct-read_struct_example :
    (b : StructBuilder) × (t : BuildState generous ℕ) × (readers : ReaderArena ℕ)
    × (r : StructReader) × (after : ReadState ℕ) × (init_struct_pointer 9 800 0 size start
        ≡ (ok b, t))
    × (new_arena ℕ (outputs t.arena) ≡ ok readers)
    × (read_struct_pointer t.memory
          (some readers.segment0)
          800
          none
          64
          (record { arena = readers; limit = 100 })
        ≡ (ok r, after))
    × (r.data_section ≡ b.data_section)
    × (r.pointers ≡ b.pointers)
    × (r.data_size ≡ b.data_size)
    × (r.pointer_count ≡ b.pointer_count)
init_struct-read_struct_example =
    init_struct-read_struct Any 9 800 64 100 size start (omega arith) (omega arith) start-null root
      arena-IsBuilt arena-IsLaidOut (generous-Supplies 13 0 (omega arith)) (arena-Separates 13) tt
      (omega arith) (omega arith) (omega arith)

set_data-read_data_example :
    (home : ℕ) × (b d : Slice) × (t : BuildState generous ℕ) × (readers : ReaderArena ℕ)
    × (after : ReadState ℕ) × (set_data_pointer 9 800 0 hello start
        ≡ (ok (record { segment = home; value = b }), t))
    × (new_arena ℕ (outputs t.arena) ≡ ok readers)
    × (read_data_pointer t.memory
          (some readers.segment0)
          800
          0
          0
          (record { arena = readers; limit = 100 })
        ≡ (ok d, after))
    × (slice_bytes t.memory d.ptr d.size ≡ hello)
set_data-read_data_example =
    set_data-read_data Any 9 800 100 hello start (omega arith)
      (omega arith, (omega arith, (omega arith, (omega arith, (omega arith, tt))))) start-null root
      arena-IsBuilt arena-IsLaidOut (generous-Supplies 2 0 (omega arith)) (arena-Separates 2) tt
      (omega arith) (omega arith)

-- A number of two bytes in field 5, whose default is 7
set_data_field-read_struct_example :
    (b : StructBuilder) × (t : BuildState generous ℕ) × (readers : ReaderArena ℕ)
    × (r : StructReader) × (after : ReadState ℕ) × (init_struct_pointer 9 800 0 size start
        ≡ (ok b, t))
    × (new_arena ℕ (outputs t.arena) ≡ ok readers)
    × (read_struct_pointer
          (set_data_field_mask 2 b 5 1234 7 t.memory)
          (some readers.segment0)
          800
          none
          64
          (record { arena = readers; limit = 100 })
        ≡ (ok r, after))
    × (get_data_field_mask (set_data_field_mask 2 b 5 1234 7 t.memory) 2 r 5 7 ≡ 1234)
set_data_field-read_struct_example =
    set_data_field-read_struct Any 9 800 64 100 2 5 1234 7 size start (omega arith) (omega arith)
      (omega arith) (omega arith) start-null root arena-IsBuilt arena-IsLaidOut
      (generous-Supplies 13 0 (omega arith)) (arena-Separates 13) tt (omega arith) (omega arith)
      (omega arith)

-- A text, where every byte counts as UTF-8
set_text-read_text_example :
    (b : SegmentAnd TextBuilder) × (text : Slice) × (t : BuildState generous ℕ)
    × (readers : ReaderArena ℕ) × (after : ReadState ℕ) × (set_text_pointer 9 800 0 hello start
        ≡ (ok b, t))
    × (new_arena ℕ (outputs t.arena) ≡ ok readers)
    × (read_text_pointer
          (λ bytes. true)
          t.memory
          (some readers.segment0)
          800
          0
          0
          (record { arena = readers; limit = 100 })
        ≡ (ok text, after))
    × (slice_bytes t.memory text.ptr text.size ≡ hello)
set_text-read_text_example =
    set_text-read_text Any (λ bytes. true) 9 800 100 hello start (omega arith)
      (omega arith, (omega arith, (omega arith, (omega arith, (omega arith, tt))))) refl
      (λ a unused. refl) start-null root arena-IsBuilt arena-IsLaidOut
      (generous-Supplies 2 0 (omega arith)) (arena-Separates 2) tt (omega arith) (omega arith)
