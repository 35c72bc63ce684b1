-- ===== src/Arena/Tests.antt =====
-- Allocation, lookup and limits on concrete arenas.
use capnproto_rust.Base.{
  ℕ, zero, suc, ap, ◌+◌, ◌*◌, ◌%◌, ◌^◌, ◌≤◌, ◌<◌, ◌≡◌, ◌⊎◌, refl, true, false, List, [], ◌∷◌,
  Option, none, some, arith,
}
use capnproto_rust.Base.Outcome.{ok, err, invalid_segment_id}
use capnproto_rust.Arena.{SegmentReader, IsPlaced, HasUsed, contains_interval}
use capnproto_rust.Arena.Limit.{
  Accepted, contains_interval-decides, Refused, Check, interval, amplified, run_checks,
  run_checks-limit,
}
use capnproto_rust.Arena.Builder.{Allocator, BuilderArena, new_arena, allocate}
use capnproto_rust.Arena.Granted.{IsBuilt, Granted}
use capnproto_rust.Arena.Allocation.{Supplies, allocate_lem, new_arena-IsBuilt}
use capnproto_rust.Arena.Reader
use capnproto_rust.Arena.Reader.{
  lookup_segment, ReaderArena, new_reader, IsCoherent, answer, try_get_segment,
  try_get_segment-answer, RawSegments, new_arena-IsCoherent,
}

abbrev segment : SegmentReader
segment = record { ptr = 800; size = 10 }

segment-IsPlaced : IsPlaced segment
segment-IsPlaced = record { size_u32 = omega arith; in_memory = omega arith }

contains_interval_example :
    (((contains_interval segment 808 840 7).0 ≡ true)
      × Accepted segment 808 840 7 (contains_interval segment 808 840 7).1)
    ⊎ (((contains_interval segment 808 840 7).0 ≡ false)
        × Refused segment 808 840 7 (contains_interval segment 808 840 7).1)
contains_interval_example = contains_interval-decides segment 808 840 7 segment-IsPlaced

abbrev checks : List Check
checks = interval segment 808 840 ∷ amplified 5 ∷ interval segment 800 808 ∷ []

run_checks-limit_example : (run_checks checks 7).0 + (run_checks checks 7).1 ≡ 7
run_checks-limit_example = run_checks-limit checks 7

-- An allocator that counts its segments and gives 16 words, or more if more is asked for.
abbrev steady : Allocator
steady = record {
  State = ℕ;
  allocate_segment = λ size n. ((4096 * (n % 1000), size % 2 ^ 20 + 16), n + 1);
}

abbrev Any : ℕ → Type 0
Any n = Unit {0}

steady-Supplies : (size n : ℕ) → size < 2 ^ 20 → Supplies steady Any size n
steady-Supplies size n h = record {
  enough = omega (arith, h);
  placed = record { size_u32 = omega arith; in_memory = omega arith };
  valid = tt;
}

abbrev arena : BuilderArena steady ℕ
arena = new_arena steady ℕ 3

new_arena-IsBuilt_example :
    Any arena.allocator
    × IsBuilt steady ℕ arena
    × (arena.allocator ≡ 4)
    × (arena.more_segments ≡ [])
    × (arena.segment0.reader ≡ record { ptr = 12288; size = 18 })
    × HasUsed arena.segment0 0
    × (2 ≤ arena.segment0.reader.size)
new_arena-IsBuilt_example = new_arena-IsBuilt steady ℕ Any 3 (steady-Supplies 2 3 (omega arith))

allocate_example :
    (id ptr : ℕ) × (arena' : BuilderArena steady ℕ) × (allocate steady ℕ arena 40
      ≡ ok ((id, ptr), arena'))
    × Any arena'.allocator
    × IsBuilt steady ℕ arena'
    × Granted steady ℕ arena 40 id ptr arena'
unfolding new_arena
allocate_example =
    allocate_lem steady ℕ arena 40 Any
      (new_arena-IsBuilt steady ℕ Any 3 (steady-Supplies 2 3 (omega arith))).1
      (steady-Supplies 40 arena.allocator (omega arith)) tt (omega arith)

abbrev raw_segments : RawSegments
raw_segments zero = some (800, 10)
raw_segments (suc zero) = some (1600, 20)
raw_segments (suc (suc id)) = none

abbrev reader_arena : ReaderArena ℕ
reader_arena = record {
  raw_segments = raw_segments;
  segment0 = new_reader (800, 10);
  more_segments = [];
  cap_table = [];
}

reader_arena-IsCoherent : IsCoherent reader_arena
unfolding lookup_segment
reader_arena-IsCoherent = record {
  first = λ s h.
      ap (λ (o : Option (ℕ × ℕ)). elim o [ none ↦ new_reader (800, 10) | some x ↦ new_reader x ]) h;
  has_first = λ n. absurd cc;
  kept = λ id s h. absurd cc;
}

new_arena-IsCoherent_example :
    (arena : ReaderArena ℕ) × (Reader.new_arena ℕ raw_segments ≡ ok arena)
    × IsCoherent arena
    × (arena.raw_segments ≡ raw_segments)
new_arena-IsCoherent_example = new_arena-IsCoherent raw_segments (800, 10) refl

try_get_segment-answer_example :
    ((answer (reader_arena.raw_segments 1) ≡ err invalid_segment_id)
      × (try_get_segment reader_arena 1 ≡ err invalid_segment_id))
    ⊎ ((s : SegmentReader) × (arena' : ReaderArena ℕ) × (answer (reader_arena.raw_segments 1)
          ≡ ok s)
        × (try_get_segment reader_arena 1 ≡ ok (s, arena'))
        × IsCoherent arena'
        × (arena'.raw_segments ≡ reader_arena.raw_segments))
try_get_segment-answer_example = try_get_segment-answer reader_arena 1 reader_arena-IsCoherent
