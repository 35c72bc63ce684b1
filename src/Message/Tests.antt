-- ===== src/Message/Tests.antt =====
-- The allocators and the root of a message, on concrete states.
use capnproto_rust.Base.{
  ℕ, ◌+◌, ◌*◌, ◌^◌, ◌<◌, ◌≡◌, refl, false, List, [], ◌∷◌, ◌++◌, arith, drop, replicate,
}
use capnproto_rust.Base.Outcome.{ok, fault, panicked}
use capnproto_rust.Words.{word, zero_word}
use capnproto_rust.Arena.{HasUsed}
use capnproto_rust.Arena.Builder.{BuilderArena, new_arena}
use capnproto_rust.Arena.Allocation.{Supplies}
use capnproto_rust.Message.{
  new_heap_allocator, new_scratch_allocator, new_scratch_space, ScratchSpaceHeapAllocator, heap,
  scratch, pre_drop, get_root_internal,
}
use capnproto_rust.Message.Allocators.{HeapValid, heap-Supplies, pre_drop_lem}
use capnproto_rust.Message.Root.{get_root_internal_lem, get_root_internal-empty_scratch}

-- Memory below 2 ^ 36, for any number of vectors.
abbrev malloc : List (ℕ × ℕ) → ℕ → ℕ
malloc owned size = 4096

malloc_in_memory :
    (owned : List (ℕ × ℕ)) (size : ℕ) → size < 2 ^ 32 → malloc owned size + 8 * size < 2 ^ 64
malloc_in_memory owned size h = omega (arith, h)

heap-Supplies_example : Supplies (heap malloc) HeapValid 5000 new_heap_allocator
heap-Supplies_example =
    heap-Supplies malloc malloc_in_memory 5000 new_heap_allocator (omega arith) (omega arith)

abbrev space : ScratchSpaceHeapAllocator
space =
    new_scratch_allocator
      (new_scratch_space 160 (zero_word ∷ zero_word ∷ word 1 2 3 4 5 6 7 8 ∷ []))

pre_drop_example :
    pre_drop 2 space
    ≡ ok (record space {
      scratch_space = record space.scratch_space {
        words = replicate 2 zero_word ++ drop 2 space.scratch_space.words;
        in_use = false;
      };
    })
pre_drop_example = pre_drop_lem 2 space (omega arith)

abbrev arena : BuilderArena (heap malloc) ℕ
arena = record {
  allocator = new_heap_allocator;
  segment0 = record { reader = record { ptr = 4096; size = 1024 }; id = 0; pos = 4096 };
  more_segments = [];
  cap_table = [];
}

arena-HasUsed : HasUsed arena.segment0 0
arena-HasUsed = record {
  placed = record { size_u32 = omega arith; in_memory = omega arith };
  position = omega arith;
  fits = omega arith;
}

get_root_internal_example :
    (arena' : BuilderArena (heap malloc) ℕ) × (get_root_internal (heap malloc) ℕ arena
      ≡ ok (4096, arena'))
    × (get_root_internal (heap malloc) ℕ arena' ≡ ok (4096, arena'))
get_root_internal_example =
    get_root_internal_lem (heap malloc) ℕ arena 0 arena-HasUsed (omega arith)

get_root_internal-empty_scratch_example :
    get_root_internal
      (scratch malloc)
      ℕ
      (new_arena (scratch malloc) ℕ (new_scratch_allocator (new_scratch_space 160 [])))
    ≡ fault panicked
get_root_internal-empty_scratch_example =
    get_root_internal-empty_scratch ℕ malloc (new_scratch_allocator (new_scratch_space 160 [])) refl
      refl
