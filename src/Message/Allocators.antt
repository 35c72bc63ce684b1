-- ===== src/Message/Allocators.antt =====
-- The allocators keep the promise that a message needs (src/message.rs, `Allocator`).
use capnproto_rust.Base.{
  ℕ, zero, suc, ◌+◌, ◌*◌, ◌^◌, ◌≤◌, ◌<◌, ◌≡◌, refl, false, List, [], ◌∷◌, ◌++◌, length, arith,
  replicate, drop,
}
use capnproto_rust.Base.Outcome.{ok}
use capnproto_rust.Words.{Word, zero_word}
use capnproto_rust.Arena.Allocation.{Supplies}
use capnproto_rust.Message.{
  HeapAllocator, AllocationStrategy, fixed_size, grow_heuristically, grow, heap,
  heap_allocate_segment, max, zero_words, pre_drop, ScratchSpaceHeapAllocator,
}

grow-u32 : (s : AllocationStrategy) (n size : ℕ) → n < 2 ^ 32 → grow s n size < 2 ^ 32
unfolding grow
grow-u32 fixed_size n size h = h
grow-u32 grow_heuristically n size h = omega arith

max-u32 : (m n : ℕ) → m < 2 ^ 32 → n < 2 ^ 32 → (max m n < 2 ^ 32) × (m ≤ max m n)
max-u32 m n h k = (ground arith, ground arith)

-- A heap allocator whose next size is a `u32`.
abbrev pub HeapValid : HeapAllocator → Type 0
HeapValid a = a.next_size < 2 ^ 32

-- What a scratch space must be: a slice in memory.
pub record ScratchValid (a : ScratchSpaceHeapAllocator) : Type 0 where
  pub heap_valid : HeapValid a.allocator
  pub slice_u32 : length a.scratch_space.words < 2 ^ 32
  pub slice_in_memory : a.scratch_space.ptr + 8 * length a.scratch_space.words < 2 ^ 64

module _ (malloc : List (ℕ × ℕ) → ℕ → ℕ)
    (in_memory : (owned : List (ℕ × ℕ)) (size : ℕ)
      → size < 2 ^ 32
      → malloc owned size + 8 * size < 2 ^ 64) where
  -- The heap allocator gives what a message asks for, in every state, even where `next_size` wraps.
  pub heap-Supplies :
      (minimum_size : ℕ) (a : HeapAllocator)
      → minimum_size < 2 ^ 32
      → HeapValid a
      → Supplies (heap malloc) HeapValid minimum_size a
  unfolding heap_allocate_segment
  heap-Supplies minimum_size a h v =
      let (u, e) = max-u32 minimum_size a.next_size h v in
      record {
        enough = e;
        placed = record {
          size_u32 = u;
          in_memory = in_memory a.owned_memory (max minimum_size a.next_size) u;
        };
        valid = grow-u32 a.allocation_strategy a.next_size (max minimum_size a.next_size) v;
      }

zero_words_lem :
    (n : ℕ) (ws : List Word)
    → n ≤ length ws
    → zero_words n ws ≡ ok (replicate n zero_word ++ drop n ws)
unfolding zero_words
zero_words_lem zero ws h = refl
zero_words_lem (suc n) [] h = absurd (omega arith)
zero_words_lem (suc n) (w ∷ ws) h = rw (zero_words_lem n ws (omega arith)) refl

-- When a message is dropped, the words that its first segment had taken of the scratch space, which it
-- cannot have overrun, are zero again, the other words are as they were, and the next message may use
-- the space.
pub pre_drop_lem :
    (n : ℕ) (a : ScratchSpaceHeapAllocator)
    → n ≤ length a.scratch_space.words
    → pre_drop n a
      ≡ ok (record a {
        scratch_space = record a.scratch_space {
          words = replicate n zero_word ++ drop n a.scratch_space.words;
          in_use = false;
        };
      })
unfolding pre_drop
pre_drop_lem n a h = rw (pre_drop, zero_words_lem n a.scratch_space.words h) refl
