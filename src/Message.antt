-- ===== src/Message.antt =====
-- Options, allocators and roots of messages (src/message.rs). Memory comes from `malloc`, a parameter:
-- the address of a zeroed vector of the given number of words, given those there are already.
pub mod Allocators
pub mod Root
pub mod Access
mod Tests
use capnproto_rust.Base.{
  ℕ, zero, suc, ◌+◌, ◌*◌, ◌%◌, ◌^◌, Bool, true, false, List, [], ◌∷◌, ◌++◌, Option, none, some,
  length, get_elem?, ◌==◌, ltb, if◌then◌else◌,
}
use capnproto_rust.Base.Outcome.{Outcome, ok, fault, panicked, overrun, ◌>>=◌, ◌>>◌, assert}
use capnproto_rust.Words.{Word, zero_word, allocate_zeroed_vec}
use capnproto_rust.Serialize.{ReaderOptions}
use capnproto_rust.Arena.{current_size, allocate_in, get_ptr_unchecked}
use capnproto_rust.Arena.Builder.{Allocator, BuilderArena}

abbrev pub default_reader_options : ReaderOptions
default_reader_options = record { traversal_limit_in_words = 8 * 1024 * 1024; nesting_limit = 64 }

abbrev pub set_nesting_limit : ReaderOptions → ℕ → ReaderOptions
set_nesting_limit options value = record options { nesting_limit = value }

abbrev pub set_traversal_limit_in_words : ReaderOptions → ℕ → ReaderOptions
set_traversal_limit_in_words options value = record options { traversal_limit_in_words = value }

-- `SegmentArray`, as a list of the address and the length of each slice.
abbrev pub SegmentArray : Type 0
SegmentArray = List (ℕ × ℕ)

unfoldable pub array_segment : SegmentArray → ℕ → Option (ℕ × ℕ)
array_segment segments id = get_elem? segments id

pub data AllocationStrategy : Type 0 where
  fixed_size grow_heuristically : AllocationStrategy

-- `owned_memory`: the address and the length of each vector.
pub record HeapAllocator : Type 0 where
  pub owned_memory : List (ℕ × ℕ)
  pub next_size : ℕ
  pub allocation_strategy : AllocationStrategy

-- `HeapAllocator::new`, with the suggested size and strategy
abbrev pub new_heap_allocator : HeapAllocator
new_heap_allocator = record {
  owned_memory = [];
  next_size = 1024;
  allocation_strategy = grow_heuristically;
}

abbrev pub first_segment_words : HeapAllocator → ℕ → HeapAllocator
first_segment_words a value = record a { next_size = value }

abbrev pub set_allocation_strategy : HeapAllocator → AllocationStrategy → HeapAllocator
set_allocation_strategy a value = record a { allocation_strategy = value }

abbrev pub max : ℕ → ℕ → ℕ
max a b = if ltb a b then b else a

-- `self.next_size += size` on a `u32`, which wraps in a release build.
unfoldable pub grow : AllocationStrategy → ℕ → ℕ → ℕ
grow grow_heuristically next_size size = (next_size + size) % 2 ^ 32
grow fixed_size next_size size = next_size

module _ (malloc : List (ℕ × ℕ) → ℕ → ℕ) where
  unfoldable pub heap_allocate_segment : ℕ → HeapAllocator → (ℕ × ℕ) × HeapAllocator
  heap_allocate_segment minimum_size a =
      let size = max minimum_size a.next_size in
      let ptr = malloc a.owned_memory size in
      (
        (ptr, size),
        record a {
          owned_memory = a.owned_memory ++ ((ptr, size) ∷ []);
          next_size = grow a.allocation_strategy a.next_size size;
        },
      )

  abbrev pub heap : Allocator
  heap = record { State = HeapAllocator; allocate_segment = heap_allocate_segment }

-- `ScratchSpace`: the address of the slice, its words, and whether a message has it.
pub record ScratchSpace : Type 0 where
  pub ptr : ℕ
  pub words : List Word
  pub in_use : Bool

abbrev pub new_scratch_space : ℕ → List Word → ScratchSpace
new_scratch_space ptr words = record { ptr = ptr; words = words; in_use = false }

pub record ScratchSpaceHeapAllocator : Type 0 where
  pub scratch_space : ScratchSpace
  pub allocator : HeapAllocator

abbrev pub new_scratch_allocator : ScratchSpace → ScratchSpaceHeapAllocator
new_scratch_allocator s = record { scratch_space = s; allocator = new_heap_allocator }

abbrev pub second_segment_words : ScratchSpaceHeapAllocator → ℕ → ScratchSpaceHeapAllocator
second_segment_words a value = record a { allocator = first_segment_words a.allocator value }

abbrev pub set_second_allocation_strategy :
    ScratchSpaceHeapAllocator → AllocationStrategy → ScratchSpaceHeapAllocator
set_second_allocation_strategy a value = record a {
  allocator = set_allocation_strategy a.allocator value;
}

-- `ptr::write_bytes(ptr, 0u8, n)` on words. Beyond the slice it would be out of bounds.
unfoldable pub zero_words : ℕ → List Word → Outcome (List Word)
zero_words zero ws = ok ws
zero_words (suc n) [] = fault overrun
zero_words (suc n) (w ∷ ws) = zero_words n ws >>= λ vs. ok (zero_word ∷ vs)

-- `pre_drop`, which also happens when the message is dropped.
unfoldable pub pre_drop : ℕ → ScratchSpaceHeapAllocator → Outcome ScratchSpaceHeapAllocator
pre_drop segment0_currently_allocated a =
    zero_words segment0_currently_allocated a.scratch_space.words >>= λ ws.
    ok (record a { scratch_space = record a.scratch_space { words = ws; in_use = false } })

module _ (malloc : List (ℕ × ℕ) → ℕ → ℕ) where
  unfoldable pub scratch_allocate_segment :
      ℕ → ScratchSpaceHeapAllocator → (ℕ × ℕ) × ScratchSpaceHeapAllocator
  scratch_allocate_segment minimum_size a =
      let (block, b) = heap_allocate_segment malloc minimum_size a.allocator in
      if a.scratch_space.in_use then (block, record a { allocator = b }) else (
        (a.scratch_space.ptr, length a.scratch_space.words % 2 ^ 32),
        record a { scratch_space = record a.scratch_space { in_use = true } },
      )

  abbrev pub scratch : Allocator
  scratch = record {
    State = ScratchSpaceHeapAllocator;
    allocate_segment = scratch_allocate_segment;
  }

module _ (A : Allocator) (Cap : Type 0) where
  -- `Builder::get_root_internal`: the address of the root pointer.
  unfoldable pub get_root_internal : BuilderArena A Cap → Outcome (ℕ × BuilderArena A Cap)
  get_root_internal arena =
      if current_size arena.segment0 == 0
      then elim (allocate_in arena.segment0 1) [
        | none ↦ fault panicked
        | some (location, s) ↦
            assert (location == get_ptr_unchecked s 0)
            >> ok (location, record arena { segment0 = s })
      ]
      else ok (get_ptr_unchecked arena.segment0 0, arena)
