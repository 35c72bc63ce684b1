-- ===== src/Arena.antt =====
-- The segments of a message in memory and the limit on reading them (src/private/arena.rs). An
-- address is a number of bytes below 2 ^ 64, as `usize` holds it.
pub mod Limit
pub mod Builder
pub mod Segment
pub mod Granted
pub mod Allocation
pub mod Apart
pub mod Reader
mod Tests
use capnproto_rust.Base.{
  ℕ, ◌+◌, ◌-◌, ◌*◌, ◌/◌, ◌%◌, ◌^◌, ◌≤◌, ◌<◌, ◌≡◌, Bool, true, false, Option, none, some, ltb, leb,
  ◌&&◌, if◌then◌else◌,
}
use capnproto_rust.Base.Outcome.{Outcome, ok, >>=-eq-ok, ◌>>=◌, ◌>>◌, assert}

-- `ptr.offset(n)` of a pointer to words
abbrev pub offset : ℕ → ℕ → ℕ
offset ptr n = (ptr + 8 * n) % 2 ^ 64

-- `ReadLimiter`: the words that may still be read. All readers of a message share it, so it is passed
-- on as a state.
abbrev pub ReadLimiter : Type 0
ReadLimiter = ℕ

unfoldable pub can_read : ReadLimiter → ℕ → Bool × ReadLimiter
can_read limit amount = if ltb limit amount then (false, limit) else (true, limit - amount)

-- `SegmentReader`, less the arena that it points back to and the shared limiter.
pub record SegmentReader : Type 0 where
  pub ptr : ℕ
  pub size : ℕ

abbrev pub get_start_ptr : SegmentReader → ℕ
get_start_ptr s = s.ptr

-- The limiter is asked only after the three comparisons.
unfoldable pub contains_interval : SegmentReader → ℕ → ℕ → ReadLimiter → Bool × ReadLimiter
contains_interval s from to limit =
    if leb s.ptr from && leb to (offset s.ptr s.size) && leb from to
    then can_read limit ((to - from) / 8)
    else (false, limit)

abbrev pub amplified_read : SegmentReader → ℕ → ReadLimiter → Bool × ReadLimiter
amplified_read s virtual_amount limit = can_read limit virtual_amount

-- `SegmentBuilder`: `pos` is where the next object goes.
pub record SegmentBuilder : Type 0 where
  pub reader : SegmentReader
  pub id : ℕ
  pub pos : ℕ

-- `SegmentBuilder::new`
abbrev pub new_segment : ℕ → ℕ → ℕ → SegmentBuilder
new_segment id ptr size = record { reader = record { ptr = ptr; size = size }; id = id; pos = ptr }

unfoldable pub get_word_offset_to : SegmentBuilder → ℕ → Outcome ℕ
get_word_offset_to s ptr = assert (leb s.reader.ptr ptr) >> ok ((ptr - s.reader.ptr) / 8 % 2 ^ 32)

unfoldable pub current_size : SegmentBuilder → ℕ
current_size s = (s.pos - s.reader.ptr) / 8 % 2 ^ 32

-- `SegmentBuilder::allocate`. The subtraction does not wrap on a valid segment.
unfoldable pub allocate_in : SegmentBuilder → ℕ → Option (ℕ × SegmentBuilder)
allocate_in s amount =
    if ltb (s.reader.size - current_size s) amount
    then none
    else some (s.pos, record s { pos = offset s.pos amount })

abbrev pub get_ptr_unchecked : SegmentBuilder → ℕ → ℕ
get_ptr_unchecked s n = offset s.reader.ptr n

-- `currently_allocated`: the address and the length of the slice.
abbrev pub currently_allocated : SegmentBuilder → ℕ × ℕ
currently_allocated s = (get_ptr_unchecked s 0, current_size s)

-- A segment that lies in memory.
pub record IsPlaced (s : SegmentReader) : Type 0 where
  pub size_u32 : s.size < 2 ^ 32
  pub in_memory : s.ptr + 8 * s.size < 2 ^ 64

-- A segment that is being built: `used` of its words are taken.
pub record HasUsed (s : SegmentBuilder) (used : ℕ) : Type 0 where
  pub placed : IsPlaced s.reader
  pub position : s.pos ≡ s.reader.ptr + 8 * used
  pub fits : used ≤ s.reader.size
