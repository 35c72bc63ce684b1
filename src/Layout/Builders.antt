-- ===== src/Layout/Builders.antt =====
-- What is written into a message through `StructBuilder`, `ListBuilder` and `PointerBuilder`
-- (src/private/layout.rs). Here: single bits.
pub mod StructFields
pub mod ListElements
pub mod Pointers
pub mod Bits
pub mod Stored
pub mod Returned
mod Tests
use capnproto_rust.Base.{ℕ, ◌+◌, ◌-◌, ◌*◌, ◌/◌, ◌%◌, ◌^◌, Bool, ◌==◌, not, if◌then◌else◌}
use capnproto_rust.Layout.Memory.{Memory}
use capnproto_rust.Layout.Building.{write_number}

-- The bit of a byte
abbrev pub bit_at : ℕ → ℕ → Bool
bit_at b bitnum = not (b / 2 ^ bitnum % 2 == 0)

-- `(b & !(1 << bitnum)) | (value << bitnum)`
unfoldable pub set_bit : ℕ → ℕ → Bool → ℕ
set_bit b bitnum value = b - b / 2 ^ bitnum % 2 * 2 ^ bitnum + (if value then 1 else 0) * 2 ^ bitnum

-- The bit `index` after the byte at `start`
unfoldable pub write_bit : ℕ → ℕ → Bool → Memory → Memory
write_bit start index value mem =
    let a = start + index / 8 in write_number a 1 (set_bit (mem a) (index % 8) value) mem

unfoldable pub read_bit : Memory → ℕ → ℕ → Bool
read_bit mem start index = bit_at (mem (start + index / 8)) (index % 8)
