-- ===== src/Words/LittleEndian.antt =====
-- A `u32` that is written and read back, little end first.
use capnproto_rust.Base.{ℕ, ◌/◌, ◌%◌, ◌^◌, ◌≡◌, arith}
use capnproto_rust.Words.{read_u32}

pub read_u32_digits :
    (n : ℕ) → read_u32 (n % 256) (n / 256 % 256) (n / 65536 % 256) (n / 16777216 % 256) ≡ n % 2 ^ 32
read_u32_digits n = omega arith
