-- ===== src/Prelude/Words.antt =====
-- Casts and shifts of machine words; `usize` has 64 bits.
use Prim.Native.Nat.{ℕ, ◌*◌, ◌/◌, ◌%◌, ◌^◌}

abbrev pub u8 : ℕ → ℕ
u8 n = n % 2 ^ 8

abbrev pub u16 : ℕ → ℕ
u16 n = n % 2 ^ 16

-- A left shift loses the bits above the word.
abbrev pub shl_u64 : ℕ → ℕ → ℕ
shl_u64 x k = x * 2 ^ k % 2 ^ 64

abbrev pub shl_u16 : ℕ → ℕ → ℕ
shl_u16 x k = x * 2 ^ k % 2 ^ 16

abbrev pub shr : ℕ → ℕ → ℕ
shr x k = x / 2 ^ k
