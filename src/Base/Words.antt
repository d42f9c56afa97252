-- ===== src/Base/Words.antt =====
-- The bounds of the machine's integers, on a target of 64 bits.
use Prim.Native.Nat.{ℕ, ◌-◌, ◌^◌, ◌<◌}

abbrev pub IsU8 : ℕ → Type 0
IsU8 n = n < 256

abbrev pub IsU16 : ℕ → Type 0
IsU16 n = n < 65536

abbrev pub u64_mod : ℕ
u64_mod = 2 ^ 64

-- `isize::MAX`: no allocation is larger.
abbrev pub isize_max : ℕ
isize_max = 2 ^ 63 - 1
