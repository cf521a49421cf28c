-- ===== src/Base/Word.antt =====
-- Machine integers as bit patterns: `int` and `unsigned` by 32 bits, `u64` and `size_t` by 64.
-- The kernel is compiled with wrapping signed arithmetic, so `++` and `--` are the same on both.
use Prim.Native.Nat.{ℕ, ◌+◌, ◌-◌, ◌*◌, ◌%◌, ◌^◌, ◌<◌}
use mathlib.Core.Path.{◌≡◌}
use mathlib.Core.Bool.{Bool}
use native.Mathlib.Omega.{arith}
use femu_on_virt.Base.Test.{ltb, if◌then◌else◌}

abbrev pub w32 : ℕ → ℕ
w32 a = a % 2 ^ 32

abbrev pub inc32 : ℕ → ℕ
inc32 a = (a + 1) % 2 ^ 32

abbrev pub dec32 : ℕ → ℕ
dec32 a = (a + (2 ^ 32 - 1)) % 2 ^ 32

abbrev pub add32 : ℕ → ℕ → ℕ
add32 a b = (a + b) % 2 ^ 32

abbrev pub sub32 : ℕ → ℕ → ℕ
sub32 a b = (a + 2 ^ 32 - b) % 2 ^ 32

abbrev pub mul32 : ℕ → ℕ → ℕ
mul32 a b = (a * b) % 2 ^ 32

-- `a < b` and `a <= b` on `int`: the patterns from 2^31 on are the negative numbers.
abbrev pub slt32 : ℕ → ℕ → Bool
slt32 a b = ltb ((a + 2 ^ 31) % 2 ^ 32) ((b + 2 ^ 31) % 2 ^ 32)

-- `int` to `u64`
abbrev pub sext64 : ℕ → ℕ
sext64 a = if ltb a (2 ^ 31) then a else a + (2 ^ 64 - 2 ^ 32)

abbrev pub w64 : ℕ → ℕ
w64 a = a % 2 ^ 64

abbrev pub add64 : ℕ → ℕ → ℕ
add64 a b = (a + b) % 2 ^ 64

abbrev pub sub64 : ℕ → ℕ → ℕ
sub64 a b = (a + 2 ^ 64 - b) % 2 ^ 64

-- All ones: `-1` as `unsigned` or `int`, and `~0ULL`.
abbrev pub minus_one32 : ℕ
minus_one32 = 2 ^ 32 - 1

abbrev pub ones64 : ℕ
ones64 = 2 ^ 64 - 1

pub inc32-small : (a : ℕ) → a + 1 < 2 ^ 32 → inc32 a ≡ a + 1
inc32-small a h = omega arith

pub dec32-pos : (a : ℕ) → 0 < a → a < 2 ^ 32 → dec32 a ≡ a - 1
dec32-pos a h k = omega arith
