-- ===== src/Base/Word.antt =====
-- Arithmetic on `usize` (64 bits) and `u16`. A debug build checks for overflow and panics; a release
-- build wraps around.
use Prim.Native.Nat.{ℕ, ◌+◌, ◌-◌, ◌%◌, ◌^◌, ◌<◌}
use mathlib.Core.Path.{◌≡◌}
use native.Mathlib.Omega.{arith}
use fractalnetworks_gateway.Base.Tests.{ltb, leb, if◌then◌else◌}
use fractalnetworks_gateway.Base.Result.{Result, ok, panic}

pub data Build : Type 0 where
  debug release : Build

abbrev pub usize_size : ℕ
usize_size = 2 ^ 64

abbrev pub u16_size : ℕ
u16_size = 2 ^ 16

-- What a checked operation gives out of range.
abbrev pub overflowed : Build → ℕ → Result ℕ
overflowed debug n = panic
overflowed release n = ok n

unfoldable pub add_usize : Build → ℕ → ℕ → Result ℕ
add_usize b m n = if ltb (m + n) usize_size then ok (m + n) else overflowed b ((m + n) % usize_size)

unfoldable pub sub_usize : Build → ℕ → ℕ → Result ℕ
sub_usize b m n = if leb n m then ok (m - n) else overflowed b ((m + usize_size - n) % usize_size)

unfoldable pub add_u16 : Build → ℕ → ℕ → Result ℕ
add_u16 b m n = if ltb (m + n) u16_size then ok (m + n) else overflowed b ((m + n) % u16_size)

abbrev pub u32_size : ℕ
u32_size = 2 ^ 32

unfoldable pub add_u32 : Build → ℕ → ℕ → Result ℕ
add_u32 b m n = if ltb (m + n) u32_size then ok (m + n) else overflowed b ((m + n) % u32_size)

pub add_u32_small : (b : Build) (m n : ℕ) → m + n < u32_size → add_u32 b m n ≡ ok (m + n)
unfolding add_u32
add_u32_small b m n h = ground arith

-- Whatever the build, a sum that is returned is the sum modulo the word.
pub add_usize-mod : (b : Build) (m n s : ℕ) → add_usize b m n ≡ ok s → s ≡ (m + n) % usize_size
unfolding add_usize
add_usize-mod b m n s h = ground arith

pub add_usize-release : (m n : ℕ) → add_usize release m n ≡ ok ((m + n) % usize_size)
unfolding add_usize
add_usize-release m n = ground arith
