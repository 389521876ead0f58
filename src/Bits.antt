-- ===== src/Bits.antt =====
-- Machine words as native numbers: the bit operators that Rust applies to `u32` and smaller
-- unsigned integers, and `trailing_zeros` and `count_ones` of the core library.
pub mod Step
pub mod Laws
pub mod Shift
pub mod Scan
pub mod Masks
pub mod Lowest
pub use Prim.Native.Nat.{bit_and, bit_or}
use f1c100s_rs.Base.{ℕ, zero, suc, ◌+◌, ◌-◌, ◌*◌, ◌/◌, ◌%◌, ◌^◌, Bool, ◌==◌, if◌then◌else◌}

abbrev pub u32_mod : ℕ
u32_mod = 2 ^ 32

abbrev pub u32_max : ℕ
u32_max = 0xffff_ffff

-- Bit `i` of `x`.
unfoldable pub test_bit : ℕ → ℕ → Bool
test_bit x zero = x % 2 == 1
test_bit x (suc i) = test_bit (x / 2) i

-- `1u32 << p`; a release build takes the shift count modulo 32.
unfoldable pub bit : ℕ → ℕ
bit p = 2 ^ (p % 32)

-- `!x` on `u32`.
unfoldable pub not32 : ℕ → ℕ
not32 x = u32_max - x

-- `x << k` on `u32`.
unfoldable pub shl32 : ℕ → ℕ → ℕ
shl32 x k = x * 2 ^ (k % 32) % u32_mod

-- `x >> k` on `u32`.
unfoldable pub shr32 : ℕ → ℕ → ℕ
shr32 x k = x / 2 ^ (k % 32)

-- The position of the lowest set bit among the lowest `n`, and `n` if there is none.
unfoldable pub lowest_of : ℕ → ℕ → ℕ
lowest_of zero x = 0
lowest_of (suc n) x = if x % 2 == 1 then 0 else suc (lowest_of n (x / 2))

-- `u32::trailing_zeros`.
unfoldable pub trailing_zeros : ℕ → ℕ
unfolding lowest_of
trailing_zeros x = lowest_of 32 x

-- The number of set bits among the lowest `n`.
unfoldable pub ones_of : ℕ → ℕ → ℕ
ones_of zero x = 0
ones_of (suc n) x = x % 2 + ones_of n (x / 2)

-- `u32::count_ones`.
unfoldable pub count_ones : ℕ → ℕ
unfolding ones_of
count_ones x = ones_of 32 x

-- `x & (1 << i) != 0`, as the drivers test a flag.
unfoldable pub has_bit : ℕ → ℕ → Bool
has_bit x i = if bit_and x (bit i) == 0 then Bool.false else Bool.true
