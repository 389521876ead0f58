-- ===== src/Bits/Scan.antt =====
-- `trailing_zeros` finds the lowest set bit.
use f1c100s_rs.Base.{ℕ, zero, suc, ◌/◌, ◌^◌, ◌≤◌, ◌<◌, ◌≡◌, ◌≢◌, true, false, arith}
use native.Mathlib.Nat.{pow-suc}
use native.Mathlib.Decide.{dec_lt}
use f1c100s_rs.Bits.{test_bit, lowest_of, trailing_zeros, u32_mod}
use f1c100s_rs.Bits.Laws.{zero-test_bit}

lowest_of-set :
    (n x : ℕ) → x ≢ 0 → x < 2 ^ n → (lowest_of n x < n) × (test_bit x (lowest_of n x) ≡ true)
unfolding lowest_of test_bit
lowest_of-set zero x h lt = absurd (omega arith)
lowest_of-set (suc n) x h lt = ground (arith, pow-suc 2 n, lowest_of-set n (x / 2))

lowest_of-clear : (n x i : ℕ) → i < lowest_of n x → test_bit x i ≡ false
unfolding lowest_of test_bit
lowest_of-clear zero x i h = absurd (omega arith)
lowest_of-clear (suc n) x zero h = ground arith
lowest_of-clear (suc n) x (suc i) h = ground (arith, lowest_of-clear n (x / 2) i)

-- In a word that is not zero, the bit found is set.
pub trailing_zeros-set :
    (x : ℕ) → x ≢ 0 → x < u32_mod → (trailing_zeros x < 32) × (test_bit x (trailing_zeros x) ≡ true)
unfolding trailing_zeros
trailing_zeros-set x h lt = lowest_of-set 32 x h lt

-- No lower bit is set.
pub trailing_zeros-clear : (x i : ℕ) → i < trailing_zeros x → test_bit x i ≡ false
unfolding trailing_zeros
trailing_zeros-clear x i h = lowest_of-clear 32 x i h

-- A set bit is not below the one found.
pub trailing_zeros-le : (x i : ℕ) → test_bit x i ≡ true → trailing_zeros x ≤ i
trailing_zeros-le x i h = elim (dec_lt i (trailing_zeros x)) [
  | yes p ↦ cc (h, trailing_zeros-clear x i p)
  | no p ↦ omega arith
]

-- A word with a set bit is not zero.
pub ne_zero_of_test_bit : (x i : ℕ) → test_bit x i ≡ true → x ≢ 0
ne_zero_of_test_bit x i h e = cc (h, e, zero-test_bit i)
