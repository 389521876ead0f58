-- ===== src/Bits/Laws.antt =====
-- Each operator, bit by bit, and equality of words from their bits.
use native.Mathlib.Nat.{pow-suc, mod-eq_of_lt}
use f1c100s_rs.Base.{
  ℕ, zero, suc, ◌-◌, ◌/◌, ◌%◌, ◌^◌, ◌≤◌, ◌<◌, ◌≡◌, refl, false, not, ◌&&◌, ◌||◌, ◌∙◌, arith, ltb,
  ◌==◌,
}
use f1c100s_rs.Bits.{bit_and, bit_or, u32_mod, test_bit, bit, not32}
use f1c100s_rs.Bits.Step.{bit_and_step, bit_or_step}

pub test_bit-bit_or : (a b i : ℕ) → test_bit (bit_or a b) i ≡ (test_bit a i || test_bit b i)
unfolding test_bit
test_bit-bit_or a b zero = ground (arith, bit_or_step a b)
test_bit-bit_or a b (suc i) =
    let half : bit_or a b / 2 ≡ bit_or (a / 2) (b / 2) = omega (arith, bit_or_step a b) in
    rw half (test_bit-bit_or (a / 2) (b / 2) i)

pub test_bit-bit_and : (a b i : ℕ) → test_bit (bit_and a b) i ≡ (test_bit a i && test_bit b i)
unfolding test_bit
test_bit-bit_and a b zero = ground (arith, bit_and_step a b)
test_bit-bit_and a b (suc i) =
    let half : bit_and a b / 2 ≡ bit_and (a / 2) (b / 2) = omega (arith, bit_and_step a b) in
    rw half (test_bit-bit_and (a / 2) (b / 2) i)

pub zero-test_bit : (i : ℕ) → test_bit 0 i ≡ false
unfolding test_bit
zero-test_bit zero = refl
zero-test_bit (suc i) = zero-test_bit i

one-test_bit : (i : ℕ) → test_bit 1 i ≡ (i == 0)
unfolding test_bit
one-test_bit zero = refl
one-test_bit (suc i) = rw (zero-test_bit i) (ground arith)

pub test_bit-pow : (k i : ℕ) → test_bit (2 ^ k) i ≡ (i == k)
unfolding test_bit
test_bit-pow zero i = one-test_bit i
test_bit-pow (suc k) zero = ground (arith, pow-suc 2 k)
test_bit-pow (suc k) (suc i) =
    let half : 2 ^ suc k / 2 ≡ 2 ^ k = omega (arith, pow-suc 2 k) in
    rw half (test_bit-pow k i ∙ ground arith)

pub test_bit-bit : (p i : ℕ) → p < 32 → test_bit (bit p) i ≡ (i == p)
unfolding bit
test_bit-bit p i h = rw (mod-eq_of_lt h) (test_bit-pow p i)

-- The complement in `w` bits.
pub test_bit-complement :
    (w x i : ℕ) → x < 2 ^ w → test_bit (2 ^ w - 1 - x) i ≡ (ltb i w && not (test_bit x i))
unfolding test_bit
test_bit-complement zero x i h =
    let e : 2 ^ 0 - 1 - x ≡ 0 = omega arith in rw (e, zero-test_bit i) (ground arith)
test_bit-complement (suc w) x zero h = ground (arith, pow-suc 2 w)
test_bit-complement (suc w) x (suc i) h =
    let half : (2 ^ suc w - 1 - x) / 2 ≡ 2 ^ w - 1 - x / 2 = omega (arith, pow-suc 2 w) in
    rw half (test_bit-complement w (x / 2) i (omega (arith, pow-suc 2 w)) ∙ ground arith)

pub test_bit-not32 :
    (x i : ℕ) → x < u32_mod → test_bit (not32 x) i ≡ (ltb i 32 && not (test_bit x i))
unfolding not32
test_bit-not32 x i h = test_bit-complement 32 x i h

-- Words with the same bits are equal.
pub eq_of_bits : (n a b : ℕ) → a ≤ n → b ≤ n → ((i : ℕ) → test_bit a i ≡ test_bit b i) → a ≡ b
unfolding test_bit
eq_of_bits zero a b ha hb h = omega arith
eq_of_bits (suc n) a b ha hb h =
    let low : (a % 2 == 1) ≡ (b % 2 == 1) = h 0 in
    let high : a / 2 ≡ b / 2 =
      eq_of_bits n (a / 2) (b / 2) (omega arith) (omega arith) (λ i. h (suc i)) in
    ground (arith, low, high)
