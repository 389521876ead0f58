-- ===== src/Bits/Shift.antt =====
-- Shifts and width, bit by bit.
use native.Mathlib.Nat.{
  pow-suc, pow-succ', mod-eq_of_lt, mod-lt, pow-le-pow_right, mod-eq-sub-mul-div,
  div-div-eq-div-mul, mul-div-le, mul_comm,
}
use f1c100s_rs.Base.{
  ℕ, zero, suc, ◌+◌, ◌-◌, ◌*◌, ◌/◌, ◌%◌, ◌^◌, ◌≤◌, ◌<◌, ◌≡◌, ap, ◌∙◌, false, ◌&&◌, arith, ltb, leb,
}
use f1c100s_rs.Bits.{u32_mod, test_bit, bit, shl32, shr32}
use f1c100s_rs.Bits.Laws.{zero-test_bit}

mod_double : (x m : ℕ) → x % (2 * m) ≡ x / 2 % m * 2 + x % 2
mod_double x m = omega (
  arith,
  mod-eq-sub-mul-div x (2 * m),
  mod-eq-sub-mul-div (x / 2) m,
  ap (λ (t : ℕ). m * t) (div-div-eq-div-mul x 2 m),
  mul-div-le (x / 2) m,
)

-- Cutting a number down to `w` bits.
pub test_bit-mod : (w x i : ℕ) → test_bit (x % 2 ^ w) i ≡ (ltb i w && test_bit x i)
unfolding test_bit
test_bit-mod zero x i =
    let e : x % 2 ^ 0 ≡ 0 = omega arith in rw (e, zero-test_bit i) (ground arith)
test_bit-mod (suc w) x zero = rw (pow-succ' 2 w, mod_double x (2 ^ w)) (ground arith)
test_bit-mod (suc w) x (suc i) =
    let half : x % 2 ^ suc w / 2 ≡ x / 2 % 2 ^ w =
      rw (pow-succ' 2 w, mod_double x (2 ^ w)) (omega arith) in
    rw half (test_bit-mod w (x / 2) i ∙ ground arith)

-- Shifting up by `k`.
pub test_bit-mul_pow : (k x i : ℕ) → test_bit (x * 2 ^ k) i ≡ (leb k i && test_bit x (i - k))
unfolding test_bit
test_bit-mul_pow zero x i =
    let e : x * 2 ^ 0 ≡ x = omega arith in
    let f : i - 0 ≡ i = omega arith in rw (e, f) (ground arith)
test_bit-mul_pow (suc k) x zero =
    let even : x * 2 ^ suc k % 2 ≡ 0 = omega (arith, ap (λ (t : ℕ). x * t) (pow-suc 2 k)) in
    let short : leb (suc k) 0 ≡ false = ground arith in rw (even, short)
test_bit-mul_pow (suc k) x (suc i) =
    let half : x * 2 ^ suc k / 2 ≡ x * 2 ^ k = omega (arith, ap (λ (t : ℕ). x * t) (pow-suc 2 k)) in
    let f : suc i - suc k ≡ i - k = omega arith in
    rw (half, f) (test_bit-mul_pow k x i ∙ ground arith)

pub test_bit-shl32 :
    (x k i : ℕ) → k < 32 → test_bit (shl32 x k) i ≡ (ltb i 32 && (leb k i && test_bit x (i - k)))
unfolding shl32
test_bit-shl32 x k i h =
    rw (mod-eq_of_lt h)
      (test_bit-mod 32 (x * 2 ^ k) i ∙ ap (λ b. ltb i 32 && b) (test_bit-mul_pow k x i))

-- Shifting down by `k`.
pub test_bit-div_pow : (k x i : ℕ) → test_bit (x / 2 ^ k) i ≡ test_bit x (i + k)
unfolding test_bit
test_bit-div_pow zero x i =
    let e : x / 2 ^ 0 ≡ x = omega arith in let f : i + 0 ≡ i = omega arith in rw (e, f)
test_bit-div_pow (suc k) x i =
    let e : x / 2 ^ suc k ≡ x / 2 / 2 ^ k =
      rw (pow-suc 2 k, mul_comm (2 ^ k) 2, div-div-eq-div-mul x 2 (2 ^ k)) in
    let f : i + suc k ≡ suc (i + k) = omega arith in rw (e, f) (test_bit-div_pow k (x / 2) i)

pub test_bit-shr32 : (x k i : ℕ) → k < 32 → test_bit (shr32 x k) i ≡ test_bit x (i + k)
unfolding shr32
test_bit-shr32 x k i h = rw (mod-eq_of_lt h) (test_bit-div_pow k x i)

-- A word has no bit at 32 or above.
pub test_bit-high : (x i : ℕ) → x < u32_mod → 32 ≤ i → test_bit x i ≡ false
test_bit-high x i h hi =
    let e : x % 2 ^ 32 ≡ x = omega arith in (rw e at (test_bit-mod 32 x i)) ∙ ground arith

pub bit-lt : (p : ℕ) → bit p < u32_mod
unfolding bit
bit-lt p = omega (
  arith,
  pow-le-pow_right {n = 2} (omega arith) {i = p % 32} {j = 31}
      (omega (arith, mod-lt p {m = 32} (omega arith))),
)
