-- ===== src/Bits/Lowest.antt =====
-- `x & (x - 1)` takes the lowest set bit out of `x`.
use native.Mathlib.Nat.{pow-suc}
use f1c100s_rs.Base.{
  ℕ, zero, suc, ◌+◌, ◌-◌, ◌/◌, ◌%◌, ◌^◌, ◌≤◌, ◌<◌, ◌≡◌, ◌≢◌, refl, ◌∙◌, Bool, true, false, not,
  ◌&&◌, ◌==◌, inl, inr, arith, lt_or_ge, ltb, sym,
}
use f1c100s_rs.Bits.{bit_and, test_bit, lowest_of, trailing_zeros, u32_mod, not32}
use f1c100s_rs.Bits.Step.{bit_and_step}
use f1c100s_rs.Bits.Laws.{test_bit-bit_and, test_bit-not32, eq_of_bits, zero-test_bit}
use f1c100s_rs.Bits.Masks.{bit_and-le}

pub bit_and_comm : (a b : ℕ) → bit_and a b ≡ bit_and b a
bit_and_comm a b =
    eq_of_bits (bit_and a b + bit_and b a) (bit_and a b) (bit_and b a) (omega arith) (omega arith)
      (λ i.
        test_bit-bit_and a b i
        ∙ and_comm (test_bit a i) (test_bit b i)
        ∙ sym (test_bit-bit_and b a i))
  where
    and_comm : (p q : Bool) → (p && q) ≡ (q && p)
    and_comm true true = refl
    and_comm true false = refl
    and_comm false true = refl
    and_comm false false = refl

pub bit_and_same : (a : ℕ) → bit_and a a ≡ a
bit_and_same a =
    eq_of_bits (bit_and a a + a) (bit_and a a) a (omega arith) (omega arith)
      (λ i. test_bit-bit_and a a i ∙ and_same (test_bit a i))
  where
    and_same : (p : Bool) → (p && p) ≡ p
    and_same true = refl
    and_same false = refl

-- Each round of a loop over the set bits makes its mask smaller.
pub drop_lowest-lt : (x : ℕ) → x ≢ 0 → bit_and x (x - 1) < x
drop_lowest-lt x ne =
    rw (bit_and_comm x (x - 1)) (omega (arith, bit_and-le (x - 1) (x - 1) x (omega arith)))

half_even : (x : ℕ) → x ≢ 0 → x % 2 < 1 → bit_and x (x - 1) / 2 ≡ bit_and (x / 2) (x / 2 - 1)
half_even x ne even =
    let e : (x - 1) / 2 ≡ x / 2 - 1 = omega arith in
    rw (sym e) (omega (arith, bit_and_step x (x - 1)))

half_odd : (x : ℕ) → 1 ≤ x % 2 → bit_and x (x - 1) / 2 ≡ x / 2
half_odd x odd =
    let e : (x - 1) / 2 ≡ x / 2 = omega arith in
    let same : bit_and (x / 2) ((x - 1) / 2) ≡ x / 2 = rw e (bit_and_same (x / 2)) in
    omega (arith, bit_and_step x (x - 1), same)

drop_lowest-digits :
    (n x j : ℕ)
    → x ≢ 0
    → x < 2 ^ n
    → test_bit (bit_and x (x - 1)) j ≡ (test_bit x j && not (j == lowest_of n x))
unfolding test_bit lowest_of
drop_lowest-digits zero x j ne lt = absurd (omega arith)
drop_lowest-digits (suc n) x zero ne lt = ground (arith, bit_and_step x (x - 1))
drop_lowest-digits (suc n) x (suc j) ne lt = elim (lt_or_ge (x % 2) 1) [
  | inl even ↦
      let step =
        drop_lowest-digits n (x / 2) j (λ z. absurd (omega arith)) (omega (arith, pow-suc 2 n)) in
      rw (half_even x ne even) (step ∙ ground arith)
  | inr odd ↦ rw (half_odd x odd) (ground arith)
]

pub test_bit-drop_lowest :
    (x j : ℕ)
    → x ≢ 0
    → x < u32_mod
    → test_bit (bit_and x (x - 1)) j ≡ (test_bit x j && not (j == trailing_zeros x))
unfolding trailing_zeros
test_bit-drop_lowest x j ne lt = drop_lowest-digits 32 x j ne lt

-- `x & !y & y` is zero.
pub bit_and-away : (x y : ℕ) → y < u32_mod → bit_and (bit_and x (not32 y)) y ≡ 0
bit_and-away x y h =
    let cleared = bit_and (bit_and x (not32 y)) y in
    eq_of_bits cleared cleared 0 (omega arith) (omega arith) (λ i.
      rw
        (
          test_bit-bit_and (bit_and x (not32 y)) y i,
          test_bit-bit_and x (not32 y) i,
          test_bit-not32 y i h,
          zero-test_bit i,
        )
        (away (test_bit x i) (ltb i 32) (test_bit y i)))
  where
    away : (p r q : Bool) → ((p && (r && not q)) && q) ≡ false
    away true true true = refl
    away true true false = refl
    away true false true = refl
    away true false false = refl
    away false r q = refl
