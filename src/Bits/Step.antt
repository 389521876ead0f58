-- ===== src/Bits/Step.antt =====
-- One binary digit of `bit_and` and `bit_or`.
use Prim.Native.Nat.{bit_and, bit_or, digits, bit_and-bitwise, bit_or-bitwise}
use f1c100s_rs.Base.{
  ℕ, zero, suc, ◌+◌, ◌*◌, ◌/◌, ◌%◌, ◌≤◌, ◌≡◌, refl, sym, ap, ◌∙◌, min, max, arith,
}

-- An operation that works digit by digit: `f` on two digits, `rest` once the first number has run
-- out, where it agrees with `f` on the digit 0.
module _ (rest : ℕ → ℕ) (f : ℕ → ℕ → ℕ)
    (rest_step : (b : ℕ) → rest b ≡ rest (b / 2) * 2 + f 0 (b % 2)) where
  go-zero : (rounds b : ℕ) → digits rest f rounds 0 b ≡ rest b
  go-zero zero b = refl
  go-zero (suc rounds) b = refl

  -- The count of rounds does not matter once it reaches the first number.
  settled : (r s a b : ℕ) → a ≤ r → a ≤ s → digits rest f r a b ≡ digits rest f s a b
  settled r s zero b hr hs = go-zero r b ∙ sym (go-zero s b)
  settled zero s (suc a) b hr hs = absurd (omega arith)
  settled (suc r) zero (suc a) b hr hs = absurd (omega arith)
  settled (suc r) (suc s) (suc a) b hr hs =
      ap (λ t. t * 2 + f (suc a % 2) (b % 2))
        (settled r s (suc a / 2) (b / 2) (omega arith) (omega arith))

  one_digit :
      (a b : ℕ)
      → digits rest f a a b ≡ digits rest f (a / 2) (a / 2) (b / 2) * 2 + f (a % 2) (b % 2)
  one_digit zero b = rest_step b
  one_digit (suc a) b =
      ap (λ t. t * 2 + f (suc a % 2) (b % 2))
        (settled a (suc a / 2) (suc a / 2) (b / 2) (omega arith) (omega arith))

pub bit_or_step : (x y : ℕ) → bit_or x y ≡ bit_or (x / 2) (y / 2) * 2 + max (x % 2) (y % 2)
bit_or_step x y =
    bit_or-bitwise x y
    ∙ one_digit (λ b. b) max (λ b. omega arith) x y
    ∙ ap (λ (t : ℕ). t * 2 + max (x % 2) (y % 2)) (sym (bit_or-bitwise (x / 2) (y / 2)))

pub bit_and_step : (x y : ℕ) → bit_and x y ≡ bit_and (x / 2) (y / 2) * 2 + min (x % 2) (y % 2)
bit_and_step x y =
    bit_and-bitwise x y
    ∙ one_digit (λ _. 0) min (λ b. omega arith) x y
    ∙ ap (λ (t : ℕ). t * 2 + min (x % 2) (y % 2)) (sym (bit_and-bitwise (x / 2) (y / 2)))

pub zero-bit_and : (y : ℕ) → bit_and 0 y ≡ 0
zero-bit_and y = bit_and-bitwise 0 y
