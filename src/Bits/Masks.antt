-- ===== src/Bits/Masks.antt =====
-- Setting, clearing and testing bits of a word.
use native.Mathlib.Nat.{pow-suc}
use f1c100s_rs.Base.{
  ℕ, zero, suc, ◌/◌, ◌^◌, ◌≤◌, ◌<◌, ◌≡◌, ◌≢◌, inl, inr, true, false, not, ◌&&◌, ◌||◌, arith, ltb,
  ◌==◌, Bool-cases, ==_iff, ne→==,
}
use f1c100s_rs.Bits.{bit_and, bit_or, u32_mod, test_bit, bit, not32, has_bit}
use f1c100s_rs.Bits.Step.{zero-bit_and, bit_and_step, bit_or_step}
use f1c100s_rs.Bits.Laws.{
  test_bit-bit_or, test_bit-bit_and, zero-test_bit, test_bit-bit, test_bit-not32, eq_of_bits,
}
use f1c100s_rs.Bits.Scan.{ne_zero_of_test_bit}
use f1c100s_rs.Bits.Shift.{bit-lt, test_bit-high}

pub bit_or-lt : (w a b : ℕ) → a < 2 ^ w → b < 2 ^ w → bit_or a b < 2 ^ w
bit_or-lt zero a b ha hb =
    let ea : a ≡ 0 = omega arith in let eb : b ≡ 0 = omega arith in rw (ea, eb) (omega arith)
bit_or-lt (suc w) a b ha hb = omega (
  arith,
  pow-suc 2 w,
  bit_or_step a b,
  bit_or-lt w (a / 2) (b / 2) (omega (arith, pow-suc 2 w)) (omega (arith, pow-suc 2 w)),
)

pub bit_and-le : (n a b : ℕ) → a ≤ n → bit_and a b ≤ a
bit_and-le zero a b h = let e : a ≡ 0 = omega arith in rw (e, zero-bit_and b) (omega arith)
bit_and-le (suc n) zero b h = rw (zero-bit_and b) (omega arith)
bit_and-le (suc n) (suc a) b h =
    omega (arith, bit_and_step (suc a) b, bit_and-le n (suc a / 2) (b / 2) (omega arith))

pub bit_and-lt : (a b m : ℕ) → a < m → bit_and a b < m
bit_and-lt a b m h = omega (arith, bit_and-le a a b (omega arith))

pub set_bit-lt : (x p : ℕ) → x < u32_mod → bit_or x (bit p) < u32_mod
set_bit-lt x p h = bit_or-lt 32 x (bit p) h (bit-lt p)

-- `x | (1 << p)`.
pub test_bit-set : (x p i : ℕ) → p < 32 → test_bit (bit_or x (bit p)) i ≡ (test_bit x i || (i == p))
test_bit-set x p i h = rw (test_bit-bit_or x (bit p) i, test_bit-bit p i h)

-- `x & !(1 << p)`.
pub test_bit-clear :
    (x p i : ℕ)
    → x < u32_mod
    → p < 32
    → test_bit (bit_and x (not32 (bit p))) i ≡ (test_bit x i && not (i == p))
test_bit-clear x p i hx h =
    rw
      (
        test_bit-bit_and x (not32 (bit p)) i,
        test_bit-not32 (bit p) i (bit-lt p),
        test_bit-bit p i h,
      )
      (elim (Bool-cases (ltb i 32)) [
        | inl low ↦ rw low
        | inr high ↦ rw (high, test_bit-high x i hx (ground arith))
      ])

bit_and-ne_zero : (x p : ℕ) → p < 32 → test_bit x p ≡ true → bit_and x (bit p) ≢ 0
bit_and-ne_zero x p h set =
    ne_zero_of_test_bit (bit_and x (bit p)) p
      (rw (test_bit-bit_and x (bit p) p, test_bit-bit p p h, set) (ground arith))

bit_and-eq_zero : (x p : ℕ) → p < 32 → test_bit x p ≡ false → bit_and x (bit p) ≡ 0
bit_and-eq_zero x p h clear =
    eq_of_bits (bit_and x (bit p)) (bit_and x (bit p)) 0 (omega arith) (omega arith) λ i.
      rw (test_bit-bit_and x (bit p) i, test_bit-bit p i h, zero-test_bit i)
        (elim (Bool-cases (i == p)) [
          | inl same ↦ rw (same, (==_iff i p).0 same, clear)
          | inr other ↦ rw other (ground arith)
        ])

-- `x & (1 << p) != 0` is bit `p` of `x`.
pub has_bit-test_bit : (x p : ℕ) → p < 32 → has_bit x p ≡ test_bit x p
unfolding has_bit
has_bit-test_bit x p h = elim (Bool-cases (test_bit x p)) [
  | inl set ↦ rw (set, ne→== (bit_and x (bit p)) 0 (bit_and-ne_zero x p h set))
  | inr clear ↦ rw (clear, bit_and-eq_zero x p h clear)
]
