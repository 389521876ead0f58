-- ===== src/Mmio/Fields.antt =====
-- A bit field of a register that is written as the drivers do it.
use native.Mathlib.Nat.{mod-eq_of_lt, one-le-pow}
use f1c100s_rs.Base.{
  ℕ, ◌+◌, ◌-◌, ◌*◌, ◌/◌, ◌%◌, ◌^◌, ◌≤◌, ◌<◌, ◌≡◌, ◌⊎◌, inl, inr, refl, sym, ap, ◌∙◌, true, false,
  not, ◌&&◌, ◌||◌, ltb, leb, lt→ltb, ge→ltb, lt_or_ge, arith,
}
use f1c100s_rs.Bits.{bit_and, bit_or, not32, shl32, shr32, test_bit, u32_mod}
use f1c100s_rs.Bits.Laws.{
  test_bit-bit_and, test_bit-bit_or, test_bit-not32, test_bit-complement, zero-test_bit, eq_of_bits,
}
use f1c100s_rs.Bits.Shift.{
  test_bit-shl32, test_bit-shr32, test_bit-mod, test_bit-mul_pow, test_bit-div_pow,
}
use f1c100s_rs.Mmio.{set_field, get_field}

pub test_bit-ones : (w i : ℕ) → test_bit (2 ^ w - 1) i ≡ ltb i w
test_bit-ones w i =
    let e : 2 ^ w - 1 - 0 ≡ 2 ^ w - 1 = omega arith in
    (rw e at (test_bit-complement w 0 i (omega (arith, one-le-pow w 2 (omega arith)))))
    ∙ (rw (zero-test_bit i) (ground arith))

-- `x & mask`, where the mask is the lowest `w` bits.
pub bit_and-ones : (x w : ℕ) → bit_and x (2 ^ w - 1) ≡ x % 2 ^ w
bit_and-ones x w =
    let a = bit_and x (2 ^ w - 1) in
    let b = x % 2 ^ w in
    eq_of_bits (a + b) a b (omega arith) (omega arith) (λ i.
      rw (test_bit-bit_and x (2 ^ w - 1) i, test_bit-ones w i, test_bit-mod w x i) (ground arith))

div_mod_lem : (h n l : ℕ) → l < n → ((h * n + l) / n ≡ h) × ((h * n + l) % n ≡ l)
div_mod_lem h n l small = grind arith

test_bit-above : (w v i : ℕ) → v < 2 ^ w → w ≤ i → test_bit v i ≡ false
test_bit-above w v i h le =
    let e : v % 2 ^ w ≡ v = mod-eq_of_lt h in
    (rw e at (test_bit-mod w v i)) ∙ rw (ge→ltb i w le) refl

pub shl32-lt : (x k : ℕ) → shl32 x k < u32_mod
unfolding shl32
shl32-lt x k = omega arith

module _ (w offset x v : ℕ) (off : offset < 32) (small : v < 2 ^ w) where
  field_bit :
      (j : ℕ)
      → j < 32
      → test_bit (set_field x (2 ^ w - 1) offset v) j ≡ (
          (test_bit x j && not (leb offset j && ltb (j - offset) w))
          || (leb offset j && test_bit v (j - offset)))
  unfolding set_field
  field_bit j h =
      rw
        (
          test_bit-bit_or (bit_and x (not32 (shl32 (2 ^ w - 1) offset))) (shl32 v offset) j,
          test_bit-bit_and x (not32 (shl32 (2 ^ w - 1) offset)) j,
          test_bit-not32 (shl32 (2 ^ w - 1) offset) j (shl32-lt (2 ^ w - 1) offset),
          test_bit-shl32 (2 ^ w - 1) offset j off,
          test_bit-shl32 v offset j off,
          lt→ltb j 32 h,
          test_bit-ones w (j - offset),
        )
        refl

  pub field_bit_inside :
      (j : ℕ)
      → j < 32
      → offset ≤ j
      → j < offset + w
      → test_bit (set_field x (2 ^ w - 1) offset v) j ≡ test_bit v (j - offset)
  field_bit_inside j h lo hi =
      let a : leb offset j ≡ true = ground arith in
      let b : ltb (j - offset) w ≡ true = ground arith in field_bit j h ∙ rw (a, b) (ground arith)

  pub field_bit_outside :
      (j : ℕ)
      → j < 32
      → (j < offset) ⊎ (offset + w ≤ j)
      → test_bit (set_field x (2 ^ w - 1) offset v) j ≡ test_bit x j
  field_bit_outside j h (inl lo) =
      let a : leb offset j ≡ false = ground arith in field_bit j h ∙ rw a (ground arith)
  field_bit_outside j h (inr hi) =
      let a : leb offset j ≡ true = ground arith in
      let b : ltb (j - offset) w ≡ false = ground arith in
      let c = test_bit-above w v (j - offset) small (omega arith) in
      field_bit j h ∙ rw (a, b, c) (ground arith)

pub test_bit-get_field :
    (x w offset i : ℕ)
    → offset < 32
    → test_bit (get_field x (2 ^ w - 1) offset) i ≡ (test_bit x (i + offset) && ltb i w)
unfolding get_field
test_bit-get_field x w offset i h =
    rw
      (
        test_bit-bit_and (shr32 x offset) (2 ^ w - 1) i,
        test_bit-shr32 x offset i h,
        test_bit-ones w i,
      )
      refl

-- What is written into a field is read from it.
pub get_field-set_field :
    (w offset x v : ℕ)
    → 0 < w
    → offset + w ≤ 32
    → v < 2 ^ w
    → get_field (set_field x (2 ^ w - 1) offset v) (2 ^ w - 1) offset ≡ v
get_field-set_field w offset x v pos fits small =
    let g = get_field (set_field x (2 ^ w - 1) offset v) (2 ^ w - 1) offset in
    eq_of_bits (g + v) g v (omega arith) (omega arith) (λ i.
      test_bit-get_field (set_field x (2 ^ w - 1) offset v) w offset i (omega arith)
      ∙ elim (lt_or_ge i w) [
        | inl l ↦
            let e : i + offset - offset ≡ i = omega arith in
            rw
              (
                field_bit_inside w offset x v (omega arith) small (i + offset) (omega arith)
                    (omega arith) (omega arith),
                lt→ltb i w l,
                e,
              )
              (ground arith)
        | inr l ↦ rw (ge→ltb i w l, test_bit-above w v i small l) (ground arith)
      ])

-- The other fields keep what they hold.
pub get_field-away :
    (w offset x v w' other : ℕ)
    → offset < 32
    → other + w' ≤ 32
    → 0 < w'
    → v < 2 ^ w
    → (other + w' ≤ offset) ⊎ (offset + w ≤ other)
    → get_field (set_field x (2 ^ w - 1) offset v) (2 ^ w' - 1) other
      ≡ get_field x (2 ^ w' - 1) other
get_field-away w offset x v w' other off fits pos small apart =
    let g = get_field (set_field x (2 ^ w - 1) offset v) (2 ^ w' - 1) other in
    let h = get_field x (2 ^ w' - 1) other in
    eq_of_bits (g + h) g h (omega arith) (omega arith) (λ i.
      test_bit-get_field (set_field x (2 ^ w - 1) offset v) w' other i (omega arith)
      ∙ (elim (lt_or_ge i w') [
        | inl l ↦
            rw
              (field_bit_outside w offset x v off small (i + other) (omega arith)
                (elim apart [ inl a ↦ inl (omega arith) | inr b ↦ inr (omega arith) ]))
              refl
        | inr l ↦ rw (ge→ltb i w' l) (ground arith)
      ])
      ∙ sym (test_bit-get_field x w' other i (omega arith)))

-- Two parts of a word that do not overlap.
pub bit_or-add : (h w l : ℕ) → l < 2 ^ w → bit_or (h * 2 ^ w) l ≡ h * 2 ^ w + l
bit_or-add h w l small =
    let x = h * 2 ^ w + l in
    let a = bit_or (h * 2 ^ w) l in
    let (quotient, rest) = div_mod_lem h (2 ^ w) l small in
    eq_of_bits (a + x) a x (omega arith) (omega arith) (λ i.
      rw (test_bit-bit_or (h * 2 ^ w) l i, test_bit-mul_pow w h i)
        (elim (lt_or_ge i w) [
          | inl low ↦
              let no_shift : leb w i ≡ false = ground arith in
              let same : test_bit x i ≡ test_bit l i =
                (rw (lt→ltb i w low) at (sym (test_bit-mod w x i))) ∙ ap (λ y. test_bit y i) rest in
              rw no_shift (sym same)
          | inr high ↦
              let shifted : leb w i ≡ true = ground arith in
              let i' : i - w + w ≡ i = omega arith in
              let same : test_bit x i ≡ test_bit h (i - w) =
                ap (test_bit x) (sym i')
                ∙ sym (test_bit-div_pow w x (i - w))
                ∙ ap (λ y. test_bit y (i - w)) quotient in
              rw (shifted, test_bit-above w l i small high, same) (ground arith)
        ]))
