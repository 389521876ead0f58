-- ===== src/Clock/Fields.antt =====
-- A field of a register under `|` and `&`.
use f1c100s_rs.Bits.Step.{zero-bit_and}
use f1c100s_rs.Bits.Lowest.{bit_and_comm}
use f1c100s_rs.Base.{ℕ, ◌+◌, ◌<◌, ◌≡◌, refl, Bool, true, false, ◌&&◌, ◌||◌, arith}
use f1c100s_rs.Bits.{bit_and, bit_or, shr32, test_bit}
use f1c100s_rs.Bits.Laws.{test_bit-bit_and, test_bit-bit_or, eq_of_bits, zero-test_bit}
use f1c100s_rs.Bits.Shift.{test_bit-shr32}
use f1c100s_rs.Mmio.{get_field}

test_bit-field :
    (x mask offset i : ℕ)
    → offset < 32
    → test_bit (get_field x mask offset) i ≡ (test_bit x (i + offset) && test_bit mask i)
unfolding get_field
test_bit-field x mask offset i h =
    rw (test_bit-bit_and (shr32 x offset) mask i, test_bit-shr32 x offset i h) refl

or_and : (p q r : Bool) → ((p || q) && r) ≡ ((p && r) || (q && r))
or_and true q true = refl
or_and true true false = refl
or_and true false false = refl
or_and false q r = refl

and_and : (p q r : Bool) → ((p && q) && r) ≡ ((p && r) && (q && r))
and_and true true true = refl
and_and true true false = refl
and_and true false true = refl
and_and true false false = refl
and_and false q true = refl
and_and false q false = refl

pub get_field-bit_or :
    (x y mask offset : ℕ)
    → offset < 32
    → get_field (bit_or x y) mask offset
      ≡ bit_or (get_field x mask offset) (get_field y mask offset)
get_field-bit_or x y mask offset h =
    let a = get_field (bit_or x y) mask offset in
    let b = bit_or (get_field x mask offset) (get_field y mask offset) in
    eq_of_bits (a + b) a b (omega arith) (omega arith) (λ i.
      rw
        (
          test_bit-field (bit_or x y) mask offset i h,
          test_bit-bit_or (get_field x mask offset) (get_field y mask offset) i,
          test_bit-field x mask offset i h,
          test_bit-field y mask offset i h,
          test_bit-bit_or x y (i + offset),
        )
        (or_and (test_bit x (i + offset)) (test_bit y (i + offset)) (test_bit mask i)))

pub get_field-bit_and :
    (x y mask offset : ℕ)
    → offset < 32
    → get_field (bit_and x y) mask offset
      ≡ bit_and (get_field x mask offset) (get_field y mask offset)
get_field-bit_and x y mask offset h =
    let a = get_field (bit_and x y) mask offset in
    let b = bit_and (get_field x mask offset) (get_field y mask offset) in
    eq_of_bits (a + b) a b (omega arith) (omega arith) (λ i.
      rw
        (
          test_bit-field (bit_and x y) mask offset i h,
          test_bit-bit_and (get_field x mask offset) (get_field y mask offset) i,
          test_bit-field x mask offset i h,
          test_bit-field y mask offset i h,
          test_bit-bit_and x y (i + offset),
        )
        (and_and (test_bit x (i + offset)) (test_bit y (i + offset)) (test_bit mask i)))

pub zero-bit_or : (y : ℕ) → bit_or 0 y ≡ y
zero-bit_or y =
    eq_of_bits (bit_or 0 y + y) (bit_or 0 y) y (omega arith) (omega arith)
      (λ i. rw (test_bit-bit_or 0 y i, zero-test_bit i) refl)

-- A field that the mask `k` clears holds what is put in afterwards.
pub get_field-cleared :
    (x k y mask offset : ℕ)
    → offset < 32
    → get_field k mask offset ≡ 0
    → get_field (bit_or (bit_and x k) y) mask offset ≡ get_field y mask offset
get_field-cleared x k y mask offset h e =
    rw
      (
        get_field-bit_or (bit_and x k) y mask offset h,
        get_field-bit_and x k mask offset h,
        e,
        bit_and_comm (get_field x mask offset) 0,
        zero-bit_and (get_field x mask offset),
      )
      (zero-bit_or (get_field y mask offset))
