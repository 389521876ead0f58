-- ===== src/Dram/Refresh.antt =====
-- The refresh interval of src/dram.rs.
use native.Mathlib.Nat.{div-eq_of_lt, div-eq-sub-div}
use f1c100s_rs.Base.{
  ℕ, zero, suc, ◌+◌, ◌-◌, ◌*◌, ◌/◌, ◌%◌, ◌≤◌, ◌<◌, ◌≡◌, ◌∙◌, true, leb, Bool-cases, inl, inr, arith,
  leb→le,
}
use f1c100s_rs.Bits.{shr32, u32_mod}
use f1c100s_rs.Dram.{count_steps, refresh_word}

-- Taking a step off until it does not fit any more counts the quotient.
count_steps-div :
    (fuel temp step val : ℕ)
    → 0 < step
    → temp ≤ fuel
    → count_steps fuel temp step val ≡ val + temp / step
unfolding count_steps
count_steps-div zero temp step val some_step enough =
    omega (arith, div-eq_of_lt {n = temp} {m = step} (omega arith))
count_steps-div (suc fuel) temp step val some_step enough = elim (Bool-cases (leb step temp)) [
  | inl fits ↦
      let le : step ≤ temp = leb→le step temp fits in
      rw fits (
        count_steps-div fuel (temp - step) step (val + 1) some_step (omega arith)
        ∙ omega (arith, div-eq-sub-div some_step le))
  | inr over ↦ rw over (omega (arith, div-eq_of_lt {n = temp} {m = step} (ground (arith, over))))
]

-- From 1 MHz on, and without an overflow of the sum, the loop for the refresh interval ends: the
-- interval is the clock and its parts of 8, 16 and 32, in steps of 156250 for 13 rows and of 78125
-- for 12 rows.
pub refresh_word-div :
    (clk_hz : ℕ)
    → 1000000 ≤ clk_hz
    → clk_hz < 3 * 1000000000
    → (refresh_word 0xc clk_hz ≡ (clk_hz + clk_hz / 8 + clk_hz / 16 + clk_hz / 32) / 156250)
      × (refresh_word 0xb clk_hz ≡ (clk_hz + clk_hz / 8 + clk_hz / 16 + clk_hz / 32) / 78125)
unfolding refresh_word shr32
refresh_word-div clk_hz fast fits =
    let sum = clk_hz + clk_hz / 8 + clk_hz / 16 + clk_hz / 32 in
    let kept : sum % u32_mod ≡ sum = omega arith in
    let over : leb 1000000 clk_hz ≡ true = ground arith in
    (
      rw (over, kept) (omega (arith, count_steps-div sum sum 156250 0 (omega arith) (omega arith))),
      rw (over, kept) (omega (arith, count_steps-div sum sum 78125 0 (omega arith) (omega arith))),
    )
