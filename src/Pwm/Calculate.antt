-- ===== src/Pwm/Calculate.antt =====
-- The period and duty arithmetic of src/pwm.rs.
use f1c100s_rs.Base.{
  ℕ, zero, suc, ◌+◌, ◌*◌, ◌/◌, ◌%◌, ◌≤◌, ◌<◌, ◌≡◌, ◌≢◌, ◌⊎◌, refl, true, false, some, List, ◌∷◌,
  ltb, leb, ◌==◌, if◌then◌else◌, Bool-cases, inl, inr, arith, ==_iff, eq→==, ge→ltb, max,
}
use f1c100s_rs.Bits.{u32_mod}
use f1c100s_rs.Mmio.{Regs}
use f1c100s_rs.Io.{ok, err}
use f1c100s_rs.Pwm.{
  extra_from, scale, search_prescaler, calculate, prescaler_table, period_too_small,
}

extra_from-some :
    (n extra div pval : ℕ)
    → extra + n ≡ 256
    → div / (pval * 256) ≤ 65536
    → (cycles : ℕ) × (extra_from (suc n) extra div pval ≡ some cycles) × (cycles ≤ 65536)
unfolding extra_from
extra_from-some zero extra div pval last fits =
    let e : extra ≡ 256 = omega arith in
    let fit : leb (div / (pval * 256)) 65536 ≡ true = ground arith in
    (div / (pval * 256), rw (e, fit) refl, fits)
extra_from-some (suc n) extra div pval more fits =
    elim (Bool-cases (leb (div / (pval * extra)) 65536)) [
      | inl fit ↦ (div / (pval * extra), rw fit refl, ground (arith, fit))
      | inr over ↦
          let (cycles, found, le) = extra_from-some n (extra + 1) div pval (omega arith) fits in
          (cycles, rw over found, le)
    ]

-- The cycles of the 24 MHz clock in a period.
abbrev pub cycles_24m : ℕ → ℕ
cycles_24m period_ns = 24000000 * period_ns / 1000000000

over-absurd : (n : ℕ) → leb n 65536 ≡ false → n ≤ 65536 → ⊥
over-absurd n over h = ground arith

fit-le : (n : ℕ) → leb n 65536 ≡ true → n ≤ 65536
fit-le n fit = ground arith

-- The first prescaler always gives a count.
scale-some :
    (div : ℕ)
    → div < 103079216
    → (cycles : ℕ) × (scale div 120 ≡ some cycles)
      × (cycles ≤ 65536)
      × ((div / 120 ≤ 65536) → cycles ≡ div / 120)
unfolding scale
scale-some div small = elim (Bool-cases (leb (div / 120) 65536)) [
  | inl fit ↦ (div / 120, rw fit refl, fit-le (div / 120) fit, λ _. refl)
  | inr over ↦
      let (cycles, found, le) = extra_from-some 255 1 div 120 (omega arith) (omega arith) in
      (cycles, rw over found, le, λ h. absurd (over-absurd (div / 120) over h))
]

search_prescaler-first :
    (idx div pval cycles : ℕ) (pvals : List ℕ)
    → (pval == 0) ≡ false
    → scale div pval ≡ some cycles
    → search_prescaler idx div (pval ∷ pvals) ≡ (cycles, idx)
unfolding search_prescaler
search_prescaler-first idx div pval cycles pvals valid found = rw (valid, found) refl

-- A period has one tick at least.
abbrev at_least_one : ℕ → ℕ
at_least_one cycles = if cycles == 0 then 1 else cycles

counted : (cycles : ℕ) → 0 < at_least_one cycles
counted cycles = ground arith

counted_le : (cycles : ℕ) → cycles ≤ 65536 → at_least_one cycles ≤ 65536
counted_le cycles h = ground arith

counted_max : (cycles n : ℕ) → cycles ≡ n → at_least_one cycles ≡ max 1 n
counted_max cycles n e = rw e (ground arith)

-- `calculate` never finds a period too large, and never picks another prescaler than the first,
-- 120: a period of up to 65536 such ticks is counted in them, one tick at least, and a longer one
-- is cut to at most 65536 ticks. It refuses a period without a cycle of the 24 MHz clock.
pub calculate_lem :
    (period_ns pulse_ns : ℕ) (r : Regs)
    → period_ns < u32_mod
    → ((cycles_24m period_ns ≡ 0) × (calculate period_ns pulse_ns r ≡ err period_too_small r))
      ⊎ ((cycles_24m period_ns ≢ 0)
          × ((prd : ℕ) × (calculate period_ns pulse_ns r
                ≡ ok (0, prd, prd * pulse_ns / period_ns % u32_mod) r)
              × (0 < prd)
              × (prd ≤ 65536)
              × ((cycles_24m period_ns / 120 ≤ 65536) → prd ≡ max 1 (cycles_24m period_ns / 120))))
unfolding calculate
calculate_lem period_ns pulse_ns r range =
    let (cycles, found, le, exact) = scale-some (cycles_24m period_ns) (omega arith) in
    let picked : search_prescaler 0 (cycles_24m period_ns) prescaler_table ≡ (cycles, 0) =
      search_prescaler-first 0 (cycles_24m period_ns) 120 cycles _ refl found in
    elim (Bool-cases (cycles_24m period_ns == 0)) [
      | inl zero_cycles ↦ inl ((==_iff (cycles_24m period_ns) 0).0 zero_cycles, rw zero_cycles refl)
      | inr cycles_left ↦
          let fits : ltb 65536 cycles ≡ false = ge→ltb 65536 cycles le in
          let prd : ℕ = at_least_one cycles in
          inr (
            λ e. cc (eq→== (cycles_24m period_ns) 0 e),
            (
              prd,
              rw (picked, cycles_left, fits) refl,
              counted cycles,
              counted_le cycles le,
              λ h. counted_max cycles (cycles_24m period_ns / 120) (exact h),
            ),
          )
    ]
