-- ===== src/Pwm/Config.antt =====
-- The configuration that src/pwm.rs writes, and the one that it reads back.
use f1c100s_rs.Base.{
  ℕ, ◌+◌, ◌-◌, ◌*◌, ◌/◌, ◌%◌, ◌^◌, ◌≤◌, ◌<◌, ◌≡◌, ◌≢◌, refl, sym, ap, ◌∙◌, Bool, true, false, ◌==◌,
  if◌then◌else◌, Bool-cases, inl, inr, arith, ne→==, eq→==, ==_iff, ge→ltb, lt_or_ge, max,
}
use f1c100s_rs.Bits.{bit_and, bit_or, bit, not32, shl32, shr32, test_bit, has_bit, u32_mod}
use f1c100s_rs.Bits.Laws.{test_bit-bit_or, eq_of_bits}
use f1c100s_rs.Bits.Shift.{test_bit-shl32, test_bit-mod}
use f1c100s_rs.Bits.Masks.{
  test_bit-set, test_bit-clear, has_bit-test_bit, bit_and-lt, bit_or-lt, set_bit-lt,
}
use f1c100s_rs.Mmio.{Regs, rd, set_field, get_field}
use f1c100s_rs.Mmio.Fields.{get_field-set_field, shl32-lt, test_bit-get_field, bit_and-ones}
use f1c100s_rs.Io.{ok}
use f1c100s_rs.Pwm.{
  PwmChannel, PwmMode, ch0, ch1, ch_no, PwmConfig, PwmPolarity, active_high, active_low, ctrl_addr,
  prd_addr, ctrl_bit, act_state_bit, mode_bit, clk_gating_bit, presc_mask, set_if, is_low,
  is_single, prd_duty_pack, apply_config, configure, get_config,
}
use f1c100s_rs.Pwm.Calculate.{cycles_24m, calculate_lem}

abbrev set_if_bit : (b : Bool) (p x : ℕ) → ℕ
set_if_bit b p x = set_if b (bit p) x

test_bit-set_if :
    (b : Bool) (p x i : ℕ)
    → x < u32_mod
    → p < 32
    → test_bit (set_if_bit b p x) i ≡ (if i == p then b else test_bit x i)
test_bit-set_if true p x i small h = test_bit-set x p i h ∙ ground arith
test_bit-set_if false p x i small h = test_bit-clear x p i small h ∙ ground arith

set_if-lt : (b : Bool) (p x : ℕ) → x < u32_mod → set_if_bit b p x < u32_mod
set_if-lt true p x small = set_bit-lt x p small
set_if-lt false p x small = bit_and-lt x (not32 (bit p)) u32_mod small

-- The lowest four bits of a channel do not change with a higher bit.
get_field-set_if :
    (b : Bool) (p x off : ℕ)
    → x < u32_mod
    → p < 32
    → off + 4 ≤ p
    → get_field (set_if_bit b p x) (2 ^ 4 - 1) off ≡ get_field x (2 ^ 4 - 1) off
get_field-set_if b p x off small h above =
    let g = get_field (set_if_bit b p x) (2 ^ 4 - 1) off in
    let g' = get_field x (2 ^ 4 - 1) off in
    eq_of_bits (g + g') g g' (omega arith) (omega arith) (λ i.
      test_bit-get_field (set_if_bit b p x) 4 off i (omega arith)
      ∙ elim (lt_or_ge i 4) [
        | inl l ↦
            rw (test_bit-set_if b p x (i + off) small h, ne→== (i + off) p (λ e. omega arith)) refl
        | inr l ↦ rw (ge→ltb i 4 l) (ground arith)
      ]
      ∙ sym (test_bit-get_field x 4 off i (omega arith)))

-- The two halves of a word.
high_half :
    (a b : ℕ) → get_field (bit_or (shl32 (a % 2 ^ 16) 16) (b % 2 ^ 16)) (2 ^ 16 - 1) 16 ≡ a % 2 ^ 16
high_half a b =
    let word = bit_or (shl32 (a % 2 ^ 16) 16) (b % 2 ^ 16) in
    let g = get_field word (2 ^ 16 - 1) 16 in
    eq_of_bits (g + a % 2 ^ 16) g (a % 2 ^ 16) (omega arith) (omega arith) (λ i.
      test_bit-get_field word 16 16 i (omega arith)
      ∙ rw
          (
            test_bit-bit_or (shl32 (a % 2 ^ 16) 16) (b % 2 ^ 16) (i + 16),
            test_bit-shl32 (a % 2 ^ 16) 16 (i + 16) (omega arith),
            test_bit-mod 16 b (i + 16),
            (let e : i + 16 - 16 ≡ i = omega arith in e),
            test_bit-mod 16 a i,
          )
          (ground arith))

low_half : (a b : ℕ) → bit_and (bit_or (shl32 a 16) (b % 2 ^ 16)) (2 ^ 16 - 1) ≡ b % 2 ^ 16
low_half a b =
    let word = bit_or (shl32 a 16) (b % 2 ^ 16) in
    bit_and-ones word 16
    ∙ eq_of_bits (word % 2 ^ 16 + b % 2 ^ 16) (word % 2 ^ 16) (b % 2 ^ 16) (omega arith)
        (omega arith)
        (λ i.
          test_bit-mod 16 word i
          ∙ rw
              (
                test_bit-bit_or (shl32 a 16) (b % 2 ^ 16) i,
                test_bit-shl32 a 16 i (omega arith),
                test_bit-mod 16 b i,
              )
              (ground arith))

pack_lem :
    (prd dty : ℕ) → prd_duty_pack prd dty ≡ bit_or (shl32 ((prd - 1) % 2 ^ 16) 16) (dty % 2 ^ 16)
unfolding prd_duty_pack
pack_lem prd dty = λ i. bit_or (shl32 (bit_and-ones (prd - 1) 16 i) 16) (bit_and-ones dty 16 i)

pack_period :
    (prd dty : ℕ)
    → 0 < prd
    → prd ≤ 65536
    → bit_and (shr32 (prd_duty_pack prd dty) 16) 0xffff + 1 ≡ prd
unfolding get_field
pack_period prd dty pos le =
    let high = high_half (prd - 1) dty in
    (λ i. get_field (pack_lem prd dty i) (2 ^ 16 - 1) 16 + 1) ∙ omega (arith, high)

pack_duty : (prd dty : ℕ) → bit_and (prd_duty_pack prd dty) 0xffff ≡ dty % 65536
pack_duty prd dty =
    (λ i. bit_and (pack_lem prd dty i) (2 ^ 16 - 1)) ∙ low_half ((prd - 1) % 2 ^ 16) dty

abbrev ch_offset : PwmChannel → ℕ
ch_offset ch = ch_no ch * 15

ch_offset-le : (ch : PwmChannel) → ch_offset ch ≤ 15
ch_offset-le ch0 = omega arith
ch_offset-le ch1 = omega arith

-- The control word with the prescaler of the index 0.
first_prescaler : PwmChannel → ℕ → ℕ
unfolding ctrl_bit
first_prescaler ch ctrl =
    let gated = bit_and ctrl (not32 (ctrl_bit clk_gating_bit ch)) in
    if bit_and (shr32 ctrl (ch_no ch * 15)) presc_mask == 0
    then ctrl
    else bit_or (bit_and gated (not32 (ctrl_bit presc_mask ch))) (ctrl_bit 0 ch)

first_prescaler_lem :
    (ch : PwmChannel) (ctrl : ℕ)
    → ctrl < u32_mod
    → (first_prescaler ch ctrl < u32_mod)
      × (get_field (first_prescaler ch ctrl) (2 ^ 4 - 1) (ch_offset ch) ≡ 0)
unfolding first_prescaler get_field set_field
first_prescaler_lem ch ctrl small =
    let gated = bit_and ctrl (not32 (ctrl_bit clk_gating_bit ch)) in
    elim (Bool-cases (bit_and (shr32 ctrl (ch_no ch * 15)) presc_mask == 0)) [
      | inl first ↦ rw first (small, (==_iff _ 0).0 first)
      | inr other ↦ rw other (
        bit_or-lt 32 _ _ (bit_and-lt _ _ u32_mod (bit_and-lt ctrl _ u32_mod small))
            (shl32-lt 0 (ch_offset ch)),
        get_field-set_field 4 (ch_offset ch) gated 0 (omega arith) (omega (arith, ch_offset-le ch))
            (omega arith),
      )
    ]

act_bit_lem : (ch : PwmChannel) → ctrl_bit act_state_bit ch ≡ bit (5 + ch_offset ch)
unfolding ctrl_bit shl32 bit
act_bit_lem ch0 = refl
act_bit_lem ch1 = refl

mode_bit_lem : (ch : PwmChannel) → ctrl_bit mode_bit ch ≡ bit (7 + ch_offset ch)
unfolding ctrl_bit shl32 bit
mode_bit_lem ch0 = refl
mode_bit_lem ch1 = refl

-- The control word that `configure` leaves, with the prescaler of the index 0.
control : PwmChannel → PwmConfig → ℕ → ℕ
control ch config ctrl =
    set_if_bit (is_single config.mode) (7 + ch_offset ch)
      (set_if_bit (is_low config.polarity) (5 + ch_offset ch) (first_prescaler ch ctrl))

control-field :
    (ch : PwmChannel) (config : PwmConfig) (ctrl : ℕ)
    → ctrl < u32_mod
    → get_field (control ch config ctrl) (2 ^ 4 - 1) (ch_offset ch) ≡ 0
unfolding control
control-field ch config ctrl small =
    let (lt, nibble) = first_prescaler_lem ch ctrl small in
    let low = is_low config.polarity in
    get_field-set_if (is_single config.mode) (7 + ch_offset ch)
      (set_if_bit low (5 + ch_offset ch) (first_prescaler ch ctrl)) (ch_offset ch)
      (set_if-lt low (5 + ch_offset ch) _ lt) (omega (arith, ch_offset-le ch)) (omega arith)
    ∙ get_field-set_if low (5 + ch_offset ch) (first_prescaler ch ctrl) (ch_offset ch) lt
        (omega (arith, ch_offset-le ch)) (omega arith)
    ∙ nibble

control-polarity :
    (ch : PwmChannel) (config : PwmConfig) (ctrl : ℕ)
    → ctrl < u32_mod
    → test_bit (control ch config ctrl) (5 + ch_offset ch) ≡ is_low config.polarity
unfolding control
control-polarity ch config ctrl small =
    let (lt, nibble) = first_prescaler_lem ch ctrl small in
    let low = is_low config.polarity in
    test_bit-set_if (is_single config.mode) (7 + ch_offset ch)
      (set_if_bit low (5 + ch_offset ch) (first_prescaler ch ctrl)) (5 + ch_offset ch)
      (set_if-lt low (5 + ch_offset ch) _ lt) (omega (arith, ch_offset-le ch))
    ∙ rw (ne→== (5 + ch_offset ch) (7 + ch_offset ch) (λ e. omega arith)) (
        test_bit-set_if low (5 + ch_offset ch) (first_prescaler ch ctrl) (5 + ch_offset ch) lt
          (omega (arith, ch_offset-le ch))
        ∙ rw (eq→== (5 + ch_offset ch) (5 + ch_offset ch) refl) refl)

apply_config-control :
    (ch : PwmChannel) (config : PwmConfig) (prd dty : ℕ) (r : Regs)
    → (rd ctrl_addr (apply_config ch config 0 prd dty r) ≡ control ch config (rd ctrl_addr r))
      × (rd (prd_addr ch) (apply_config ch config 0 prd dty r) ≡ prd_duty_pack prd dty)
unfolding apply_config control first_prescaler
apply_config-control ch0 config prd dty r = (rw (act_bit_lem ch0, mode_bit_lem ch0) refl, refl)
apply_config-control ch1 config prd dty r = (rw (act_bit_lem ch1, mode_bit_lem ch1) refl, refl)

abbrev pub opposite : PwmPolarity → PwmPolarity
opposite active_high = active_low
opposite active_low = active_high

abbrev seen : Bool → PwmPolarity
seen b = if b then active_high else active_low

flag_lem :
    (x p : ℕ)
    → p < 32
    → (if bit_and x (bit p) == 0 then active_low else active_high) ≡ seen (test_bit x p)
unfolding has_bit
flag_lem x p h = pick (bit_and x (bit p) == 0) ∙ ap seen (has_bit-test_bit x p h)
  where
    pick : (b : Bool) → (if b then active_low else active_high) ≡ seen (if b then false else true)
    pick true = refl
    pick false = refl

flipped : (p : PwmPolarity) → seen (is_low p) ≡ opposite p
flipped active_high = refl
flipped active_low = refl

to_ns : (n : ℕ) → n ≤ 65536 → n * 1000000000 / 200000 % u32_mod ≡ 5000 * n
to_ns n h = omega arith

short_word : (n : ℕ) → 5000 * (n % u32_mod % 65536) ≡ 5000 * (n % 65536)
short_word n = omega arith

get_config-first :
    (ch : PwmChannel) (r : Regs)
    → get_field (rd ctrl_addr r) (2 ^ 4 - 1) (ch_offset ch) ≡ 0
    → get_config ch r
      ≡ ok
          (record {
            period_ns =
                (bit_and (shr32 (rd (prd_addr ch) r) 16) 0xffff + 1)
                * 1000000000
                / 200000
                % u32_mod;
            pulse_ns = bit_and (rd (prd_addr ch) r) 0xffff * 1000000000 / 200000 % u32_mod;
            polarity = seen (test_bit (rd ctrl_addr r) (5 + ch_offset ch));
            mode = PwmMode.continuous;
          })
          r
unfolding get_config get_field
get_config-first ch r nibble =
    let p = 5 + ch_offset ch in
    let flag : (if bit_and (rd ctrl_addr r) (bit p) == 0 then active_low else active_high)
        ≡ seen (test_bit (rd ctrl_addr r) p) =
      flag_lem (rd ctrl_addr r) p (omega (arith, ch_offset-le ch)) in
    rw (act_bit_lem ch, nibble, flag) refl

-- Where the control register and the period are words, the period has a cycle of the 24 MHz clock
-- and is at most 65536 ticks of 5 µs, and the pulse is at most the period, `configure` succeeds, and
-- `get_config` then reads the period in whole ticks, but the opposite polarity. The active ticks are
-- read modulo 65536.
pub configure-get_config :
    (ch : PwmChannel) (config : PwmConfig) (r : Regs)
    → rd ctrl_addr r < u32_mod
    → config.period_ns < u32_mod
    → config.pulse_ns ≤ config.period_ns
    → cycles_24m config.period_ns ≢ 0
    → cycles_24m config.period_ns / 120 ≤ 65536
    → (r' : Regs) × (c : PwmConfig) × (configure ch config r ≡ ok tt r')
      × (get_config ch r' ≡ ok c r')
      × (c.period_ns ≡ 5000 * max 1 (cycles_24m config.period_ns / 120))
      × (c.pulse_ns
          ≡ 5000
            * (max 1 (cycles_24m config.period_ns / 120)
                * config.pulse_ns
                / config.period_ns
                % 65536))
      × (c.polarity ≡ opposite config.polarity)
unfolding configure
configure-get_config ch config r small range fits some_cycles short =
    elim (calculate_lem config.period_ns config.pulse_ns r range) [
      | inl (none_left, _) ↦ absurd (some_cycles none_left)
      | inr (_, (prd, done, pos, le, exact)) ↦
          let dty : ℕ = prd * config.pulse_ns / config.period_ns % u32_mod in
          let r' = apply_config ch config 0 prd dty r in
          let (ctrl, pair) = apply_config-control ch config prd dty r in
          let nibble : get_field (rd ctrl_addr r') (2 ^ 4 - 1) (ch_offset ch) ≡ 0 =
            (λ i. get_field (ctrl i) (2 ^ 4 - 1) (ch_offset ch))
            ∙ control-field ch config (rd ctrl_addr r) small in
          let flag : test_bit (rd ctrl_addr r') (5 + ch_offset ch) ≡ is_low config.polarity =
            (λ i. test_bit (ctrl i) (5 + ch_offset ch))
            ∙ control-polarity ch config (rd ctrl_addr r) small in
          let ticks : bit_and (shr32 (rd (prd_addr ch) r') 16) 0xffff + 1 ≡ prd =
            (λ i. bit_and (shr32 (pair i) 16) 0xffff + 1) ∙ pack_period prd dty pos le in
          let active : bit_and (rd (prd_addr ch) r') 0xffff ≡ dty % 65536 =
            (λ i. bit_and (pair i) 0xffff) ∙ pack_duty prd dty in
          (
            r',
            record {
              period_ns =
                  (bit_and (shr32 (rd (prd_addr ch) r') 16) 0xffff + 1)
                  * 1000000000
                  / 200000
                  % u32_mod;
              pulse_ns = bit_and (rd (prd_addr ch) r') 0xffff * 1000000000 / 200000 % u32_mod;
              polarity = seen (test_bit (rd ctrl_addr r') (5 + ch_offset ch));
              mode = PwmMode.continuous;
            },
            rw (ge→ltb config.period_ns config.pulse_ns fits, done) refl,
            get_config-first ch r' nibble,
            rw ticks (to_ns prd le) ∙ ap (λ n. 5000 * n) (exact short),
            (λ i. active i * 1000000000 / 200000 % u32_mod)
                ∙ to_ns (dty % 65536) (omega arith)
                ∙ short_word (prd * config.pulse_ns / config.period_ns)
                ∙ ap (λ n. 5000 * (n * config.pulse_ns / config.period_ns % 65536)) (exact short),
            ap seen flag ∙ flipped config.polarity,
          )
    ]
