-- ===== src/Pwm.antt =====
-- src/pwm.rs. A `PwmError` is a value of `Result`; a division by zero, and a failed assertion of
-- the pins, is a `panic`.
pub mod Calculate
pub mod Config
use f1c100s_rs.Base.{
  ℕ, zero, suc, ◌+◌, ◌-◌, ◌*◌, ◌/◌, ◌%◌, Bool, true, false, ◌||◌, not, Option, none, some, List, [],
  ◌∷◌, ltb, leb, ◌==◌, if◌then◌else◌, get_or,
}
use f1c100s_rs.Bits.{bit_and, bit_or, not32, shl32, shr32, u32_mod}
use f1c100s_rs.Mmio.{Regs, rd, wr}
use f1c100s_rs.Io.{Io, ok, err, panics, Call, ◌>>=◌, ◌>>◌}
use f1c100s_rs.Gpio.{Port, PullMode, set_function, set_pull_mode}

pub data PwmChannel : Type 0 where
  ch0 ch1 : PwmChannel

abbrev pub ch_no : PwmChannel → ℕ
ch_no ch0 = 0
ch_no ch1 = 1

pub data PwmPolarity : Type 0 where
  active_high active_low : PwmPolarity

pub data PwmMode : Type 0 where
  continuous single_pulse : PwmMode

pub record PwmConfig : Type 0 where
  pub period_ns : ℕ
  pub pulse_ns : ℕ
  pub polarity : PwmPolarity
  pub mode : PwmMode

-- `PwmConfig::default`.
abbrev pub default_config : PwmConfig
default_config = record {
  period_ns = 1000000;
  pulse_ns = 500000;
  polarity = active_high;
  mode = continuous;
}

pub data PwmError : Type 0 where
  pulse_exceeds_period period_too_small period_too_large invalid_duty : PwmError

abbrev pub Pwm : Type 0 → Type 0
Pwm A = Call Regs PwmError A

abbrev pub ctrl_addr : ℕ
ctrl_addr = 0x01c21000

abbrev pub prd_addr : PwmChannel → ℕ
prd_addr ch0 = 0x01c21004
prd_addr ch1 = 0x01c21008

-- `ctrl_bit`.
unfoldable pub ctrl_bit : ℕ → PwmChannel → ℕ
ctrl_bit bits ch = shl32 bits (ch_no ch * 15)

abbrev pub presc_mask : ℕ
presc_mask = 0xf

abbrev pub en_bit : ℕ
en_bit = 0x10

abbrev pub act_state_bit : ℕ
act_state_bit = 0x20

abbrev pub clk_gating_bit : ℕ
clk_gating_bit = 0x40

abbrev pub mode_bit : ℕ
mode_bit = 0x80

-- `prd_duty_pack`.
unfoldable pub prd_duty_pack : (prd dty : ℕ) → ℕ
prd_duty_pack prd dty = bit_or (shl32 (bit_and (prd - 1) 0xffff) 16) (bit_and dty 0xffff)

-- `PRESCALER_TABLE`.
abbrev pub prescaler_table : List ℕ
prescaler_table =
    120 ∷ 180 ∷ 240 ∷ 360 ∷ 480 ∷ 0 ∷ 0 ∷ 0 ∷ 12000 ∷ 24000 ∷ 36000 ∷ 48000 ∷ 72000 ∷ 0 ∷ 0 ∷ 1 ∷ []

abbrev pub pwm_src_hz : ℕ
pwm_src_hz = 24000000

abbrev pub nsec_per_sec : ℕ
nsec_per_sec = 1000000000

-- The registers are changed, and nothing fails.
abbrev pub modify : (Regs → Regs) → Pwm (Unit {0})
modify f r = ok tt (f r)

-- `disable`.
unfoldable pub disable : PwmChannel → Regs → Regs
unfolding ctrl_bit
disable ch r =
    let val = rd ctrl_addr r in
    let val' = bit_and val (not32 (ctrl_bit clk_gating_bit ch)) in
    wr ctrl_addr (bit_and val' (not32 (ctrl_bit en_bit ch))) r

-- `enable`.
unfoldable pub enable : PwmChannel → Regs → Regs
unfolding ctrl_bit
enable ch r =
    let val = rd ctrl_addr r in
    let val' = bit_or val (ctrl_bit clk_gating_bit ch) in
    wr ctrl_addr (bit_or val' (ctrl_bit en_bit ch)) r

-- `is_enabled`.
unfoldable pub is_enabled : PwmChannel → Regs → Bool
unfolding ctrl_bit
is_enabled ch r =
    let mask = ctrl_bit (bit_or clk_gating_bit en_bit) ch in bit_and (rd ctrl_addr r) mask == mask

pub record PwmPins : Type 0 where
  pub port : Port
  pub pin : ℕ
  pub pin_func : ℕ

-- `init`.
unfoldable pub init : PwmChannel → PwmPins → Pwm (Unit {0})
unfolding set_function set_pull_mode disable
init ch pins r = elim (set_function pins.port pins.pin pins.pin_func r) [
  | none ↦ panics
  | some r1 ↦ elim (set_pull_mode pins.port pins.pin PullMode.disable r1) [
    | none ↦ panics
    | some r2 ↦ ok tt (disable ch r2)
  ]
]

-- `get_config`.
unfoldable pub get_config : PwmChannel → Pwm PwmConfig
unfolding ctrl_bit
get_config ch r =
    let ctrl = rd ctrl_addr r in
    let presc = bit_and (shr32 ctrl (ch_no ch * 15)) presc_mask in
    let prescaler = if presc == presc_mask then 1 else get_or prescaler_table presc 0 in
    let polarity =
      if bit_and ctrl (ctrl_bit act_state_bit ch) == 0 then active_low else active_high in
    let prd_reg = rd (prd_addr ch) r in
    let prd = bit_and (shr32 prd_reg 16) 0xffff + 1 in
    let dty = bit_and prd_reg 0xffff in
    let clk_hz = pwm_src_hz / prescaler in
    if prescaler == 0
    then panics
    else ok
        (record {
          period_ns = prd * nsec_per_sec / clk_hz % u32_mod;
          pulse_ns = dty * nsec_per_sec / clk_hz % u32_mod;
          polarity = polarity;
          mode = continuous;
        })
        r

-- The inner loop of `calculate` from `extra` on, with `n` values left: the first scaled count that
-- fits the counter.
unfoldable pub extra_from : (n extra div pval : ℕ) → Option ℕ
extra_from zero extra div pval = none
extra_from (suc n) extra div pval =
    let rest = extra_from n (extra + 1) div pval in
    if leb (div / (pval * extra)) 65536 then some (div / (pval * extra)) else rest

-- One round of the outer loop: the count, if it fits.
unfoldable pub scale : (div pval : ℕ) → Option ℕ
scale div pval = if leb (div / pval) 65536 then some (div / pval) else extra_from 256 1 div pval

-- The outer loop over the prescalers from `idx` on: the count and the index.
unfoldable pub search_prescaler : (idx div : ℕ) → List ℕ → ℕ × ℕ
search_prescaler idx div [] = (div, presc_mask)
search_prescaler idx div (pval ∷ pvals) =
    let rest = search_prescaler (idx + 1) div pvals in
    if pval == 0 then rest else elim (scale div pval) [ none ↦ rest | some cycles ↦ (cycles, idx) ]

-- `calculate`: the index, the period and the active cycles.
unfoldable pub calculate : (period_ns pulse_ns : ℕ) → Pwm (ℕ × ℕ × ℕ)
calculate period_ns pulse_ns r =
    let div = pwm_src_hz * period_ns / nsec_per_sec in
    let (cycles, idx) = search_prescaler 0 div prescaler_table in
    let entire = if cycles == 0 then 1 else cycles in
    if div == 0
    then err period_too_small r
    else (if ltb 65536 cycles
        then err period_too_large r
        else ok (idx, entire, entire * pulse_ns / period_ns % u32_mod) r)

abbrev pub set_if : Bool → (bits ctrl : ℕ) → ℕ
set_if true bits ctrl = bit_or ctrl bits
set_if false bits ctrl = bit_and ctrl (not32 bits)

abbrev pub is_low : PwmPolarity → Bool
is_low active_high = false
is_low active_low = true

abbrev pub is_single : PwmMode → Bool
is_single continuous = false
is_single single_pulse = true

-- What `configure` does to the registers, once the values are calculated.
unfoldable pub apply_config : PwmChannel → PwmConfig → (idx prd dty : ℕ) → Regs → Regs
unfolding ctrl_bit prd_duty_pack
apply_config ch config idx prd dty r =
    let ctrl = rd ctrl_addr r in
    let same = bit_and (shr32 ctrl (ch_no ch * 15)) presc_mask == idx in
    let gated = bit_and ctrl (not32 (ctrl_bit clk_gating_bit ch)) in
    let ctrl1 =
      (if same
        then ctrl
        else bit_or (bit_and gated (not32 (ctrl_bit presc_mask ch))) (ctrl_bit idx ch)) in
    let r1 = if same then r else wr ctrl_addr gated r in
    let ctrl2 = set_if (is_low config.polarity) (ctrl_bit act_state_bit ch) ctrl1 in
    let ctrl3 = set_if (is_single config.mode) (ctrl_bit mode_bit ch) ctrl2 in
    wr ctrl_addr ctrl3 (wr (prd_addr ch) (prd_duty_pack prd dty) r1)

-- `configure`.
unfoldable pub configure : PwmChannel → PwmConfig → Pwm (Unit {0})
unfolding calculate apply_config
configure ch config r =
    if ltb config.period_ns config.pulse_ns
    then err pulse_exceeds_period r
    else (calculate config.period_ns config.pulse_ns
          >>= (λ (idx, prd, dty). modify (apply_config ch config idx prd dty)))
        r

-- A duty ratio, an `f32`: the two tests of it, and its product with a period as a `u32`.
pub record Duty : Type 0 where
  pub below_zero : Bool
  pub above_one : Bool
  pub times : ℕ → ℕ

-- `set_period_duty`.
unfoldable pub set_period_duty : PwmChannel → ℕ → Duty → Pwm (Unit {0})
unfolding configure
set_period_duty ch period_ns duty r =
    if duty.below_zero || duty.above_one
    then err invalid_duty r
    else configure ch
        (record {
          period_ns = period_ns;
          pulse_ns = duty.times period_ns;
          polarity = active_high;
          mode = continuous;
        })
        r

-- `set_freq_duty`.
unfoldable pub set_freq_duty : PwmChannel → ℕ → Duty → Pwm (Unit {0})
unfolding set_period_duty
set_freq_duty ch freq_hz duty r =
    if duty.below_zero || duty.above_one
    then err invalid_duty r
    else (if freq_hz == 0 then panics else set_period_duty ch (nsec_per_sec / freq_hz) duty r)
