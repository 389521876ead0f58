-- ===== src/Tests/Pwm.antt =====
-- The PWM channels of src/pwm.rs at 1 kHz.
use f1c100s_rs.Base.{ℕ, ◌*◌, ◌/◌, ◌%◌, ◌≡◌, ◌≢◌, ◌⊎◌, ◌<◌, ◌≤◌, max, arith}
use f1c100s_rs.Bits.{u32_mod}
use f1c100s_rs.Mmio.{Regs}
use f1c100s_rs.Io.{ok, err}
use f1c100s_rs.Pwm.{
  PwmChannel, PwmConfig, PwmPolarity, PwmError, default_config, configure, get_config, calculate,
}
use f1c100s_rs.Pwm.Calculate.{cycles_24m, calculate_lem}
use f1c100s_rs.Pwm.Config.{configure-get_config, opposite}

abbrev zeros : Regs
zeros = λ _. 0

calculate_lem_example :
    ((cycles_24m 1000000 ≡ 0)
      × (calculate 1000000 500000 zeros ≡ err PwmError.period_too_small zeros))
    ⊎ ((cycles_24m 1000000 ≢ 0)
        × ((prd : ℕ) × (calculate 1000000 500000 zeros
              ≡ ok (0, prd, prd * 500000 / 1000000 % u32_mod) zeros)
            × (0 < prd)
            × (prd ≤ 65536)
            × ((cycles_24m 1000000 / 120 ≤ 65536) → prd ≡ max 1 (cycles_24m 1000000 / 120))))
calculate_lem_example = calculate_lem 1000000 500000 zeros (omega arith)

configure-get_config_example :
    (r' : Regs) × (c : PwmConfig) × (configure PwmChannel.ch1 default_config zeros ≡ ok tt r')
    × (get_config PwmChannel.ch1 r' ≡ ok c r')
    × (c.period_ns ≡ 5000 * max 1 (cycles_24m 1000000 / 120))
    × (c.pulse_ns ≡ 5000 * (max 1 (cycles_24m 1000000 / 120) * 500000 / 1000000 % 65536))
    × (c.polarity ≡ opposite PwmPolarity.active_high)
configure-get_config_example =
    configure-get_config PwmChannel.ch1 default_config zeros (omega arith) (omega arith)
      (omega arith) (omega arith) (omega arith)
