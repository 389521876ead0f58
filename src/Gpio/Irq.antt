-- ===== src/Gpio/Irq.antt =====
-- The interrupts of the pins, of src/gpio.rs, on the ports D, E and F. The status register is taken
-- for one that holds what is written: that a one clears its bit is the device's part.
use f1c100s_rs.Base.{ℕ, ◌+◌, ◌*◌, ◌/◌, Bool, true, false, Option, none, some, ltb, if◌then◌else◌}
use f1c100s_rs.Bits.{bit, bit_and, bit_or, not32}
use f1c100s_rs.Mmio.{◌>>=◌, Regs, rd, wr, set_field}
use f1c100s_rs.Gpio.{Port, d, e, f, pins_per_port, cfg_offset}

pub data IrqType : Type 0 where
  positive_edge negative_edge high_level low_level double_edge : IrqType

abbrev pub irq_no : IrqType → ℕ
irq_no positive_edge = 0
irq_no negative_edge = 1
irq_no high_level = 2
irq_no low_level = 3
irq_no double_edge = 4

-- `int_base`.
unfoldable pub int_base : Port → Option ℕ
int_base d = some (0x01c20800 + 0x200)
int_base e = some (0x01c20800 + 0x200 + 0x20)
int_base f = some (0x01c20800 + 0x200 + 0x40)
int_base p = none

-- `port_supports_irq`.
unfoldable pub port_supports_irq : Port → Bool
port_supports_irq d = true
port_supports_irq e = true
port_supports_irq f = true
port_supports_irq p = false

-- `set_irq_type`.
unfoldable pub set_irq_type : Port → ℕ → IrqType → Regs → Option Regs
unfolding int_base port_supports_irq set_field
set_irq_type p pin kind r =
    if port_supports_irq p
    then (if ltb pin pins_per_port
        then (do
          base ← int_base p
          some (
              wr (base + pin / 8 * 4)
                (set_field (rd (base + pin / 8 * 4) r) 0x7 (cfg_offset pin) (irq_no kind)) r))
        else none)
    else none

-- `irq_enable`.
unfoldable pub irq_enable : Port → ℕ → Regs → Option Regs
unfolding int_base port_supports_irq
irq_enable p pin r =
    if port_supports_irq p
    then (do base ← int_base p; some (wr (base + 0x10) (bit_or (rd (base + 0x10) r) (bit pin)) r))
    else none

-- `irq_disable`: the write to the status register, then the one to the control register.
unfoldable pub irq_disable : Port → ℕ → Regs → Option Regs
unfolding int_base port_supports_irq
irq_disable p pin r =
    if port_supports_irq p
    then (do
      base ← int_base p
      (let r' = wr (base + 0x14) (bit_or (rd (base + 0x14) r) (bit pin)) r in
          some (wr (base + 0x10) (bit_and (rd (base + 0x10) r') (not32 (bit pin))) r')))
    else none

-- `select_irq_clock`; the clock is 0 or 1.
unfoldable pub select_irq_clock : Port → ℕ → Regs → Option Regs
unfolding int_base port_supports_irq
select_irq_clock p clock r =
    if port_supports_irq p
    then (do
      base ← int_base p
      some (wr (base + 0x18) (bit_or (bit_and (rd (base + 0x18) r) (not32 1)) clock) r))
    else none

-- `set_debounce`; the prescaler is 0 to 7.
unfoldable pub set_debounce : Port → ℕ → Regs → Option Regs
unfolding int_base port_supports_irq set_field
set_debounce p prescaler r =
    if port_supports_irq p
    then (do
      base ← int_base p
      some (wr (base + 0x18) (set_field (rd (base + 0x18) r) 0x7 4 prescaler) r))
    else none

-- `irq_pending`, and `irq_enabled_mask`.
unfoldable pub irq_pending : Port → Regs → Option ℕ
unfolding int_base port_supports_irq
irq_pending p r =
    if port_supports_irq p then (do base ← int_base p; some (rd (base + 0x14) r)) else none

unfoldable pub irq_enabled_mask : Port → Regs → Option ℕ
unfolding int_base port_supports_irq
irq_enabled_mask p r =
    if port_supports_irq p then (do base ← int_base p; some (rd (base + 0x10) r)) else none

-- `irq_ack`.
unfoldable pub irq_ack : Port → ℕ → Regs → Option Regs
unfolding int_base port_supports_irq
irq_ack p pin r =
    if port_supports_irq p
    then (do base ← int_base p; some (wr (base + 0x14) (bit_or (rd (base + 0x14) r) (bit pin)) r))
    else none
