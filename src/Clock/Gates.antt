-- ===== src/Clock/Gates.antt =====
-- The bus clock gates, reset lines and DRAM gates of src/clock.rs.
use f1c100s_rs.Base.{ℕ, ◌+◌, Option, none, some, ◌==◌, if◌then◌else◌}
use f1c100s_rs.Bits.{bit, bit_and, bit_or, not32}
use f1c100s_rs.Mmio.{Regs, rd, wr, get_field}

-- `BusGate`.
pub data BusGate : Type 0 where
  usb_otg spi1 spi0 sdram sd1 sd0 dma : BusGate
  defe debe tve tvd csi deinterlace lcd ve : BusGate
  uart2 uart1 uart0 twi2 twi1 twi0 daudio rsb cir owa audio_codec : BusGate

-- `gate as u32`: the bit, and the number of the register from bit 12 on.
unfoldable pub gate_no : BusGate → ℕ
gate_no usb_otg = 0x18
gate_no spi1 = 0x15
gate_no spi0 = 0x14
gate_no sdram = 0x0e
gate_no sd1 = 0x09
gate_no sd0 = 0x08
gate_no dma = 0x06
gate_no defe = 0x0e + 0x1000
gate_no debe = 0x0c + 0x1000
gate_no tve = 0x0a + 0x1000
gate_no tvd = 0x09 + 0x1000
gate_no csi = 0x08 + 0x1000
gate_no deinterlace = 0x05 + 0x1000
gate_no lcd = 0x04 + 0x1000
gate_no ve = 0x00 + 0x1000
gate_no uart2 = 0x16 + 0x2000
gate_no uart1 = 0x15 + 0x2000
gate_no uart0 = 0x14 + 0x2000
gate_no twi2 = 0x12 + 0x2000
gate_no twi1 = 0x11 + 0x2000
gate_no twi0 = 0x10 + 0x2000
gate_no daudio = 0x0c + 0x2000
gate_no rsb = 0x03 + 0x2000
gate_no cir = 0x02 + 0x2000
gate_no owa = 0x01 + 0x2000
gate_no audio_codec = 0x00 + 0x2000

abbrev pub gate_bit : BusGate → ℕ
gate_bit gate = bit_and (gate_no gate) 0xfff

-- One of three registers, by the number in the gate.
abbrev pub pick_reg : ℕ → (r0 r1 r2 : ℕ) → Option ℕ
pick_reg reg r0 r1 r2 =
    if reg == 0
    then some r0
    else (if reg == 1 then some r1 else (if reg == 2 then some r2 else none))

-- The register of the clock gate, and that of the reset line.
unfoldable pub gate_reg : BusGate → Option ℕ
unfolding get_field gate_no
gate_reg gate = pick_reg (get_field (gate_no gate) 0x3 12) 0x060 0x064 0x068

unfoldable pub reset_reg : BusGate → Option ℕ
unfolding get_field gate_no
reset_reg gate = pick_reg (get_field (gate_no gate) 0x3 12) 0x2c0 0x2c4 0x2d0

abbrev pub set_at : Option ℕ → ℕ → Regs → Regs
set_at none i r = r
set_at (some addr) i r = wr addr (bit_or (rd addr r) (bit i)) r

abbrev pub clear_at : Option ℕ → ℕ → Regs → Regs
clear_at none i r = r
clear_at (some addr) i r = wr addr (bit_and (rd addr r) (not32 (bit i))) r

-- `bus_gate_enable`, and `bus_gate_disable`.
unfoldable pub bus_gate_enable : BusGate → Regs → Regs
unfolding gate_reg gate_no
bus_gate_enable gate r = set_at (gate_reg gate) (gate_bit gate) r

unfoldable pub bus_gate_disable : BusGate → Regs → Regs
unfolding gate_reg gate_no
bus_gate_disable gate r = clear_at (gate_reg gate) (gate_bit gate) r

-- `sw_reset_assert`, and `sw_reset_deassert`.
unfoldable pub sw_reset_assert : BusGate → Regs → Regs
unfolding reset_reg gate_no
sw_reset_assert gate r = clear_at (reset_reg gate) (gate_bit gate) r

unfoldable pub sw_reset_deassert : BusGate → Regs → Regs
unfolding reset_reg gate_no
sw_reset_deassert gate r = set_at (reset_reg gate) (gate_bit gate) r

-- `sw_reset_peripheral`, without its delay.
unfoldable pub sw_reset_peripheral : BusGate → Regs → Regs
unfolding sw_reset_assert sw_reset_deassert
sw_reset_peripheral gate r = sw_reset_deassert gate (sw_reset_assert gate r)

-- `bus_clk_init`.
unfoldable pub bus_clk_init : BusGate → Regs → Regs
unfolding bus_gate_enable sw_reset_peripheral
bus_clk_init gate r = sw_reset_peripheral gate (bus_gate_enable gate r)

-- `DramGate`.
pub data DramGate : Type 0 where
  dram_be dram_fe dram_tvd dram_deinterlace dram_csi dram_ve : DramGate

abbrev pub dram_gate_no : DramGate → ℕ
dram_gate_no dram_be = 26
dram_gate_no dram_fe = 24
dram_gate_no dram_tvd = 3
dram_gate_no dram_deinterlace = 2
dram_gate_no dram_csi = 1
dram_gate_no dram_ve = 0

-- `dram_gate_enable`, and `dram_gate_disable`.
unfoldable pub dram_gate_enable : DramGate → Regs → Regs
dram_gate_enable gate r = set_at (some 0x100) (dram_gate_no gate) r

unfoldable pub dram_gate_disable : DramGate → Regs → Regs
dram_gate_disable gate r = clear_at (some 0x100) (dram_gate_no gate) r
