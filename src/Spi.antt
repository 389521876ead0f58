-- ===== src/Spi.antt =====
-- src/spi.rs. A controller is a device `D`: a read of a register answers a word and may change the
-- device, a write changes it. The data registers, which take bytes, are two more registers.
pub mod Rate
pub mod Ends
pub mod Transfer
use f1c100s_rs.Base.{
  ℕ, zero, suc, ◌+◌, ◌-◌, ◌*◌, ◌/◌, ◌%◌, min, Bool, true, false, not, Option, none, some, List, [],
  ◌∷◌, length, ltb, ◌==◌, if◌then◌else◌, get_or, update,
}
use f1c100s_rs.Bits.{bit_and, bit_or, not32, shl32, shr32, u32_mod}
use f1c100s_rs.Mmio.{Regs}
use f1c100s_rs.Mmio
use f1c100s_rs.Gpio.{Port, PullMode, set_function, set_pull_mode, set_drive_level}
use f1c100s_rs.Clock.Gates.{BusGate, bus_clk_init}
use f1c100s_rs.Io.{Io, ok, err, spins, panics, Call, ◌>>=◌, ◌>>◌, finally, map_err, Slice}
use f1c100s_rs.SpiFlash.{FlashError, SpiBus, part}

pub data SpiError : Type 0 where
  timeout : SpiError

pub data SpiMode : Type 0 where
  mode0 mode1 mode2 mode3 : SpiMode

pub data BitOrder : Type 0 where
  msb_first lsb_first : BitOrder

pub data ChipSelect : Type 0 where
  ss0 ss1 ss2 ss3 : ChipSelect

abbrev pub cs_no : ChipSelect → ℕ
cs_no ss0 = 0
cs_no ss1 = 1
cs_no ss2 = 2
cs_no ss3 = 3

pub record SpiPins : Type 0 where
  pub clk_port : Port
  pub clk_pin : ℕ
  pub mosi_port : Port
  pub mosi_pin : ℕ
  pub miso_port : Port
  pub miso_pin : ℕ
  pub cs_port : Port
  pub cs_pin : ℕ
  pub pin_func : ℕ

pub record Spi : Type 0 where
  pub base : ℕ
  pub gate : BusGate
  pub ahb_hz : ℕ

abbrev pub ctrl_reg : ℕ
ctrl_reg = 0x04

abbrev pub tctrl_reg : ℕ
tctrl_reg = 0x08

abbrev pub fctl_reg : ℕ
fctl_reg = 0x18

abbrev pub fst_reg : ℕ
fst_reg = 0x1c

abbrev pub cctr_reg : ℕ
cctr_reg = 0x24

abbrev pub bc_reg : ℕ
bc_reg = 0x30

abbrev pub tc_reg : ℕ
tc_reg = 0x34

abbrev pub bcc_reg : ℕ
bcc_reg = 0x38

abbrev pub txd_reg : ℕ
txd_reg = 0x200

abbrev pub rxd_reg : ℕ
rxd_reg = 0x300

abbrev pub rst_bit : ℕ
rst_bit = 0x80000000

-- `TP_EN`, `MODE_MASTER` and `EN`.
abbrev pub enabled_bits : ℕ
enabled_bits = 0x83

abbrev pub xch_bit : ℕ
xch_bit = 0x80000000

abbrev pub fbs_lsb_bit : ℕ
fbs_lsb_bit = 0x1000

abbrev pub ss_level_bit : ℕ
ss_level_bit = 0x80

-- `SS_OWNER_SW`, `SPOL` and `SS_LEVEL`.
abbrev pub idle_bits : ℕ
idle_bits = 0xc4

abbrev pub tf_rst_bit : ℕ
tf_rst_bit = 0x80000000

abbrev pub rf_rst_bit : ℕ
rf_rst_bit = 0x8000

abbrev pub drs_bit : ℕ
drs_bit = 0x1000

abbrev pub fifo_size : ℕ
fifo_size = 64

abbrev pub bus_max_clk : ℕ
bus_max_clk = 30000000

-- One pin in `init`.
unfoldable pub init_pin : Port → (pin func : ℕ) → Regs → Option Regs
unfolding set_function set_pull_mode set_drive_level
init_pin port pin func r =
    Mmio.◌>>=◌ (Mmio.◌>>=◌ (set_function port pin func r) (set_pull_mode port pin PullMode.disable))
      (set_drive_level port pin 0)

-- `init`; `none` is a failed assertion of the pins.
unfoldable pub init : Spi → SpiPins → Regs → Option Regs
unfolding init_pin bus_clk_init
init spi pins r = Mmio.◌>>=◌ (init_pin pins.clk_port pins.clk_pin pins.pin_func r) (λ r1.
    Mmio.◌>>=◌ (init_pin pins.mosi_port pins.mosi_pin pins.pin_func r1) (λ r2.
      Mmio.◌>>=◌ (init_pin pins.miso_port pins.miso_pin pins.pin_func r2) (λ r3.
        Mmio.◌>>=◌ (init_pin pins.cs_port pins.cs_pin pins.pin_func r3)
          (λ r4. some (bus_clk_init spi.gate r4)))))

-- The loop of `set_clock` for the divider of powers of two, with `k` values of `n` left.
unfoldable pub find_cdr1 : (k n div_eff div : ℕ) → ℕ
find_cdr1 zero n div_eff div = n
find_cdr1 (suc k) n div_eff div =
    let rest = find_cdr1 k (n + 1) (div_eff * 2) div in if ltb div_eff div then rest else n

-- The word that `set_clock` writes; `none` is a division by zero.
unfoldable pub rate_word : (ahb_hz max_hz : ℕ) → Option ℕ
unfolding find_cdr1
rate_word ahb_hz max_hz =
    let limit = min max_hz bus_max_clk in
    let ceil = (ahb_hz + limit + u32_mod - 1) % u32_mod / limit in
    let div = if ltb ceil 1 then 1 else ceil in
    if limit == 0
    then none
    else if ltb 512 div
    then some (shl32 (bit_and (find_cdr1 15 0 2 div) 0xf) 8)
    else some (bit_or drs_bit (bit_and ((div + 1) / 2 - 1) 0xff))

-- The bits of the mode in the transfer control.
abbrev pub mode_bits : SpiMode → ℕ
mode_bits mode0 = 0
mode_bits mode1 = 1
mode_bits mode2 = 2
mode_bits mode3 = 3

-- `tctrl_val` in `configure`.
unfoldable pub tctrl_word : SpiMode → BitOrder → ChipSelect → ℕ
tctrl_word mode msb_first cs = bit_or (bit_or idle_bits (mode_bits mode)) (shl32 (cs_no cs) 4)
tctrl_word mode lsb_first cs =
    bit_or (bit_or (bit_or idle_bits (mode_bits mode)) fbs_lsb_bit) (shl32 (cs_no cs) 4)

-- A slice_of of the elements of a list.
abbrev pub slice_of : List ℕ → Slice
slice_of bytes = record { at = λ i. get_or bytes i 0; len = length bytes }

module _ {D : Type 0} (dev_read : ℕ → D → ℕ × D) (dev_write : ℕ → ℕ → D → D) (spi : Spi) where
  -- `spi_read` and `spi_read_byte`.
  abbrev pub spi_read : ℕ → D → ℕ × D
  spi_read offset = dev_read (spi.base + offset)

  -- `spi_write` and `spi_write_byte`.
  abbrev pub spi_write : (offset val : ℕ) → D → D
  spi_write offset = dev_write (spi.base + offset)

  -- A register is read, changed and written back.
  abbrev pub modify : ℕ → (ℕ → ℕ) → D → D
  modify offset f d = let (val, d') = spi_read offset d in spi_write offset (f val) d'

  -- Whether a register has a bit of a mask.
  unfoldable pub has_bit : (offset mask : ℕ) → D → Bool × D
  has_bit offset mask d = let (val, d') = spi_read offset d in (not (bit_and val mask == 0), d')

  -- `disable`.
  unfoldable pub disable : D → D
  disable = modify ctrl_reg (λ val. bit_and val (not32 1))

  -- `reset_ctrl`.
  unfoldable pub reset_ctrl : D → D
  reset_ctrl = spi_write ctrl_reg rst_bit

  -- A wait without a bound, with at most `n` rounds.
  unfoldable pub wait_clear : ℕ → (D → Bool × D) → Call D SpiError (Unit {0})
  wait_clear zero test d = spins
  wait_clear (suc n) test d =
      let rest = wait_clear n test in
      let (waits, d') = test d in if waits then rest d' else ok tt d'

  -- `reset_fifos`.
  unfoldable pub reset_fifos : (rounds : ℕ) → Call D SpiError (Unit {0})
  unfolding wait_clear has_bit
  reset_fifos rounds =
      (λ d. ok tt (spi_write fctl_reg tf_rst_bit d))
      >> wait_clear rounds (has_bit fctl_reg tf_rst_bit)
      >> (λ d. ok tt (spi_write fctl_reg rf_rst_bit d))
      >> wait_clear rounds (has_bit fctl_reg rf_rst_bit)

  -- The wait for the reset in `configure`, with `n` left of the timeout; it ends in any case.
  unfoldable pub wait_reset : (n : ℕ) → D → D
  unfolding has_bit
  wait_reset zero d = let (waits, d') = has_bit ctrl_reg rst_bit d in d'
  wait_reset (suc n) d =
      let rest = wait_reset n in
      let (waits, d') = has_bit ctrl_reg rst_bit d in if waits then rest d' else d'

  -- `set_clock`.
  unfoldable pub set_clock : (max_hz : ℕ) → Call D SpiError (Unit {0})
  unfolding rate_word
  set_clock max_hz d = elim (rate_word spi.ahb_hz max_hz) [
    | none ↦ panics
    | some word ↦ ok tt (spi_write cctr_reg word d)
  ]

  -- `configure`.
  unfoldable pub configure :
      (rounds : ℕ) → SpiMode → BitOrder → ChipSelect → (max_hz : ℕ) → Call D SpiError (Unit {0})
  unfolding set_clock tctrl_word reset_fifos
  configure rounds mode order cs max_hz =
      set_clock max_hz
      >> (λ d. ok tt (
          spi_write tctrl_reg (tctrl_word mode order cs)
            (wait_reset 0xfffff (spi_write ctrl_reg (bit_or rst_bit enabled_bits) d))))
      >> reset_fifos rounds

  -- `tx_fifo_count`.
  unfoldable pub tx_fifo_count : D → ℕ × D
  tx_fifo_count d = let (val, d') = spi_read fst_reg d in (bit_and (shr32 val 16) 0xff, d')

  -- `rx_fifo_count`.
  unfoldable pub rx_fifo_count : D → ℕ × D
  rx_fifo_count d = let (val, d') = spi_read fst_reg d in (bit_and val 0xff, d')

  -- `cs_assert`.
  unfoldable pub cs_assert : D → D
  cs_assert = modify tctrl_reg (λ val. bit_and val (not32 ss_level_bit))

  -- `cs_deassert`.
  unfoldable pub cs_deassert : D → D
  cs_deassert = modify tctrl_reg (λ val. bit_or val ss_level_bit)
