-- ===== src/Uart.antt =====
-- src/uart.rs, on a device as in Spi.
pub mod Latch
pub mod Sends
use f1c100s_rs.Base.{
  ℕ, zero, suc, ◌+◌, ◌-◌, ◌*◌, ◌/◌, ◌%◌, Bool, true, false, not, Option, none, some, ltb, ◌==◌,
  if◌then◌else◌,
}
use f1c100s_rs.Bits.{bit_and, bit_or, shr32, u32_mod}
use f1c100s_rs.Mmio.{Regs}
use f1c100s_rs.Gpio.{Port, set_function}
use f1c100s_rs.Clock.{apb_hz}
use f1c100s_rs.Clock.Gates.{BusGate, bus_clk_init}
use f1c100s_rs.Io.{Io, ok, err, spins, panics, Call, ◌>>=◌, ◌>>◌, Slice}

abbrev pub rbr_thr_dll : ℕ
rbr_thr_dll = 0x00

abbrev pub ier_dlh : ℕ
ier_dlh = 0x04

abbrev pub iir_fcr : ℕ
iir_fcr = 0x08

abbrev pub lcr : ℕ
lcr = 0x0c

abbrev pub mcr : ℕ
mcr = 0x10

abbrev pub lsr : ℕ
lsr = 0x14

abbrev pub usr : ℕ
usr = 0x7c

abbrev pub dlab_bit : ℕ
dlab_bit = 0x80

abbrev pub parity_even_bit : ℕ
parity_even_bit = 0x10

abbrev pub parity_en_bit : ℕ
parity_en_bit = 0x08

abbrev pub stop_bits_bit : ℕ
stop_bits_bit = 0x04

-- `word_len`.
unfoldable pub word_len : ℕ → ℕ
word_len bits = bit_and ((bits + u32_mod - 5) % u32_mod) 0x3

pub data DataBits : Type 0 where
  bits5 bits6 bits7 bits8 : DataBits

abbrev pub data_bits_no : DataBits → ℕ
data_bits_no bits5 = 5
data_bits_no bits6 = 6
data_bits_no bits7 = 7
data_bits_no bits8 = 8

pub data StopBits : Type 0 where
  stop1 stop2 : StopBits

pub data Parity : Type 0 where
  no_parity even odd : Parity

pub record UartConfig : Type 0 where
  pub baud_rate : ℕ
  pub data_bits : DataBits
  pub stop_bits : StopBits
  pub parity : Parity

-- `UartConfig::default`.
abbrev pub default_uart : UartConfig
default_uart = record {
  baud_rate = 115200;
  data_bits = bits8;
  stop_bits = stop1;
  parity = no_parity;
}

abbrev pub stop_word : StopBits → ℕ
stop_word stop1 = 0
stop_word stop2 = stop_bits_bit

abbrev pub parity_word : Parity → ℕ
parity_word no_parity = 0
parity_word even = bit_or parity_en_bit parity_even_bit
parity_word odd = parity_en_bit

-- `lcr_val` in `configure`.
unfoldable pub lcr_word : UartConfig → ℕ
unfolding word_len
lcr_word config =
    bit_or (bit_or (word_len (data_bits_no config.data_bits)) (stop_word config.stop_bits))
      (parity_word config.parity)

pub record LineErrors : Type 0 where
  pub overrun : Bool
  pub parity_error : Bool
  pub framing : Bool
  pub break_int : Bool

-- `base` of the three UARTs.
pub data UartNo : Type 0 where
  uart0 uart1 uart2 : UartNo

abbrev pub uart_base : UartNo → ℕ
uart_base uart0 = 0x01c25000
uart_base uart1 = 0x01c25400
uart_base uart2 = 0x01c25800

module _ {D : Type 0} (dev_read : ℕ → D → ℕ × D) (dev_write : ℕ → ℕ → D → D) (base : ℕ) where
  -- `rd`.
  abbrev pub rd : ℕ → Call D ⊥ ℕ
  rd offset d = let (val, d') = dev_read (base + offset) d in ok val d'

  -- `wr`.
  abbrev pub wr : (offset val : ℕ) → Call D ⊥ (Unit {0})
  wr offset val d = ok tt (dev_write (base + offset) val d)

  -- `configure`, with the answer of `clock::apb_hz`; a division by zero is a panic.
  unfoldable pub configure : (apb : ℕ) → UartConfig → Call D ⊥ (Unit {0})
  unfolding lcr_word
  configure apb config =
      let rate = config.baud_rate * 16 % u32_mod in
      let divisor = apb / rate in
      wr ier_dlh 0
      >> wr iir_fcr 0x07
      >> wr mcr 0
      >> wr lcr dlab_bit
      >> (λ d. if rate == 0 then panics else ok tt d)
      >> wr rbr_thr_dll (bit_and divisor 0xff)
      >> wr ier_dlh (bit_and (shr32 divisor 8) 0xff)
      >> wr lcr (lcr_word config)

  -- `enable_rx_interrupt`.
  unfoldable pub enable_rx_interrupt : Call D ⊥ (Unit {0})
  enable_rx_interrupt = rd ier_dlh >>= (λ val. wr ier_dlh (bit_or val 1))

  -- `disable_interrupts`.
  unfoldable pub disable_interrupts : Call D ⊥ (Unit {0})
  disable_interrupts = wr ier_dlh 0

  -- `tx_ready`.
  unfoldable pub tx_ready : Call D ⊥ Bool
  tx_ready = rd usr >>= (λ val. ok (not (bit_and val 2 == 0)))

  -- A wait without a bound, with at most `n` rounds.
  unfoldable pub wait_until : ℕ → Call D ⊥ Bool → Call D ⊥ (Unit {0})
  wait_until zero test d = spins
  wait_until (suc n) test d =
      let rest = wait_until n test in (test >>= (λ ready. if ready then ok tt else rest)) d

  -- `write_byte`.
  unfoldable pub write_byte : (rounds byte : ℕ) → Call D ⊥ (Unit {0})
  unfolding wait_until tx_ready
  write_byte rounds byte = wait_until rounds tx_ready >> wr rbr_thr_dll byte

  -- The loop of `write` from `i` on, with `n` bytes left.
  unfoldable pub write_from : (n i rounds : ℕ) → Slice → Call D ⊥ (Unit {0})
  unfolding write_byte
  write_from zero i rounds bytes = ok tt
  write_from (suc n) i rounds bytes =
      let rest = write_from n (i + 1) rounds bytes in write_byte rounds (bytes.at i) >> rest

  -- `write` and `write_str`.
  unfoldable pub write : (rounds : ℕ) → Slice → Call D ⊥ (Unit {0})
  unfolding write_from
  write rounds bytes = write_from bytes.len 0 rounds bytes

  -- `rx_ready`.
  unfoldable pub rx_ready : Call D ⊥ Bool
  rx_ready = rd lsr >>= (λ val. ok (not (bit_and val 1 == 0)))

  -- `read_byte`.
  unfoldable pub read_byte : Call D ⊥ (Option ℕ)
  unfolding rx_ready
  read_byte = rx_ready >>= (λ ready.
      if ready then (rd rbr_thr_dll >>= (λ val. ok (some (bit_and val 0xff)))) else ok none)

  -- `read_byte_blocking`.
  unfoldable pub read_byte_blocking : (rounds : ℕ) → Call D ⊥ ℕ
  unfolding wait_until rx_ready
  read_byte_blocking rounds =
      wait_until rounds rx_ready >> rd rbr_thr_dll >>= (λ val. ok (bit_and val 0xff))

  -- `line_errors`.
  unfoldable pub line_errors : Call D ⊥ LineErrors
  line_errors = rd lsr >>= (λ val. ok (record {
    overrun = not (bit_and val 2 == 0);
    parity_error = not (bit_and val 4 == 0);
    framing = not (bit_and val 8 == 0);
    break_int = not (bit_and val 16 == 0);
  }))

  -- `interrupt_status`.
  unfoldable pub interrupt_status : Call D ⊥ ℕ
  interrupt_status = rd iir_fcr >>= (λ val. ok (bit_and val 0x0f))

-- The pins and the gate of a UART; `none` is a failed assertion of the pins.
unfoldable pub uart_pins : UartNo → Regs → Option Regs
unfolding set_function bus_clk_init
uart_pins uart0 r = elim (set_function Port.e 0 5 (bus_clk_init BusGate.uart0 r)) [
  | none ↦ none
  | some r1 ↦ set_function Port.e 1 5 r1
]
uart_pins uart1 r = elim (set_function Port.a 2 5 (bus_clk_init BusGate.uart1 r)) [
  | none ↦ none
  | some r1 ↦ set_function Port.a 3 5 r1
]
uart_pins uart2 r = elim (set_function Port.e 8 3 r) [
  | none ↦ none
  | some r1 ↦ elim (set_function Port.e 7 3 r1) [
    | none ↦ none
    | some r2 ↦ some (bus_clk_init BusGate.uart2 r2)
  ]
]

-- `init_uart0`, `init_uart1` and `init_uart2`, on the other registers and the UART.
unfoldable pub init_uart :
    {D : Type 0} → (ℕ → D → ℕ × D) → (ℕ → ℕ → D → D) → UartNo → Call (Regs × D) ⊥ (Unit {0})
unfolding uart_pins configure apb_hz
init_uart dev_read dev_write uart (r, d) = elim (uart_pins uart r) [
  | none ↦ panics
  | some r' ↦ elim (configure dev_read dev_write (uart_base uart) (apb_hz r') default_uart d) [
    | ok _ d' ↦ ok tt (r', d')
    | err e d' ↦ err e (r', d')
    | spins ↦ spins
    | panics ↦ panics
  ]
]
