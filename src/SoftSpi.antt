-- ===== src/SoftSpi.antt =====
-- src/soft_spi.rs, on the calls of src/gpio.rs that it makes. A failed assertion of the pins is the
-- outcome `panics`; the delays between the edges are left out.
pub mod Slave
pub mod Byte
pub mod Transfer
pub mod ThreeWire
use f1c100s_rs.Base.{
  ℕ, zero, suc, ◌+◌, ◌-◌, Bool, true, false, not, ◌&&◌, Option, none, some, ltb, ◌==◌,
  if◌then◌else◌, update,
}
use f1c100s_rs.Bits.{bit_and, bit_or, shl32, shr32}
use f1c100s_rs.Mmio.{Regs}
use f1c100s_rs.Gpio.{Port, port_no, PullMode, set_function, set_value, get_value, set_pull_mode}
use f1c100s_rs.Io.{Io, ok, panics, Call, ◌>>=◌, ◌>>◌, Slice}

-- A call that may fail by a panic, but has no error.
abbrev pub Pins : Type 0 → Type 0 → Type 0
Pins S A = Call S ⊥ A

pub data SpiMode : Type 0 where
  mode0 mode1 mode2 mode3 : SpiMode

-- `matches!(self.cfg.mode, SpiMode::Mode1 | SpiMode::Mode3)`.
abbrev pub cpha : SpiMode → Bool
cpha mode0 = false
cpha mode1 = true
cpha mode2 = false
cpha mode3 = true

-- `matches!(self.cfg.mode, SpiMode::Mode2 | SpiMode::Mode3)`.
abbrev pub cpol : SpiMode → Bool
cpol mode0 = false
cpol mode1 = false
cpol mode2 = true
cpol mode3 = true

-- `SoftSpiConfig`, without the delay.
pub record SoftSpiConfig : Type 0 where
  pub sck : Port × ℕ
  pub mosi : Port × ℕ
  pub miso : Port × ℕ
  pub mode : SpiMode
  pub cs : Option (Port × ℕ)

-- `SoftSpiConfig::new`.
abbrev pub new_config : (sck mosi miso : Port × ℕ) → SoftSpiConfig
new_config sck mosi miso = record { sck = sck; mosi = mosi; miso = miso; mode = mode0; cs = none }

-- `with_cs`.
abbrev pub with_cs_pin : Port × ℕ → SoftSpiConfig → SoftSpiConfig
with_cs_pin cs cfg = record cfg { cs = some cs }

-- `with_mode`.
abbrev pub with_mode : SpiMode → SoftSpiConfig → SoftSpiConfig
with_mode mode cfg = record cfg { mode = mode }

-- `is_3wire`.
unfoldable pub is_3wire : SoftSpiConfig → Bool
is_3wire cfg = (port_no (cfg.mosi.0) == port_no (cfg.miso.0)) && (cfg.mosi.1 == cfg.miso.1)

-- What the driver calls of src/gpio.rs.
pub record Gpio (S : Type 0) : Type 0 where
  pub set_function : Port × ℕ → (func : ℕ) → Pins S (Unit {0})
  pub set_value : Port × ℕ → Bool → Pins S (Unit {0})
  pub get_value : Port × ℕ → Pins S Bool
  pub set_pull_mode : Port × ℕ → PullMode → Pins S (Unit {0})

abbrev pub lift : Option Regs → Io Regs ⊥ (Unit {0})
lift none = panics
lift (some r) = ok tt r

-- The functions of src/gpio.rs on the registers.
unfoldable pub gpio : Gpio Regs
unfolding set_function set_value get_value set_pull_mode
gpio = record {
  set_function = λ pin func r. lift (set_function (pin.0) (pin.1) func r);
  set_value = λ pin value r. lift (set_value (pin.0) (pin.1) value r);
  get_value = λ pin r. elim (get_value (pin.0) (pin.1) r) [ none ↦ panics | some v ↦ ok v r ];
  set_pull_mode = λ pin mode r. lift (set_pull_mode (pin.0) (pin.1) mode r);
}

abbrev pub input : ℕ
input = 0

abbrev pub output : ℕ
output = 1

-- `(byte >> bit) & 1 != 0`.
unfoldable pub bit_of : (byte bit : ℕ) → Bool
bit_of byte bit = not (bit_and (shr32 byte bit) 1 == 0)

-- `rx |= 1 << bit` where the pin is high.
unfoldable pub collect : Bool → (bit rx : ℕ) → ℕ
collect v bit rx = if v then bit_or rx (shl32 1 bit) else rx

-- A byte of the buffer, or 0 behind its end.
abbrev pub tx_byte : Slice → ℕ → ℕ
tx_byte tx i = if ltb i tx.len then tx.at i else 0

module _ {S : Type 0} (gpio : Gpio S) (cfg : SoftSpiConfig) where
  -- A pin of `init`: an output of a level.
  abbrev pub init_output : Port × ℕ → Bool → Pins S (Unit {0})
  init_output pin level =
      gpio.set_function pin output
      >> gpio.set_value pin level
      >> gpio.set_pull_mode pin PullMode.disable

  abbrev pub skip : Pins S (Unit {0})
  skip = ok tt

  -- `init`.
  unfoldable pub init : Pins S (Unit {0})
  unfolding is_3wire
  init =
      init_output (cfg.sck) (cpol (cfg.mode))
      >> init_output (cfg.mosi) true
      >> (if is_3wire cfg
          then skip
          else (gpio.set_function (cfg.miso) input >> gpio.set_pull_mode (cfg.miso) PullMode.up))
      >> (elim cfg.cs [ none ↦ skip | some pin ↦ init_output pin true ])

  -- `sck_write`.
  abbrev pub sck_write : Bool → Pins S (Unit {0})
  sck_write = gpio.set_value (cfg.sck)

  -- `mosi_write`.
  abbrev pub mosi_write : Bool → Pins S (Unit {0})
  mosi_write = gpio.set_value (cfg.mosi)

  -- `miso_read`.
  abbrev pub miso_read : Pins S Bool
  miso_read = gpio.get_value (cfg.miso)

  -- `mosi_read`.
  abbrev pub mosi_read : Pins S Bool
  mosi_read = gpio.get_value (cfg.mosi)

  -- `cs_write`.
  unfoldable pub cs_write : Bool → Pins S (Unit {0})
  cs_write val = elim cfg.cs [ none ↦ skip | some pin ↦ gpio.set_value pin val ]

  -- A write of MOSI in one of the two phases.
  abbrev pub mosi_if : (now : Bool) → Bool → Pins S (Unit {0})
  mosi_if true level = mosi_write level
  mosi_if false level = skip

  -- One round of `transfer_byte`: the level to send, and what MISO has.
  unfoldable pub bit_cycle : Bool → Pins S Bool
  bit_cycle level =
      mosi_if (not (cpha (cfg.mode))) level
      >> sck_write (not (cpol (cfg.mode)))
      >> miso_read
      >>= (λ v. mosi_if (cpha (cfg.mode)) level >> sck_write (cpol (cfg.mode)) >> ok v)

  -- The loop of `transfer_byte` with `n` bits left.
  unfoldable pub byte_from : (n byte rx : ℕ) → Pins S ℕ
  unfolding bit_cycle bit_of collect
  byte_from zero byte rx = ok rx
  byte_from (suc n) byte rx =
      let rest = byte_from n byte in bit_cycle (bit_of byte n) >>= (λ v. rest (collect v n rx))

  -- `transfer_byte`.
  unfoldable pub transfer_byte : ℕ → Pins S ℕ
  unfolding byte_from
  transfer_byte byte = byte_from 8 byte 0

  -- MOSI is read in the middle of a round.
  unfoldable pub mosi_sample : Pins S Bool
  mosi_sample =
      gpio.set_function (cfg.mosi) input
      >> mosi_read
      >>= (λ v. gpio.set_function (cfg.mosi) output >> ok v)

  -- One round of `transfer_byte_3wire`.
  unfoldable pub bit_cycle_3wire : Bool → Pins S Bool
  unfolding mosi_sample
  bit_cycle_3wire level =
      mosi_if (not (cpha (cfg.mode))) level
      >> sck_write (not (cpol (cfg.mode)))
      >> mosi_sample
      >>= (λ v. sck_write (cpol (cfg.mode)) >> mosi_if (cpha (cfg.mode)) level >> ok v)

  -- The loop of `transfer_byte_3wire` with `n` bits left.
  unfoldable pub byte_from_3wire : (n byte rx : ℕ) → Pins S ℕ
  unfolding bit_cycle_3wire bit_of collect
  byte_from_3wire zero byte rx = ok rx
  byte_from_3wire (suc n) byte rx =
      let rest = byte_from_3wire n byte in
      bit_cycle_3wire (bit_of byte n) >>= (λ v. rest (collect v n rx))

  -- `transfer_byte_3wire`.
  unfoldable pub transfer_byte_3wire : ℕ → Pins S ℕ
  unfolding byte_from_3wire
  transfer_byte_3wire byte = gpio.set_function (cfg.mosi) output >> byte_from_3wire 8 byte 0

  -- A byte on three wires or on four.
  unfoldable pub any_byte : ℕ → Pins S ℕ
  unfolding is_3wire transfer_byte transfer_byte_3wire
  any_byte byte = if is_3wire cfg then transfer_byte_3wire byte else transfer_byte byte

  -- The loop of `transfer` from `i` on, with `n` bytes left.
  unfoldable pub transfer_from : (n i : ℕ) → Slice → (rx_len : ℕ) → (ℕ → ℕ) → Pins S (ℕ → ℕ)
  unfolding any_byte
  transfer_from zero i tx rx_len rx = ok rx
  transfer_from (suc n) i tx rx_len rx =
      let rest = transfer_from n (i + 1) tx rx_len in
      any_byte (tx_byte tx i) >>= (λ byte. rest (if ltb i rx_len then update rx i byte else rx))

  -- `transfer`: the bytes of the buffer after it.
  unfoldable pub transfer : Slice → (rx_len : ℕ) → (ℕ → ℕ) → Pins S (ℕ → ℕ)
  unfolding transfer_from
  transfer tx rx_len rx =
      transfer_from (if ltb tx.len rx_len then rx_len else tx.len) 0 tx rx_len rx

  -- The loop of `send`.
  unfoldable pub send_from : (n i : ℕ) → Slice → Pins S (Unit {0})
  unfolding any_byte
  send_from zero i tx = skip
  send_from (suc n) i tx = let rest = send_from n (i + 1) tx in any_byte (tx.at i) >> rest

  -- `send`.
  unfoldable pub send : Slice → Pins S (Unit {0})
  unfolding send_from
  send tx = send_from tx.len 0 tx

  -- The loop of `receive`.
  unfoldable pub receive_from : (n i : ℕ) → (ℕ → ℕ) → Pins S (ℕ → ℕ)
  unfolding any_byte
  receive_from zero i rx = ok rx
  receive_from (suc n) i rx =
      let rest = receive_from n (i + 1) in any_byte 0 >>= (λ byte. rest (update rx i byte))

  -- `receive`.
  unfoldable pub receive : (rx_len : ℕ) → (ℕ → ℕ) → Pins S (ℕ → ℕ)
  unfolding receive_from
  receive rx_len rx = receive_from rx_len 0 rx

  -- The ninth bit of `send_9bit`.
  unfoldable pub dc_cycle : Bool → Pins S (Unit {0})
  dc_cycle dc_bit =
      mosi_if (not (cpha (cfg.mode))) dc_bit
      >> sck_write (not (cpol (cfg.mode)))
      >> mosi_if (cpha (cfg.mode)) dc_bit
      >> sck_write (cpol (cfg.mode))

  -- `send_9bit`; `value as u8` is the low byte.
  unfoldable pub send_9bit : (value : ℕ) → Pins S (Unit {0})
  unfolding cs_write dc_cycle any_byte
  send_9bit value =
      cs_write false
      >> dc_cycle (not (bit_and value 0x100 == 0))
      >> any_byte (bit_and value 0xff)
      >> cs_write true

  -- `with_cs`.
  unfoldable pub with_cs : Pins S (Unit {0}) → Pins S (Unit {0})
  unfolding cs_write
  with_cs f = cs_write false >> f >> cs_write true
