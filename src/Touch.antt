-- ===== src/Touch.antt =====
-- src/touch.rs, and src/cst8xx.rs on an I2C bus with the calls that it makes.
pub mod Range
pub mod Report
use f1c100s_rs.Base.{
  ℕ, zero, suc, ◌+◌, ◌-◌, ◌*◌, ◌/◌, ◌%◌, Bool, true, false, not, Option, none, some, min, ltb, ◌==◌,
  List, [], ◌∷◌, if◌then◌else◌,
}
use f1c100s_rs.Bits.{bit_and, bit_or, shl32, shr32}
use f1c100s_rs.Mmio.{Regs}
use f1c100s_rs.Gpio.{Port, PullMode, set_function, set_pull_mode}
use f1c100s_rs.Gpio.Irq.{IrqType, set_irq_type, irq_enable, irq_disable}
use f1c100s_rs.Io.{Io, ok, err, Call, ◌>>=◌, ◌>>◌}

pub data TouchEvent : Type 0 where
  idle down up move : TouchEvent

-- `TouchEvent::from_cst8xx`; `None` is `idle`.
unfoldable pub from_cst8xx : ℕ → TouchEvent
from_cst8xx raw =
    if raw == 0 then down else if raw == 1 then up else if raw == 2 then move else idle

pub record TouchPoint : Type 0 where
  pub x : ℕ
  pub y : ℕ
  pub event : TouchEvent
  pub id : ℕ

abbrev pub default_point : TouchPoint
default_point = record { x = 0; y = 0; event = idle; id = 0 }

abbrev pub y_reverse : ℕ
y_reverse = 1

abbrev pub x_reverse : ℕ
x_reverse = 2

abbrev pub xy_exchange : ℕ
xy_exchange = 4

abbrev pub u16_mod : ℕ
u16_mod = 65536

abbrev pub sub16 : ℕ → ℕ → ℕ
sub16 a b = (a + u16_mod - b) % u16_mod

abbrev pub has_flag : ℕ → ℕ → Bool
has_flag flags flag = not (bit_and flags flag == 0)

-- `coord_transform`.
unfoldable pub coord_transform : (x y range_x range_y flags : ℕ) → ℕ × ℕ
coord_transform x y range_x range_y flags =
    if has_flag flags xy_exchange
    then (
      (if has_flag flags x_reverse then sub16 range_y y else y),
      (if has_flag flags y_reverse then sub16 range_x x else x),
    )
    else (
      (if has_flag flags x_reverse then sub16 range_x x else x),
      (if has_flag flags y_reverse then sub16 range_y y else y),
    )

pub record TouchIntPin : Type 0 where
  pub port : Port
  pub pin : ℕ
  pub pin_func : ℕ

-- `setup_int_pin`.
unfoldable pub setup_int_pin : TouchIntPin → Regs → Option Regs
unfolding set_function set_pull_mode set_irq_type
setup_int_pin p r = elim (set_function p.port p.pin p.pin_func r) [
  | none ↦ none
  | some r1 ↦ elim (set_pull_mode p.port p.pin PullMode.disable r1) [
    | none ↦ none
    | some r2 ↦ set_irq_type p.port p.pin IrqType.negative_edge r2
  ]
]

-- `int_enable` and `int_disable`.
unfoldable pub int_enable : TouchIntPin → Regs → Option Regs
unfolding irq_enable
int_enable p = irq_enable p.port p.pin

unfoldable pub int_disable : TouchIntPin → Regs → Option Regs
unfolding irq_disable
int_disable p = irq_disable p.port p.pin

-- What the driver calls of a `Twi`; its errors are all mapped to `()`. The length is the one of the
-- receive buffer.
pub record TwiBus (S : Type 0) : Type 0 where
  pub write_read : (addr reg len : ℕ) → Call S (Unit {0}) (ℕ → ℕ)
  pub write : (addr : ℕ) → List ℕ → Call S (Unit {0}) (Unit {0})

-- `Cst8xx`, but for its bus.
pub record Cst8xx : Type 0 where
  pub range_x : ℕ
  pub range_y : ℕ
  pub transform_flags : ℕ

-- `Cst8xx::new`.
abbrev pub new : Cst8xx
new = record { range_x = 480; range_y = 480; transform_flags = 0 }

-- `set_range` and `set_transform`.
abbrev pub set_range : (x y : ℕ) → Cst8xx → Cst8xx
set_range x y c = record c { range_x = x; range_y = y }

abbrev pub set_transform : ℕ → Cst8xx → Cst8xx
set_transform flags c = record c { transform_flags = flags }

abbrev pub cst_addr : ℕ
cst_addr = 0x15

abbrev pub max_touches : ℕ
max_touches = 5

-- The two coordinates, the event and the identifier in the six bytes from `off` on.
unfoldable pub decode : Cst8xx → (ℕ → ℕ) → ℕ → TouchPoint
unfolding coord_transform from_cst8xx
decode c raw off =
    let x = bit_or (bit_and (raw off) 0x0f * 256) (raw (off + 1)) in
    let y = bit_or (bit_and (raw (off + 2)) 0x0f * 256) (raw (off + 3)) in
    let (x', y') = coord_transform x y c.range_x c.range_y c.transform_flags in
    record { x = x'; y = y'; event = from_cst8xx (raw off / 64); id = raw (off + 2) / 16 }

module _ {S : Type 0} (bus : TwiBus S) where
  abbrev pub Touch : Type 0 → Type 0
  Touch A = Call S (Unit {0}) A

  -- `read_reg`.
  unfoldable pub read_reg : ℕ → Touch ℕ
  read_reg reg = do buf ← bus.write_read cst_addr reg 1; ok (buf 0)

  -- `write_reg`.
  unfoldable pub write_reg : (reg byte : ℕ) → Touch (Unit {0})
  write_reg reg byte = bus.write cst_addr (reg ∷ byte ∷ [])

  -- `read_regs`.
  unfoldable pub read_regs : (reg len : ℕ) → Touch (ℕ → ℕ)
  read_regs reg len = bus.write_read cst_addr reg len

  -- Whether a call succeeds, in the state that it leaves.
  abbrev pub is_ok : {A : Type 0} → Touch A → Touch Bool
  is_ok m s = elim (m s) [
    | Io.ok a s' ↦ ok true s'
    | Io.err e s' ↦ ok false s'
    | Io.spins ↦ Io.spins
    | Io.panics ↦ Io.panics
  ]

  -- `probe`.
  unfoldable pub probe : Touch Bool
  unfolding read_reg
  probe = do
    high ← is_ok (read_reg 0xab)
    low ← is_ok (read_reg 0xaa)
    ok (if high then low else false)

  -- `init`.
  unfoldable pub init : Touch (Unit {0})
  unfolding write_reg
  init = do write_reg 0xfa 0x40; write_reg 0xec 0; write_reg 0xfe 1

  -- `sleep`.
  unfoldable pub sleep : Touch (Unit {0})
  unfolding write_reg
  sleep = write_reg 0xa5 0x03

  -- `chip_type` and `fw_version`, with the registers of the high and the low byte.
  unfoldable pub read_word : (high_reg low_reg : ℕ) → Touch ℕ
  unfolding read_reg
  read_word high_reg low_reg = do
    high ← read_reg high_reg
    low ← read_reg low_reg
    ok (bit_or (high * 256) low)

  -- `touch_count`.
  unfoldable pub touch_count : Touch ℕ
  unfolding read_reg
  touch_count = read_reg 0x02

  -- `read_point`.
  unfoldable pub read_point : Cst8xx → Touch (Option TouchPoint)
  unfolding touch_count read_regs decode
  read_point c = do
    count ← touch_count
    if count == 0 then ok none else (do raw ← read_regs 0x03 6; ok (some (decode c raw 0)))

  -- `read_points`: the array, and how many of its points are set.
  unfoldable pub read_points : Cst8xx → Touch ((ℕ → TouchPoint) × ℕ)
  unfolding touch_count read_regs decode
  read_points c = do
    count ← touch_count
    if count == 0 then ok ((λ _. default_point), 0) else (do
      let n = min count max_touches
      raw ← read_regs 0x03 (n * 6)
      ok ((λ i. if ltb i n then decode c raw (i * 6) else default_point), n))

  -- `is_touched`.
  unfoldable pub is_touched : Touch Bool
  unfolding touch_count
  is_touched = do count ← touch_count; ok (ltb 0 count)
