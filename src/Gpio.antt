-- ===== src/Gpio.antt =====
-- src/gpio.rs. A failed assertion, and the `panic!` of `int_base`, is `none`.
pub mod Irq
pub mod Pins
pub mod Reset
use f1c100s_rs.Base.{
  ℕ, ◌+◌, ◌-◌, ◌*◌, ◌/◌, ◌%◌, Bool, true, false, not, Option, none, some, ltb, ◌==◌, if◌then◌else◌,
  List, [], ◌∷◌,
}
use f1c100s_rs.Bits.{bit, bit_and, bit_or, not32, shl32, shr32}
use f1c100s_rs.Mmio.{◌>>=◌, Regs, rd, wr, set_field, get_field}

pub data Port : Type 0 where
  a b c d e f : Port

-- `port as u32`.
unfoldable pub port_no : Port → ℕ
port_no a = 0
port_no b = 1
port_no c = 2
port_no d = 3
port_no e = 4
port_no f = 5

abbrev pub pins_per_port : ℕ
pins_per_port = 28

pub data PullMode : Type 0 where
  disable up down : PullMode

abbrev pub pull_no : PullMode → ℕ
pull_no disable = 0
pull_no up = 1
pull_no down = 2

-- `port_base`.
unfoldable pub port_base : Port → ℕ
unfolding port_no
port_base p = 0x01c20800 + port_no p * 0x24

-- The register and the position of the function of a pin.
unfoldable pub cfg_addr : Port → ℕ → ℕ
unfolding port_base
cfg_addr p pin = port_base p + pin / 8 * 4

abbrev pub cfg_offset : ℕ → ℕ
cfg_offset pin = pin % 8 * 4

-- `set_function`.
unfoldable pub set_function : Port → (pin func : ℕ) → Regs → Option Regs
unfolding cfg_addr set_field
set_function p pin func r =
    if ltb pin pins_per_port
    then some (wr (cfg_addr p pin) (set_field (rd (cfg_addr p pin) r) 0x7 (cfg_offset pin) func) r)
    else none

unfoldable pub data_addr : Port → ℕ
unfolding port_base
data_addr p = port_base p + 0x10

-- `get_value`.
unfoldable pub get_value : Port → ℕ → Regs → Option Bool
unfolding data_addr get_field
get_value p pin r =
    if ltb pin pins_per_port then some (not (get_field (rd (data_addr p) r) 1 pin == 0)) else none

abbrev pub bool_no : Bool → ℕ
bool_no true = 1
bool_no false = 0

-- `set_value`.
unfoldable pub set_value : Port → ℕ → Bool → Regs → Option Regs
unfolding data_addr set_field
set_value p pin value r =
    if ltb pin pins_per_port
    then some (wr (data_addr p) (set_field (rd (data_addr p) r) 1 pin (bool_no value)) r)
    else none

-- `direction_input`.
unfoldable pub direction_input : Port → ℕ → Regs → Option Regs
unfolding set_function
direction_input p pin = set_function p pin 0

-- `direction_output`.
unfoldable pub direction_output : Port → ℕ → Bool → Regs → Option Regs
unfolding set_function set_value
direction_output p pin value r = do r' ← set_value p pin value r; set_function p pin 1 r'

-- `toggle`: the new level.
unfoldable pub toggle : Port → ℕ → Regs → Option (Bool × Regs)
unfolding get_value set_value
toggle p pin r = do
  current ← get_value p pin r
  r' ← set_value p pin (not current) r
  some (not current, r')

-- The two bits of a pin in the pair of registers from `base` on.
abbrev pub pair_addr : ℕ → ℕ → ℕ
pair_addr base pin = base + (if ltb 15 pin then 1 else 0) * 4

-- `set_pull_mode`.
unfoldable pub set_pull_mode : Port → ℕ → PullMode → Regs → Option Regs
unfolding port_base set_field
set_pull_mode p pin mode r =
    let addr = pair_addr (port_base p + 0x1c) pin in
    if ltb pin pins_per_port
    then some (wr addr (set_field (rd addr r) 0x3 (bit_and pin 0xf * 2) (pull_no mode)) r)
    else none

-- `set_drive_level`; the level is 0 to 3.
unfoldable pub set_drive_level : Port → ℕ → ℕ → Regs → Option Regs
unfolding port_base set_field
set_drive_level p pin level r =
    let addr = pair_addr (port_base p + 0x14) pin in
    if ltb pin pins_per_port
    then some (wr addr (set_field (rd addr r) 0x3 (bit_and pin 0xf * 2) level) r)
    else none
