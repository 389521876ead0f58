-- ===== src/Gpio/Pins.antt =====
-- What the functions of src/gpio.rs on one pin leave of the other pins.
use f1c100s_rs.Base.{
  ℕ, ◌+◌, ◌/◌, ◌<◌, ◌≤◌, ◌≡◌, ◌≢◌, ◌⊎◌, inl, inr, refl, sym, ap, ◌∙◌, Bool, true, false, not, ◌&&◌,
  some, lt→ltb, ◌==◌, ==_iff, eq→==, if◌then◌else◌, Bool-cases, arith, update, update_ne,
}
use f1c100s_rs.Mmio.{Regs, set_field, get_field}
use f1c100s_rs.Mmio.Fields.{get_field-set_field, get_field-away}
use f1c100s_rs.Gpio.{
  Port, port_no, port_base, cfg_addr, cfg_offset, data_addr, set_function, get_value, set_value,
  toggle, bool_no, pins_per_port,
}

port_no-lt : (p : Port) → port_no p < 6
unfolding port_no
port_no-lt Port.a = omega arith
port_no-lt Port.b = omega arith
port_no-lt Port.c = omega arith
port_no-lt Port.d = omega arith
port_no-lt Port.e = omega arith
port_no-lt Port.f = omega arith

-- The same pin of the same port.
abbrev pub same_pin : Port → ℕ → Port → ℕ → Bool
same_pin p pin q pin' = (port_no p == port_no q) && (pin == pin')

-- The function that the registers give a pin.
unfoldable pub function_of : Port → ℕ → Regs → ℕ
function_of p pin r = get_field (r (cfg_addr p pin)) 0x7 (cfg_offset pin)

same-addr :
    (p q : Port) (pin pin' : ℕ)
    → pin < 28
    → pin' < 28
    → cfg_addr q pin' ≡ cfg_addr p pin
    → (port_no p ≡ port_no q) × (pin / 8 ≡ pin' / 8)
unfolding cfg_addr port_base
same-addr p q pin pin' low low' h =
    let hp = port_no-lt p in let hq = port_no-lt q in (omega arith, omega arith)

abbrev with_function : Port → ℕ → ℕ → Regs → Regs
with_function p pin func r =
    update r (cfg_addr p pin) (set_field (r (cfg_addr p pin)) 0x7 (cfg_offset pin) func)

function_of-with_function :
    (p q : Port) (pin pin' func : ℕ) (r : Regs)
    → pin < 28
    → pin' < 28
    → func < 8
    → function_of q pin' (with_function p pin func r)
      ≡ (if same_pin p pin q pin' then func else function_of q pin' r)
unfolding function_of cfg_addr port_base
function_of-with_function p q pin pin' func r low low' small =
    let at = cfg_addr p pin in
    let val = set_field (r at) 0x7 (cfg_offset pin) func in
    elim (Bool-cases (cfg_addr q pin' == at)) [
      | inr other ↦
          let ne : cfg_addr q pin' ≢ at = ground (arith, other) in
          elim (Bool-cases (port_no p == port_no q)) [
            | inr ports ↦ rw ports (
                ap (λ x. get_field x 0x7 (cfg_offset pin'))
                  (update_ne r at (cfg_addr q pin') val ne))
            | inl ports ↦
                let pins : (pin == pin') ≡ false = ground arith in
                rw (ports, pins)
                  (ap (λ x. get_field x 0x7 (cfg_offset pin'))
                    (update_ne r at (cfg_addr q pin') val ne))
          ]
      | inl same ↦
          let same' : cfg_addr q pin' ≡ at = (==_iff (cfg_addr q pin') at).0 same in
          let (ports, words) = same-addr p q pin pin' low low' same' in
          let read : with_function p pin func r (cfg_addr q pin') ≡ val = rw same refl in
          let field = ap (λ x. get_field x 0x7 (cfg_offset pin')) read in
          elim (Bool-cases (pin == pin')) [
            | inl pins ↦
                let off : cfg_offset pin' ≡ cfg_offset pin = ground (arith, pins) in
                rw (eq→== (port_no p) (port_no q) ports, pins)
                  (field
                    ∙ ap (get_field val 0x7) off
                    ∙ get_field-set_field 3 (cfg_offset pin) (r at) func (omega arith) (omega arith)
                        small)
            | inr pins ↦
                let apart : (cfg_offset pin' + 3 ≤ cfg_offset pin)
                    ⊎ (cfg_offset pin + 3 ≤ cfg_offset pin') =
                  ground (arith, pins, words) in
                rw (eq→== (port_no p) (port_no q) ports, pins)
                  (field
                    ∙ get_field-away 3 (cfg_offset pin) (r at) func 3 (cfg_offset pin')
                        (omega arith) (omega arith) (omega arith) small apart
                    ∙ ap (λ x. get_field (r x) 0x7 (cfg_offset pin')) (sym same'))
          ]
    ]

-- For a pin below 28 and a function below 8, `set_function` gives the pin its function, and every
-- other pin of every port keeps its own.
pub set_function-pins :
    (p : Port) (pin func : ℕ) (r : Regs)
    → pin < pins_per_port
    → func < 8
    → (r' : Regs) × (set_function p pin func r ≡ some r')
      × ((q : Port) (pin' : ℕ)
          → pin' < pins_per_port
          → function_of q pin' r' ≡ (if same_pin p pin q pin' then func else function_of q pin' r))
unfolding set_function cfg_addr port_base function_of
set_function-pins p pin func r low small = (
  with_function p pin func r,
  rw (lt→ltb pin 28 low) refl,
  λ q pin' low'. function_of-with_function p q pin pin' func r low low' small,
)

-- The level that the data register of a port gives a pin.
unfoldable pub level_of : Port → ℕ → Regs → Bool
level_of p pin r = not (get_field (r (data_addr p)) 1 pin == 0)

abbrev with_value : Port → ℕ → Bool → Regs → Regs
with_value p pin v r = update r (data_addr p) (set_field (r (data_addr p)) 1 pin (bool_no v))

bool_no-lt : (v : Bool) → bool_no v < 2
bool_no-lt true = omega arith
bool_no-lt false = omega arith

bool_no-level : (v : Bool) → not (bool_no v == 0) ≡ v
bool_no-level true = refl
bool_no-level false = refl

level_of-with_value :
    (p q : Port) (pin pin' : ℕ) (v : Bool) (r : Regs)
    → pin < 28
    → pin' < 28
    → level_of q pin' (with_value p pin v r)
      ≡ (if same_pin p pin q pin' then v else level_of q pin' r)
unfolding level_of data_addr port_base
level_of-with_value p q pin pin' v r low low' =
    let at = data_addr p in
    let val = set_field (r at) 1 pin (bool_no v) in
    let level = λ (x : ℕ). not (get_field x 1 pin' == 0) in
    elim (Bool-cases (port_no p == port_no q)) [
      | inr ports ↦
          let ne : data_addr q ≢ at = ground (arith, ports) in
          rw ports (ap level (update_ne r at (data_addr q) val ne))
      | inl ports ↦
          let same : data_addr q ≡ at = ground (arith, ports) in
          let read : with_value p pin v r (data_addr q) ≡ val =
            rw (eq→== (data_addr q) at same) refl in
          elim (Bool-cases (pin == pin')) [
            | inl pins ↦
                let off : pin' ≡ pin = ground (arith, pins) in
                rw (ports, pins)
                  (ap level read
                    ∙ ap (λ i. not (get_field val 1 i == 0)) off
                    ∙ ap (λ x. not (x == 0))
                        (get_field-set_field 1 pin (r at) (bool_no v) (omega arith) (omega arith)
                          (bool_no-lt v))
                    ∙ bool_no-level v)
            | inr pins ↦
                let apart : (pin' + 1 ≤ pin) ⊎ (pin + 1 ≤ pin') = ground (arith, pins) in
                rw (ports, pins)
                  (ap level read
                    ∙ ap (λ x. not (x == 0))
                        (get_field-away 1 pin (r at) (bool_no v) 1 pin' (omega arith) (omega arith)
                          (omega arith) (bool_no-lt v) apart)
                    ∙ ap (λ x. level (r x)) (sym same))
          ]
    ]

-- `toggle` answers the opposite of the level that `get_value` read, and gives the pin that level;
-- every other pin keeps its own.
pub toggle-pins :
    (p : Port) (pin : ℕ) (r : Regs)
    → pin < pins_per_port
    → (was : Bool) × (r' : Regs) × (get_value p pin r ≡ some was)
      × (toggle p pin r ≡ some (not was, r'))
      × ((q : Port) (pin' : ℕ)
          → pin' < pins_per_port
          → get_value q pin' r'
            ≡ some (if same_pin p pin q pin' then not was else level_of q pin' r))
unfolding toggle get_value set_value level_of
toggle-pins p pin r low =
    let was = level_of p pin r in
    (
      was,
      with_value p pin (not was) r,
      rw (lt→ltb pin 28 low) refl,
      rw (lt→ltb pin 28 low) refl,
      λ q pin' low'.
          rw (lt→ltb pin' 28 low')
            (ap some (level_of-with_value p q pin pin' (not was) r low low')),
    )
