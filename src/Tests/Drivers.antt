-- ===== src/Tests/Drivers.antt =====
-- The drivers of src/gpio.rs and src/clock.rs on registers that are all ones, but for the data
-- register of port E.
use f1c100s_rs.Base.{ℕ, ◌<◌, ◌≡◌, some, arith, if◌then◌else◌, update}
use f1c100s_rs.Mmio.{Regs}
use f1c100s_rs.Gpio.{Port, set_function, pins_per_port}
use f1c100s_rs.Gpio.Pins.{same_pin, function_of, set_function-pins}
use f1c100s_rs.Clock.{cpu_hz, ahb_hz, apb_hz}
use f1c100s_rs.Clock.Config.{init_default}
use f1c100s_rs.Clock.Default.{init_default_lem}

abbrev ones : Regs
ones = update (λ _. 0xffff_ffff) 0x01c208a0 0

set_function-pins_example :
    (r' : Regs) × (set_function Port.e 7 3 ones ≡ some r')
    × ((q : Port) (pin' : ℕ)
        → pin' < pins_per_port
        → function_of q pin' r' ≡ (if same_pin Port.e 7 q pin' then 3 else function_of q pin' ones))
set_function-pins_example = set_function-pins Port.e 7 3 ones (omega arith) (omega arith)

init_default_lem_example :
    (cpu_hz (init_default ones) ≡ 408000000)
    × (ahb_hz (init_default ones) ≡ 200000000)
    × (apb_hz (init_default ones) ≡ 100000000)
init_default_lem_example = init_default_lem ones
