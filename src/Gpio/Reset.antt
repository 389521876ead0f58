-- ===== src/Gpio/Reset.antt =====
-- `init_default` of src/gpio.rs.
use f1c100s_rs.Base.{ℕ, ◌+◌, ◌*◌, ◌^◌}
use f1c100s_rs.Bits.{bit_and, bit_or, not32}
use f1c100s_rs.Mmio.{Regs, rd, wr}
use f1c100s_rs.Gpio.{Port, a, b, c, d, e, f, port_base}

abbrev pub all_disabled : ℕ
all_disabled = 0x7777_7777

-- What `init_default` does with a port.
unfoldable pub init_port : Port → Regs → Regs
unfolding port_base
init_port b r = r
init_port e r =
    let base = port_base e in
    let high = 0xf * 2 ^ 28 in
    let r0 = wr base (bit_or (bit_and all_disabled (not32 high)) (bit_and (rd base r) high)) r in
    let r1 =
      wr (base + 4) (bit_or (bit_and all_disabled (not32 0xf)) (bit_and (rd (base + 4) r0) 0xf))
        r0 in
    wr (base + 12) all_disabled (wr (base + 8) all_disabled r1)
init_port p r =
    let base = port_base p in
    wr (base + 12) all_disabled
      (wr (base + 8) all_disabled (wr (base + 4) all_disabled (wr base all_disabled r)))

-- `init_default`.
unfoldable pub init_default : Regs → Regs
unfolding init_port
init_default r = init_port f (init_port e (init_port d (init_port c (init_port b (init_port a r)))))
