-- ===== src/Clock/Default.antt =====
-- The frequencies after `init_default` of src/clock.rs, whatever the registers held before.
use f1c100s_rs.Base.{ℕ, ◌+◌, ◌<◌, ◌≤◌, ◌⊎◌, ◌≡◌, refl, ◌∙◌, ap, true, arith, inl, inr}
use f1c100s_rs.Bits.{bit, bit_or, bit_and, not32, shl32, shr32, has_bit}
use f1c100s_rs.Bits.Masks.{has_bit-test_bit, test_bit-set}
use f1c100s_rs.Mmio.{Regs, get_field, set_field}
use f1c100s_rs.Mmio.Fields.{get_field-set_field, get_field-away}
use f1c100s_rs.Clock.{
  pll_cpu_ctrl, pll_periph_ctrl, cpu_cfg, ahb_apb_cfg, cpu_pll_hz, periph_pll_hz, cpu_clk_src,
  cpu_hz, ahb_hz, apb_hz,
}
use f1c100s_rs.Clock.Config.{
  kept, clk_cpu_config, clk_pll_init, clk_pll_enable, clk_hclk_config, clk_ahb_config,
  clk_apb_config, pll_cpu_init, pll_video_init, pll_periph_init, find_nk, find_pm, init_default,
}
use f1c100s_rs.Clock.Fields.{get_field-bit_or, get_field-cleared}

-- The registers that the queries read.
abbrev pll_word : ℕ → ℕ → ℕ
pll_word x y = bit_or (bit_or (kept x) y) (bit 31)

abbrev bus_word : ℕ → ℕ
bus_word x =
    let cfg = bit_and x (not32 (bit_or (shl32 0x3 12) (shl32 0xf 4))) in
    bit_or (bit_or (bit_or cfg (shl32 3 12)) (shl32 2 6)) (shl32 0 4)

cpu_word : (r : Regs) → init_default r pll_cpu_ctrl ≡ pll_word (r pll_cpu_ctrl) 0x1000
unfolding init_default clk_cpu_config clk_pll_init clk_pll_enable clk_hclk_config clk_ahb_config
    clk_apb_config pll_cpu_init pll_video_init pll_periph_init find_nk find_pm shl32
cpu_word r = refl

periph_word : (r : Regs) → init_default r pll_periph_ctrl ≡ pll_word (r pll_periph_ctrl) 0x41800
unfolding init_default clk_cpu_config clk_pll_init clk_pll_enable clk_hclk_config clk_ahb_config
    clk_apb_config pll_cpu_init pll_video_init pll_periph_init find_nk find_pm shl32 bit
periph_word r = refl

source_word :
    (r : Regs) → init_default r cpu_cfg ≡ set_field (set_field (r cpu_cfg) 0x3 16 1) 0x3 16 2
unfolding init_default clk_cpu_config clk_pll_init clk_pll_enable clk_hclk_config clk_ahb_config
    clk_apb_config pll_cpu_init pll_video_init pll_periph_init find_nk find_pm
source_word r = refl

ahb_word :
    (r : Regs)
    → init_default r ahb_apb_cfg ≡ set_field (bus_word (set_field (r ahb_apb_cfg) 0x3 16 0)) 0x3 8 1
unfolding init_default clk_cpu_config clk_pll_init clk_pll_enable clk_hclk_config clk_ahb_config
    clk_apb_config pll_cpu_init pll_video_init pll_periph_init find_nk find_pm
ahb_word r = refl

-- A field of a PLL word that lies below bit 28.
pll_field :
    (x y mask offset : ℕ)
    → offset < 32
    → get_field (bit_or (bit 31) (bit 28)) mask offset ≡ 0
    → get_field (bit 31) mask offset ≡ 0
    → get_field (pll_word x y) mask offset ≡ bit_or (get_field y mask offset) 0
pll_field x y mask offset h low high =
    rw
      (
        get_field-bit_or (bit_or (kept x) y) (bit 31) mask offset h,
        get_field-cleared x (bit_or (bit 31) (bit 28)) y mask offset h low,
        high,
      )
      refl

pll_on : (x y : ℕ) → has_bit (pll_word x y) 31 ≡ true
pll_on x y =
    has_bit-test_bit (pll_word x y) 31 (omega arith)
    ∙ test_bit-set (bit_or (kept x) y) 31 31 (omega arith)
    ∙ ground arith

cpu_pll : (r : Regs) → cpu_pll_hz (init_default r) ≡ 408000000
unfolding cpu_pll_hz get_field bit shr32
cpu_pll r =
    let x = r pll_cpu_ctrl in
    rw
      (
        cpu_word r,
        pll_on x 0x1000,
        pll_field x 0x1000 0x1f 8 (omega arith) refl refl,
        pll_field x 0x1000 0x3 4 (omega arith) refl refl,
        pll_field x 0x1000 0x3 0 (omega arith) refl refl,
        pll_field x 0x1000 0x3 16 (omega arith) refl refl,
      )
      refl

periph_pll : (r : Regs) → periph_pll_hz (init_default r) ≡ 600000000
unfolding periph_pll_hz get_field bit shr32
periph_pll r =
    let x = r pll_periph_ctrl in
    rw
      (
        periph_word r,
        pll_on x 0x41800,
        pll_field x 0x41800 0x1f 8 (omega arith) refl refl,
        pll_field x 0x41800 0x3 4 (omega arith) refl refl,
      )
      refl

-- The fields of the bus register after the APB divider was written.
bus_field :
    (x offset : ℕ)
    → offset + 2 ≤ 32
    → (offset + 2 ≤ 8) ⊎ (8 + 2 ≤ offset)
    → get_field (not32 (bit_or (shl32 0x3 12) (shl32 0xf 4))) 0x3 offset ≡ 0
    → get_field (set_field (bus_word x) 0x3 8 1) 0x3 offset
      ≡ bit_or
          (bit_or (get_field (shl32 3 12) 0x3 offset) (get_field (shl32 2 6) 0x3 offset))
          (get_field (shl32 0 4) 0x3 offset)
bus_field x offset h apart cleared =
    let k = not32 (bit_or (shl32 0x3 12) (shl32 0xf 4)) in
    let low : offset < 32 = omega arith in
    get_field-away 2 8 (bus_word x) 1 2 offset (omega arith) h (omega arith) (omega arith) apart
    ∙ rw
        (
          get_field-bit_or (bit_or (bit_or (bit_and x k) (shl32 3 12)) (shl32 2 6)) (shl32 0 4) 0x3
              offset low,
          get_field-bit_or (bit_or (bit_and x k) (shl32 3 12)) (shl32 2 6) 0x3 offset low,
          get_field-cleared x k (shl32 3 12) 0x3 offset low cleared,
        )
        refl

ahb : (r : Regs) → ahb_hz (init_default r) ≡ 200000000
unfolding ahb_hz get_field not32 shl32 shr32
ahb r =
    let x = set_field (r ahb_apb_cfg) 0x3 16 0 in
    rw
      (
        ahb_word r,
        bus_field x 12 (omega arith) (inr (omega arith)) refl,
        bus_field x 6 (omega arith) (inl (omega arith)) refl,
        bus_field x 4 (omega arith) (inl (omega arith)) refl,
        periph_pll r,
      )
      refl

source : (r : Regs) → cpu_clk_src (init_default r) ≡ 2
unfolding cpu_clk_src
source r =
    ap (λ x. get_field x 0x3 16) (source_word r)
    ∙ get_field-set_field 2 16 (set_field (r cpu_cfg) 0x3 16 1) 2 (omega arith) (omega arith)
        (omega arith)

-- `init_default` sets the CPU to 408 MHz, the AHB to 200 MHz and the APB to 100 MHz, as its doc
-- says, whatever the registers hold before.
pub init_default_lem :
    (r : Regs)
    → (cpu_hz (init_default r) ≡ 408000000)
      × (ahb_hz (init_default r) ≡ 200000000)
      × (apb_hz (init_default r) ≡ 100000000)
unfolding cpu_hz apb_hz
init_default_lem r =
    let x = set_field (r ahb_apb_cfg) 0x3 16 0 in
    let div : get_field (init_default r ahb_apb_cfg) 0x3 8 ≡ 1 =
      ap (λ y. get_field y 0x3 8) (ahb_word r)
      ∙ get_field-set_field 2 8 (bus_word x) 1 (omega arith) (omega arith) (omega arith) in
    (rw (source r) (cpu_pll r), ahb r, rw (div, ahb r) refl)
