-- ===== src/Clock/Config.antt =====
-- The clock configuration of src/clock.rs. Delays are left out, and so are the waits for a stable
-- PLL in `init_default`, whose result is not used.
use f1c100s_rs.Base.{ℕ, zero, suc, ◌+◌, ◌-◌, ◌*◌, ◌/◌, ◌&&◌, ◌||◌, not, ltb, ◌==◌, if◌then◌else◌}
use f1c100s_rs.Bits.{bit, bit_and, bit_or, not32, shl32}
use f1c100s_rs.Mmio.{Regs, rd, wr, set_field}
use f1c100s_rs.Clock.{
  pll_cpu_ctrl, pll_video_ctrl, pll_ve_ctrl, pll_periph_ctrl, cpu_cfg, ahb_apb_cfg,
}

-- `clk_hclk_config`.
unfoldable pub clk_hclk_config : ℕ → Regs → Regs
unfolding set_field
clk_hclk_config div r =
    if div == 0 || ltb 4 div
    then r
    else wr ahb_apb_cfg (set_field (rd ahb_apb_cfg r) 0x3 16 (div - 1)) r

-- The encoding of the divider in `clk_ahb_config`.
abbrev pub ahb_code : ℕ → ℕ
ahb_code div = if div == 3 then 4 else (if div == 8 then 4 else div)

-- `clk_ahb_config`.
unfoldable pub clk_ahb_config : (src pre_div div : ℕ) → Regs → Regs
clk_ahb_config src pre_div div r =
    if (pre_div == 0 || ltb 4 pre_div || div == 0 || ((ltb 4 div && not (div == 8)) || div == 3))
    then r
    else (let cfg = bit_and (rd ahb_apb_cfg r) (not32 (bit_or (shl32 0x3 12) (shl32 0xf 4))) in
        wr ahb_apb_cfg
          (bit_or (bit_or (bit_or cfg (shl32 src 12)) (shl32 (pre_div - 1) 6))
            (shl32 (ahb_code div - 1) 4))
          r)

-- `clk_apb_config`; the other divisors return early.
unfoldable pub clk_apb_config : ℕ → Regs → Regs
unfolding set_field
clk_apb_config div r =
    let write = λ (code : ℕ). wr ahb_apb_cfg (set_field (rd ahb_apb_cfg r) 0x3 8 code) r in
    if div == 0 || ltb 8 div || div == 3 || div == 5 || div == 6 || div == 7
    then r
    else (if div == 1 || div == 2
        then write 0x1
        else (if div == 4 then write 0x2 else (if div == 8 then write 0x3 else r)))

-- `clk_cpu_config`.
unfoldable pub clk_cpu_config : ℕ → Regs → Regs
unfolding set_field
clk_cpu_config src r = if ltb 2 src then r else wr cpu_cfg (set_field (rd cpu_cfg r) 0x3 16 src) r

-- The first loop of `pll_cpu_init`, with `rounds` more rounds: `n` and `k`.
unfoldable pub find_nk : ℕ → ℕ → ℕ → ℕ × ℕ
find_nk zero i mul = (mul / i, i)
find_nk (suc rounds) i mul =
    let n = mul / i in
    let rest = find_nk rounds (i + 1) mul in if ltb n 32 && (n * i == mul) then (n, i) else rest

-- The second loop: `p` and `m`.
unfoldable pub find_pm : ℕ → ℕ → ℕ → ℕ × ℕ
find_pm zero i div = (div / i, i)
find_pm (suc rounds) i div =
    let p = div / i in
    let rest = find_pm rounds (i + 1) div in
    if (p == 1 || p == 2 || p == 4) && (i * p == div) then (p, i) else rest

-- What the two loops find, and the encoding of `p`.
abbrev pub pll_nk : ℕ → ℕ × ℕ
unfolding find_nk
pll_nk mul = find_nk 3 1 mul

abbrev pub pll_pm : ℕ → ℕ × ℕ
unfolding find_pm
pll_pm div = find_pm 3 1 div

abbrev pub p_code : ℕ → ℕ
p_code p = if p - 1 == 3 then 2 else p - 1

-- `val &= (1 << 31) | (1 << 28)`.
abbrev pub kept : ℕ → ℕ
kept val = bit_and val (bit_or (bit 31) (bit 28))

-- `pll_cpu_init`.
unfoldable pub pll_cpu_init : (mul div : ℕ) → Regs → Regs
unfolding find_nk find_pm
pll_cpu_init mul div r =
    let (n, k) = pll_nk mul in
    let (p, m) = pll_pm div in
    if mul == 0 || div == 0 || ltb 128 mul || ltb 16 div
    then r
    else (if n * k == mul
        then (if m * p == div
            then wr pll_cpu_ctrl
                (bit_or (kept (rd pll_cpu_ctrl r)) (
                  bit_or (bit_or (bit_or (shl32 (n - 1) 8) (shl32 (k - 1) 4)) (m - 1))
                    (shl32 (p_code p) 16)))
                r
            else r)
        else r)

-- `pll_video_init`.
unfoldable pub pll_video_init : (pll mul div : ℕ) → Regs → Regs
pll_video_init pll mul div r =
    if mul == 0 || div == 0 || ltb 128 mul || ltb 16 div
    then r
    else wr pll (bit_or (kept (rd pll r)) (bit_or (bit_or (shl32 (mul - 1) 8) (div - 1)) (bit 24)))
        r

-- `pll_periph_init`.
unfoldable pub pll_periph_init : (mul div : ℕ) → Regs → Regs
pll_periph_init mul div r =
    if mul == 0 || div == 0 || ltb 32 mul || ltb 4 div
    then r
    else wr pll_periph_ctrl
        (bit_or (kept (rd pll_periph_ctrl r))
          (bit_or (bit_or (shl32 (mul - 1) 8) (shl32 (div - 1) 4)) (bit 18)))
        r

-- `clk_pll_init`.
unfoldable pub clk_pll_init : (pll mul div : ℕ) → Regs → Regs
unfolding pll_cpu_init pll_video_init pll_periph_init
clk_pll_init pll mul div r =
    if pll == pll_cpu_ctrl
    then pll_cpu_init mul div r
    else (if pll == pll_video_ctrl || pll == pll_ve_ctrl
        then pll_video_init pll mul div r
        else (if pll == pll_periph_ctrl then pll_periph_init mul div r else r))

-- `clk_pll_enable`, and `clk_pll_disable`.
unfoldable pub clk_pll_enable : ℕ → Regs → Regs
clk_pll_enable pll r = wr pll (bit_or (rd pll r) (bit 31)) r

unfoldable pub clk_pll_disable : ℕ → Regs → Regs
clk_pll_disable pll r = wr pll (bit_and (rd pll r) (not32 (bit 31))) r

-- The DRAM gates that `init_default` opens.
abbrev pub dram_gates : ℕ
dram_gates = 0x0500000f

-- `init_default`.
unfoldable pub init_default : Regs → Regs
unfolding clk_cpu_config clk_pll_init clk_pll_enable clk_hclk_config clk_ahb_config clk_apb_config
init_default r =
    let r1 =
      clk_pll_enable pll_periph_ctrl (clk_pll_init pll_periph_ctrl 25 1 (clk_cpu_config 1 r)) in
    let r2 = clk_apb_config 2 (clk_ahb_config 3 3 1 (clk_hclk_config 1 r1)) in
    let r3 = clk_pll_enable pll_video_ctrl (clk_pll_init pll_video_ctrl 99 8 r2) in
    let r4 = clk_cpu_config 2 (clk_pll_enable pll_cpu_ctrl (clk_pll_init pll_cpu_ctrl 17 1 r3)) in
    wr 0x100 (bit_or (rd 0x100 r4) dram_gates) r4
