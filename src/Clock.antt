-- ===== src/Clock.antt =====
-- The frequency queries of src/clock.rs. A register is named by its offset from `CCU_BASE`.
pub mod Gates
pub mod Config
pub mod Fields
pub mod Default
use f1c100s_rs.Base.{
  ℕ, zero, suc, ◌+◌, ◌-◌, ◌*◌, ◌/◌, ◌%◌, ◌^◌, Bool, true, false, ◌==◌, if◌then◌else◌,
}
use f1c100s_rs.Bits.{bit, bit_and, has_bit, u32_mod}
use f1c100s_rs.Mmio.{Regs, rd, get_field}

abbrev pub hz_24m : ℕ
hz_24m = 24000000

abbrev pub hz_32k : ℕ
hz_32k = 32000

-- `reg::CCU_..`, which `pll_channel` names too.
abbrev pub pll_cpu_ctrl : ℕ
pll_cpu_ctrl = 0x000

abbrev pub pll_audio_ctrl : ℕ
pll_audio_ctrl = 0x008

abbrev pub pll_video_ctrl : ℕ
pll_video_ctrl = 0x010

abbrev pub pll_ve_ctrl : ℕ
pll_ve_ctrl = 0x018

abbrev pub pll_ddr_ctrl : ℕ
pll_ddr_ctrl = 0x020

abbrev pub pll_periph_ctrl : ℕ
pll_periph_ctrl = 0x028

abbrev pub cpu_cfg : ℕ
cpu_cfg = 0x050

abbrev pub ahb_apb_cfg : ℕ
ahb_apb_cfg = 0x054

-- `wait_pll_stable` with `n` rounds left, on the values that the register will show.
unfoldable pub wait_pll_stable : ℕ → (ℕ → ℕ) → Bool
unfolding has_bit
wait_pll_stable zero shown = false
wait_pll_stable (suc n) shown =
    let rest = wait_pll_stable n (λ i. shown (i + 1)) in if has_bit (shown 0) 28 then true else rest

-- `cpu_pll_hz`.
unfoldable pub cpu_pll_hz : Regs → ℕ
unfolding has_bit get_field
cpu_pll_hz r =
    let ctl = rd pll_cpu_ctrl r in
    let n = get_field ctl 0x1f 8 + 1 in
    let k = get_field ctl 0x3 4 + 1 in
    let m = get_field ctl 0x3 0 + 1 in
    let p = 2 ^ get_field ctl 0x3 16 in
    if has_bit ctl 31 then hz_24m * n * k % u32_mod / (m * p) else 0

-- `periph_pll_hz`.
unfoldable pub periph_pll_hz : Regs → ℕ
unfolding has_bit get_field
periph_pll_hz r =
    let ctl = rd pll_periph_ctrl r in
    let n = get_field ctl 0x1f 8 + 1 in
    let k = get_field ctl 0x3 4 + 1 in if has_bit ctl 31 then hz_24m * n * k % u32_mod else 0

-- `audio_pll_hz`.
unfoldable pub audio_pll_hz : Regs → ℕ
unfolding has_bit get_field
audio_pll_hz r =
    let ctl = rd pll_audio_ctrl r in
    let n = get_field ctl 0x7f 8 + 1 in
    let m = get_field ctl 0x1f 0 + 1 in if has_bit ctl 31 then hz_24m * 2 * n % u32_mod / m else 0

-- `video_pll_hz`.
unfoldable pub video_pll_hz : Regs → ℕ
unfolding has_bit get_field
video_pll_hz r =
    let ctl = rd pll_video_ctrl r in
    let n = get_field ctl 0x7f 8 + 1 in
    let m = get_field ctl 0xf 0 + 1 in
    if has_bit ctl 31
    then (if has_bit ctl 24
        then hz_24m * n % u32_mod / m
        else (if has_bit ctl 25 then 270000000 else 297000000))
    else 0

-- `ve_pll_hz`.
unfoldable pub ve_pll_hz : Regs → ℕ
unfolding has_bit get_field
ve_pll_hz r =
    let ctl = rd pll_ve_ctrl r in
    let n = get_field ctl 0x7f 8 + 1 in
    let m = get_field ctl 0xf 0 + 1 in
    if has_bit ctl 31
    then (if has_bit ctl 24
        then hz_24m * n % u32_mod / m
        else (if has_bit ctl 25 then 297000000 else 270000000))
    else 0

-- `ddr_pll_hz`.
unfoldable pub ddr_pll_hz : Regs → ℕ
unfolding has_bit get_field
ddr_pll_hz r =
    let ctl = rd pll_ddr_ctrl r in
    let n = get_field ctl 0x1f 8 + 1 in
    let k = get_field ctl 0x3 4 + 1 in
    let m = get_field ctl 0x3 0 + 1 in if has_bit ctl 31 then hz_24m * n * k % u32_mod / m else 0

-- `cpu_clk_src`.
unfoldable pub cpu_clk_src : Regs → ℕ
unfolding get_field
cpu_clk_src r = get_field (rd cpu_cfg r) 0x3 16

-- `cpu_hz`.
unfoldable pub cpu_hz : Regs → ℕ
unfolding cpu_clk_src cpu_pll_hz
cpu_hz r =
    let src = cpu_clk_src r in
    if src == 2
    then cpu_pll_hz r
    else (if src == 1 then hz_24m else (if src == 0 then hz_32k else 0))

-- `ahb_hz`.
unfoldable pub ahb_hz : Regs → ℕ
unfolding get_field cpu_pll_hz periph_pll_hz
ahb_hz r =
    let cfg = rd ahb_apb_cfg r in
    let src = get_field cfg 0x3 12 in
    let div = 2 ^ get_field cfg 0x3 4 in
    let prediv = get_field cfg 0x3 6 in
    if src == 0
    then hz_32k / div
    else (if src == 1
        then hz_24m / div
        else (if src == 2
            then cpu_pll_hz r / div
            else (if src == 3 then periph_pll_hz r / (prediv + 1) / div else 0)))

-- `apb_hz`.
unfoldable pub apb_hz : Regs → ℕ
unfolding get_field ahb_hz
apb_hz r =
    let div = get_field (rd ahb_apb_cfg r) 0x3 8 in
    let ahb = ahb_hz r in if div == 2 then ahb / 4 else (if div == 3 then ahb / 8 else ahb / 2)
