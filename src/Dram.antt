-- ===== src/Dram.antt =====
-- src/dram.rs, on a device that answers a read of an address, be it a register or the memory. The
-- waits that only take time are left out.
pub mod Pipe
pub mod Size
pub mod Start
pub mod Refresh
use f1c100s_rs.Base.{
  ℕ, zero, suc, ◌+◌, ◌-◌, ◌*◌, ◌/◌, ◌%◌, Bool, true, false, not, ltb, leb, ◌==◌, if◌then◌else◌,
}
use f1c100s_rs.Bits.{bit_and, bit_or, shl32, shr32, u32_mod}
use f1c100s_rs.Io.{Io, ok, Call, ◌>>=◌, ◌>>◌}

abbrev pub dram_base : ℕ
dram_base = 0x01c01000

abbrev pub sconr_reg : ℕ
sconr_reg = 0x00

abbrev pub sctlr_reg : ℕ
sctlr_reg = 0x0c

abbrev pub srefr_reg : ℕ
srefr_reg = 0x10

abbrev pub ddlyr_reg : ℕ
ddlyr_reg = 0x24

abbrev pub drptr_reg : ℕ → ℕ
drptr_reg i = 0x30 + 4 * i

abbrev pub dram_mem_base : ℕ
dram_mem_base = 0x80000000

pub data DramType : Type 0 where
  sdr ddr mddr : DramType

abbrev pub dram_type_no : DramType → ℕ
dram_type_no sdr = 0
dram_type_no ddr = 1
dram_type_no mddr = 2

abbrev pub is_sdr : DramType → Bool
is_sdr sdr = true
is_sdr _ = false

abbrev pub is_ddr : DramType → Bool
is_ddr ddr = true
is_ddr _ = false

pub record DramParams : Type 0 where
  pub clk_mhz : ℕ
  pub access_mode : ℕ
  pub cs_num : ℕ
  pub ddr8_remap : ℕ
  pub dram_type : DramType
  pub bus_width : ℕ
  pub col_width : ℕ
  pub row_width : ℕ
  pub bank_size : ℕ
  pub megabytes : ℕ

-- `DramParams::default`; `megabytes` is the field `size_mb`.
abbrev pub default_params : DramParams
default_params = record {
  clk_mhz = 156;
  access_mode = 1;
  cs_num = 1;
  ddr8_remap = 0;
  dram_type = ddr;
  bus_width = 16;
  col_width = 10;
  row_width = 13;
  bank_size = 4;
  megabytes = 32;
}

-- The loop of `dram_set_autofresh_cycle`, with at most `fuel` rounds: each takes a step of a few
-- thousand off, so that `temp` rounds are enough.
unfoldable pub count_steps : (fuel temp step val : ℕ) → ℕ
count_steps zero temp step val = val
count_steps (suc fuel) temp step val =
    let rest = count_steps fuel (temp - step) step (val + 1) in if leb step temp then rest else val

-- `val` in `dram_set_autofresh_cycle`, for a number of rows and a clock.
unfoldable pub refresh_word : (row clk_hz : ℕ) → ℕ
unfolding count_steps shr32
refresh_word row clk_hz =
    let temp = (clk_hz + shr32 clk_hz 3 + shr32 clk_hz 4 + shr32 clk_hz 5) % u32_mod in
    let slow = clk_hz * 499 % u32_mod in
    if row == 0xc
    then (if leb 1000000 clk_hz then count_steps temp temp 156250 0 else shr32 slow 6)
    else if row == 0xb
    then (if leb 1000000 clk_hz then count_steps temp temp 78125 0 else shr32 slow 5)
    else 0

-- `u32` subtraction.
abbrev pub sub32 : ℕ → ℕ → ℕ
sub32 a b = (a + u32_mod - b) % u32_mod

-- The word of `SCONR` in `dram_para_setup`.
unfoldable pub sconr_word : DramParams → ℕ
sconr_word p =
    let wide = if is_sdr p.dram_type then shr32 p.bus_width 5 else shr32 p.bus_width 4 in
    let low = bit_or (bit_or p.ddr8_remap 2) (shl32 (shr32 p.bank_size 2) 3) in
    let chips = bit_or low (shl32 (shr32 p.cs_num 1) 4) in
    let rows = bit_or chips (shl32 (sub32 p.row_width 1) 5) in
    let cols = bit_or rows (shl32 (sub32 p.col_width 1) 9) in
    let bus = bit_or cols (shl32 wide 13) in
    bit_or (bit_or bus (shl32 p.access_mode 15)) (shl32 (dram_type_no p.dram_type) 16)

module _ {D : Type 0} (dev_read : ℕ → D → ℕ × D) (dev_write : ℕ → ℕ → D → D) where
  abbrev pub load : ℕ → Call D ⊥ ℕ
  load addr d = let (val, d') = dev_read addr d in ok val d'

  abbrev pub store_word : (addr val : ℕ) → Call D ⊥ (Unit {0})
  store_word addr val d = ok tt (dev_write addr val d)

  -- A word is read, changed and written back.
  abbrev pub change : ℕ → (ℕ → ℕ) → Call D ⊥ (Unit {0})
  change addr f = load addr >>= (λ val. store_word addr (f val))

  -- `dram_read`.
  abbrev pub dram_read : ℕ → Call D ⊥ ℕ
  dram_read offset = load (dram_base + offset)

  -- `dram_write`.
  abbrev pub dram_write : (offset val : ℕ) → Call D ⊥ (Unit {0})
  dram_write offset = store_word (dram_base + offset)

  -- The wait for the bit 0 of a register, with `n` left of the timeout: what is left after it.
  unfoldable pub wait_bit : (n offset : ℕ) → Call D ⊥ ℕ
  wait_bit zero offset = dram_read offset >> ok 0
  wait_bit (suc n) offset =
      let rest = wait_bit n offset in
      dram_read offset >>= (λ val. if bit_and val 1 == 0 then ok (suc n) else rest)

  -- `dram_initial`.
  unfoldable pub dram_initial : Call D ⊥ Bool
  unfolding wait_bit
  dram_initial =
      change (dram_base + sctlr_reg) (λ val. bit_or val 1)
      >> wait_bit 0xffffff sctlr_reg
      >>= (λ left. ok (ltb 0 left))

  -- `dram_delay_scan`.
  unfoldable pub dram_delay_scan : Call D ⊥ Bool
  unfolding wait_bit
  dram_delay_scan =
      change (dram_base + ddlyr_reg) (λ val. bit_or val 1)
      >> wait_bit 0xffffff ddlyr_reg
      >>= (λ left. ok (ltb 0 left))

  -- `dram_set_autofresh_cycle`.
  unfoldable pub dram_set_autofresh_cycle : (clk_hz : ℕ) → Call D ⊥ (Unit {0})
  unfolding refresh_word
  dram_set_autofresh_cycle clk_hz =
      dram_read sconr_reg
      >>= (λ val. dram_write srefr_reg (refresh_word (bit_and (shr32 val 5) 0xf) clk_hz))

  -- `dram_para_setup`.
  unfoldable pub dram_para_setup : DramParams → Call D ⊥ Bool
  unfolding sconr_word dram_initial
  dram_para_setup p =
      dram_write sconr_reg (sconr_word p)
      >> change (dram_base + sctlr_reg) (λ val. bit_or val 0x80000)
      >> dram_initial
