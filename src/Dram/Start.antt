-- ===== src/Dram/Start.antt =====
-- The start of the memory in src/dram.rs.
use f1c100s_rs.Base.{
  ℕ, zero, suc, ◌+◌, ◌-◌, ◌*◌, ◌/◌, ◌%◌, ◌^◌, Bool, true, false, not, leb, ◌==◌, if◌then◌else◌,
}
use f1c100s_rs.Bits.{bit_and, bit_or, not32, shl32, shr32, u32_mod}
use f1c100s_rs.Io.{ok, Call, ◌>>=◌, ◌>>◌}
use f1c100s_rs.Dram.{
  DramParams, default_params, is_ddr, dram_mem_base, load, store_word, change, dram_write,
  dram_para_setup, dram_set_autofresh_cycle,
}
use f1c100s_rs.Dram.Pipe.{dram_check_type, dram_scan_readpipe}
use f1c100s_rs.Dram.Size.{dram_get_dram_size}

-- Where the size is kept, behind the letter X.
abbrev pub size_addr : ℕ
size_addr = 0x5c

abbrev pub pio_base : ℕ
pio_base = 0x01c20800

abbrev pub ccu_base : ℕ
ccu_base = 0x01c20000

-- `pll_val` in `init`.
unfoldable pub ddr_pll_word : (clk_mhz : ℕ) → ℕ
ddr_pll_word clk_mhz =
    let m = if leb clk_mhz 96 then 1 else 0 in
    let n =
      (if leb clk_mhz 96
        then (clk_mhz * 2 / 12 + u32_mod - 1) % u32_mod
        else clk_mhz * 2 / 24 - 1) in
    bit_or (bit_or m (shl32 n 8)) 0x80000000

-- `stmg0` and `stmg1` in `init`.
abbrev pub stmg0_word : ℕ
stmg0_word =
    2 + 8 * 2 ^ 3 + 3 * 2 ^ 7 + 3 * 2 ^ 10 + 3 * 2 ^ 13 + 13 * 2 ^ 15 + 249 * 2 ^ 19 + 11 * 2 ^ 28

abbrev pub stmg1_word : ℕ
stmg1_word = 8 + 7 * 2 ^ 16 + 2 * 2 ^ 20 + 2 * 2 ^ 22

module _ {D : Type 0} (dev_read : ℕ → D → ℕ × D) (dev_write : ℕ → ℕ → D → D) where
  -- The wait for the lock of the PLL, with `n` left of the timeout.
  unfoldable pub wait_lock : ℕ → Call D ⊥ Bool
  wait_lock zero = ok false
  wait_lock (suc n) =
      let rest = wait_lock n in
      load dev_read dev_write (ccu_base + 0x020)
      >>= (λ val. if bit_and val 0x10000000 == 0 then rest else ok true)

  -- The pad mode for a type.
  abbrev pub set_pads : DramParams → Call D ⊥ (Unit {0})
  set_pads p =
      change dev_read dev_write (pio_base + 0x2c4)
        (λ val. if is_ddr p.dram_type then bit_or val 0x10000 else bit_and val (not32 0x10000))

  -- The pins, the PLL and the gate, up to the pad mode: whether the PLL has locked.
  unfoldable pub start_clock : DramParams → Call D ⊥ Bool
  unfolding ddr_pll_word wait_lock
  start_clock p =
      change dev_read dev_write (pio_base + 0x24) (λ val. bit_or val 0x7000)
      >> (if leb 180 p.clk_mhz
          then store_word dev_read dev_write (pio_base + 0x2c0) 0xfff
          else if leb 144 p.clk_mhz
          then store_word dev_read dev_write (pio_base + 0x2c0) 0xaaa
          else ok tt)
      >> store_word dev_read dev_write (ccu_base + 0x020) (ddr_pll_word p.clk_mhz)
      >> change dev_read dev_write (ccu_base + 0x020) (λ val. bit_or val 0x100000)
      >> wait_lock 0xffffff

  -- The gate and the reset pulse of the controller, the pads and the timing.
  unfoldable pub start_controller : DramParams → Call D ⊥ (Unit {0})
  start_controller p =
      change dev_read dev_write (ccu_base + 0x060) (λ val. bit_or val 0x4000)
      >> change dev_read dev_write (ccu_base + 0x2c0) (λ val. bit_and val (not32 0x4000))
      >> change dev_read dev_write (ccu_base + 0x2c0) (λ val. bit_or val 0x4000)
      >> set_pads p
      >> dram_write dev_read dev_write 0x04 stmg0_word
      >> dram_write dev_read dev_write 0x08 stmg1_word

  -- The first loop of the last test, from the word `i` on, with `n` words left.
  unfoldable pub write_test : (n i : ℕ) → Call D ⊥ (Unit {0})
  write_test zero i = ok tt
  write_test (suc n) i =
      let rest = write_test n (i + 1) in
      store_word dev_read dev_write (dram_mem_base + 4 * i) (dram_mem_base + 4 * i) >> rest

  -- The second loop.
  unfoldable pub read_test : (n i : ℕ) → Call D ⊥ Bool
  read_test zero i = ok true
  read_test (suc n) i =
      let rest = read_test n (i + 1) in
      load dev_read dev_write (dram_mem_base + 4 * i)
      >>= (λ val. if val == dram_mem_base + 4 * i then rest else ok false)

  -- The steps 7 to 11 of `init`.
  unfoldable pub probe_memory : DramParams → Call D ⊥ Bool
  unfolding dram_check_type dram_set_autofresh_cycle dram_scan_readpipe dram_get_dram_size
      write_test read_test
  probe_memory p =
      dram_check_type dev_read dev_write p
      >>= (λ p1.
          set_pads p1
          >> dram_set_autofresh_cycle dev_read dev_write (p1.clk_mhz * 1000000 % u32_mod)
          >> dram_scan_readpipe dev_read dev_write p1
          >> dram_get_dram_size dev_read dev_write p1)
      >>= (λ p2. write_test 128 0 >> read_test 128 0 >>= (λ good.
          if good
          then (store_word dev_read dev_write size_addr (bit_or (shl32 0x58 24) p2.megabytes)
              >> ok true)
          else ok false))

  -- `init`.
  unfoldable pub init : Call D ⊥ Bool
  unfolding start_clock start_controller dram_para_setup probe_memory
  init = load dev_read dev_write size_addr >>= (λ tag.
      if shr32 tag 24 == 0x58
      then ok true
      else (start_clock default_params >>= (λ locked.
          if not locked
          then ok false
          else (start_controller default_params
              >> dram_para_setup dev_read dev_write default_params
              >>= (λ done. if done then probe_memory default_params else ok false)))))

  -- `size_mb`.
  unfoldable pub size_mb : Call D ⊥ ℕ
  size_mb = load dev_read dev_write size_addr >>= (λ tag. ok (bit_and tag 0xffffff))
