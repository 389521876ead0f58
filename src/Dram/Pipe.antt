-- ===== src/Dram/Pipe.antt =====
-- The type and the read pipe of the memory in src/dram.rs.
use f1c100s_rs.Base.{ℕ, zero, suc, ◌+◌, ◌*◌, Bool, true, false, ◌&&◌, ltb, ◌==◌, if◌then◌else◌}
use f1c100s_rs.Bits.{bit_and, bit_or, not32, shl32, shr32}
use f1c100s_rs.Io.{ok, Call, ◌>>=◌, ◌>>◌}
use f1c100s_rs.Dram.{
  DramParams, sdr, ddr, is_ddr, dram_base, sconr_reg, sctlr_reg, ddlyr_reg, drptr_reg,
  dram_mem_base, load, store_word, change, dram_read, dram_delay_scan,
}

-- The bits that are set of the lowest `n` of a word.
unfoldable pub count_low : (n dflag num : ℕ) → ℕ
count_low zero dflag num = num
count_low (suc n) dflag num =
    count_low n (shr32 dflag 1) (if bit_and dflag 1 == 0 then num else num + 1)

-- The read pipe `i` in `SCTLR`.
unfoldable pub pipe_word : (i val : ℕ) → ℕ
pipe_word i val = bit_or (bit_and val (not32 0x1c0)) (shl32 i 6)

module _ {D : Type 0} (dev_read : ℕ → D → ℕ × D) (dev_write : ℕ → ℕ → D → D) where
  -- The loop of `dram_check_delay` from `i` on, with `n` registers left.
  unfoldable pub check_delay_from : (n i num : ℕ) → Call D ⊥ ℕ
  unfolding count_low
  check_delay_from zero i num = ok num
  check_delay_from (suc n) i num =
      let rest = check_delay_from n (i + 1) in
      dram_read dev_read dev_write (drptr_reg i) >>= (λ dflag. rest (count_low 32 dflag num))

  -- `dram_check_delay`.
  unfoldable pub dram_check_delay : (bwidth : ℕ) → Call D ⊥ ℕ
  unfolding check_delay_from
  dram_check_delay bwidth = check_delay_from (if bwidth == 16 then 4 else 2) 0 0

  -- The first loop of `sdr_readpipe_scan`.
  unfoldable pub fill_words : (n k : ℕ) → Call D ⊥ (Unit {0})
  fill_words zero k = ok tt
  fill_words (suc n) k =
      let rest = fill_words n (k + 1) in
      store_word dev_read dev_write (dram_mem_base + 4 * k) k >> rest

  -- The second loop of `sdr_readpipe_scan`.
  unfoldable pub check_words : (n k : ℕ) → Call D ⊥ Bool
  check_words zero k = ok true
  check_words (suc n) k =
      let rest = check_words n (k + 1) in
      load dev_read dev_write (dram_mem_base + 4 * k)
      >>= (λ val. if val == k then rest else ok false)

  -- `sdr_readpipe_scan`.
  unfoldable pub sdr_readpipe_scan : Call D ⊥ Bool
  unfolding fill_words check_words
  sdr_readpipe_scan = fill_words 32 0 >> check_words 32 0

  abbrev pub set_pipe : ℕ → Call D ⊥ (Unit {0})
  set_pipe i = change dev_read dev_write (dram_base + sctlr_reg) (pipe_word i)

  -- The loop of `sdr_readpipe_select` from `i` on, with `n` values left.
  unfoldable pub select_from : (n i : ℕ) → Call D ⊥ ℕ
  unfolding sdr_readpipe_scan pipe_word
  select_from zero i = ok 0
  select_from (suc n) i =
      let rest = select_from n (i + 1) in
      set_pipe i >> sdr_readpipe_scan >>= (λ good. if good then ok i else rest)

  -- `sdr_readpipe_select`.
  unfoldable pub sdr_readpipe_select : Call D ⊥ ℕ
  unfolding select_from
  sdr_readpipe_select = select_from 8 0

  -- The loop of `dram_check_type` from `i` on, with `n` values left.
  unfoldable pub check_type_from : (n i times : ℕ) → Call D ⊥ ℕ
  unfolding pipe_word dram_delay_scan
  check_type_from zero i times = ok times
  check_type_from (suc n) i times =
      let rest = check_type_from n (i + 1) in
      set_pipe i
      >> dram_delay_scan dev_read dev_write
      >> dram_read dev_read dev_write ddlyr_reg
      >>= (λ val. rest (if bit_and val 0x30 == 0 then times else times + 1))

  -- `dram_check_type`: the parameters after it; its result is not looked at.
  unfoldable pub dram_check_type : DramParams → Call D ⊥ DramParams
  unfolding check_type_from
  dram_check_type p =
      check_type_from 8 0 0
      >>= (λ times. ok (record p { dram_type = if times == 8 then sdr else ddr }))

  -- The loop of `dram_scan_readpipe` from `i` on, with `n` values left: the best value.
  unfoldable pub scan_from : (n i rp_best rp_val : ℕ) → DramParams → Call D ⊥ ℕ
  unfolding pipe_word dram_delay_scan dram_check_delay
  scan_from zero i rp_best rp_val p = ok rp_best
  scan_from (suc n) i rp_best rp_val p =
      let rest = λ (best : ℕ) (val : ℕ). scan_from n (i + 1) best val p in
      set_pipe i
      >> dram_delay_scan dev_read dev_write
      >> dram_read dev_read dev_write ddlyr_reg
      >>= (λ ddlyr.
          let flags = shr32 ddlyr 4 in
          if (bit_and flags 3 == 0) && (bit_and flags 1 == 0)
          then dram_check_delay p.bus_width
          else ok 0)
      >>= (λ width. if ltb rp_val width then rest i width else rest rp_best rp_val)

  -- `dram_scan_readpipe`; it does not change the parameters.
  unfoldable pub dram_scan_readpipe : DramParams → Call D ⊥ (Unit {0})
  unfolding scan_from pipe_word dram_delay_scan sdr_readpipe_select
  dram_scan_readpipe p =
      if is_ddr p.dram_type
      then (scan_from 8 0 0 0 p
          >>= (λ rp_best. set_pipe rp_best)
          >> dram_delay_scan dev_read dev_write
          >> ok tt)
      else (change dev_read dev_write (dram_base + sconr_reg)
            (λ val. bit_and (bit_and val (not32 0x10000)) (not32 0x6000))
          >> sdr_readpipe_select
          >>= (λ rp_best. set_pipe rp_best))
