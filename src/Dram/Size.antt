-- ===== src/Dram/Size.antt =====
-- How src/dram.rs finds the size of the memory: a window that shows up in another one.
pub mod Mirror
use f1c100s_rs.Base.{ℕ, zero, suc, ◌+◌, ◌*◌, ◌%◌, Bool, true, false, not, ◌==◌, if◌then◌else◌}
use f1c100s_rs.Bits.{u32_mod}
use f1c100s_rs.Io.{ok, Call, ◌>>=◌, ◌>>◌}
use f1c100s_rs.Dram.{
  DramParams, dram_mem_base, load, store_word, dram_para_setup, dram_set_autofresh_cycle,
}
use f1c100s_rs.Dram.Pipe.{dram_scan_readpipe}

-- The megabytes for the widths.
unfoldable pub megabytes_of : (row_width col_width : ℕ) → ℕ
megabytes_of row_width col_width =
    if not (row_width == 13) then 16 else if col_width == 10 then 64 else 32

-- The two windows in which the rows show.
abbrev pub row_window : (col_width : ℕ) → ℕ × ℕ
row_window col_width =
    if col_width == 10
    then (dram_mem_base + 0x400000, dram_mem_base + 0xc00000)
    else (dram_mem_base + 0x200000, dram_mem_base + 0x600000)

module _ {D : Type 0} (dev_read : ℕ → D → ℕ × D) (dev_write : ℕ → ℕ → D → D) where
  -- The loop that writes two windows from the word `i` on, with `n` words left.
  unfoldable pub fill_pair : (n i addr1 addr2 val1 val2 : ℕ) → Call D ⊥ (Unit {0})
  fill_pair zero i addr1 addr2 val1 val2 = ok tt
  fill_pair (suc n) i addr1 addr2 val1 val2 =
      let rest = fill_pair n (i + 1) addr1 addr2 val1 val2 in
      store_word dev_read dev_write (addr1 + 4 * i) val1
      >> store_word dev_read dev_write (addr2 + 4 * i) val2
      >> rest

  -- The loop that counts the words of a value in a window.
  unfoldable pub count_window : (n i addr val count : ℕ) → Call D ⊥ ℕ
  count_window zero i addr val count = ok count
  count_window (suc n) i addr val count =
      let rest = count_window n (i + 1) addr val in
      load dev_read dev_write (addr + 4 * i)
      >>= (λ got. rest (if got == val then count + 1 else count))

  -- Whether the first window shows what was written to the second one.
  unfoldable pub mirrors : (addr1 addr2 val1 val2 : ℕ) → Call D ⊥ Bool
  mirrors addr1 addr2 val1 val2 =
      fill_pair 32 0 addr1 addr2 val1 val2
      >> count_window 32 0 addr1 val2 0
      >>= (λ count. ok (count == 32))

  -- `dram_get_dram_size`: the parameters after it.
  unfoldable pub dram_get_dram_size : DramParams → Call D ⊥ DramParams
  unfolding mirrors dram_para_setup dram_scan_readpipe dram_set_autofresh_cycle megabytes_of
  dram_get_dram_size p =
      let p1 = record p { col_width = 10; row_width = 13 } in
      dram_para_setup dev_read dev_write p1
      >> dram_scan_readpipe dev_read dev_write p1
      >> mirrors (dram_mem_base + 0x200) (dram_mem_base + 0x600) 0x11111111 0x22222222
      >>= (λ narrow.
          let p2 = record p1 { col_width = if narrow then 9 else 10 } in
          dram_para_setup dev_read dev_write p2
          >> mirrors ((row_window p2.col_width).0) ((row_window p2.col_width).1) 0x33333333
              0x44444444
          >>= (λ short.
              let rows = if short then 12 else 13 in
              let p3 = record p2 {
                row_width = rows;
                megabytes = megabytes_of rows p2.col_width;
                access_mode = 0;
              } in
              dram_set_autofresh_cycle dev_read dev_write (p3.clk_mhz * 1000000 % u32_mod)
              >> dram_para_setup dev_read dev_write p3
              >> ok p3))
