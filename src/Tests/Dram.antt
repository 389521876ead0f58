-- ===== src/Tests/Dram.antt =====
-- A memory with a missing address bit for src/dram.rs, and the refresh interval at 156 MHz.
use f1c100s_rs.Base.{ℕ, ◌+◌, ◌/◌, ◌%◌, ◌≡◌, refl, true, update, arith}
use f1c100s_rs.Io.{ok}
use f1c100s_rs.Dram.{refresh_word, dram_mem_base}
use f1c100s_rs.Dram.Refresh.{refresh_word-div}
use f1c100s_rs.Dram.Size.{mirrors}
use f1c100s_rs.Dram.Size.Mirror.{IsMemory, IsWindow, mirrors_lem}

refresh_word-div_example :
    (refresh_word 0xc 156000000
      ≡ (156000000 + 156000000 / 8 + 156000000 / 16 + 156000000 / 32) / 156250)
    × (refresh_word 0xb 156000000
        ≡ (156000000 + 156000000 / 8 + 156000000 / 16 + 156000000 / 32) / 78125)
refresh_word-div_example = refresh_word-div 156000000 (omega arith) (omega arith)

-- Nine column bits: an address and the one 0x400 above it are the same cell.
column_fold : ℕ → ℕ
column_fold addr = addr % 0x400

cells_read : ℕ → (ℕ → ℕ) → ℕ × (ℕ → ℕ)
unfolding column_fold
cells_read addr m = (m (column_fold addr), m)

cells_write : (addr val : ℕ) → (ℕ → ℕ) → ℕ → ℕ
unfolding column_fold
cells_write addr val m = update m (column_fold addr) val

cells-IsMemory : IsMemory cells_read cells_write column_fold (λ m. m)
unfolding cells_read cells_write
cells-IsMemory = record {
  loads = λ addr m low. (m, refl, (λ x. refl));
  stores = λ addr val m low x. refl;
}

columns-IsWindow : IsWindow column_fold (dram_mem_base + 0x200) (dram_mem_base + 0x600) true
unfolding column_fold
columns-IsWindow = record {
  first = λ i j small small'. ground arith;
  second = λ i j small small'. ground arith;
}

mirrors_lem_example :
    (m : ℕ → ℕ) × (mirrors cells_read cells_write
        (dram_mem_base + 0x200)
        (dram_mem_base + 0x600)
        0x11111111
        0x22222222
        (λ _. 0)
      ≡ ok true m)
mirrors_lem_example =
    mirrors_lem cells_read cells_write column_fold (λ m. m) cells-IsMemory (dram_mem_base + 0x200)
      (dram_mem_base + 0x600) true columns-IsWindow (omega arith) (omega arith) 0x11111111
      0x22222222 (λ _. 0) (λ e. absurd (omega arith))
