-- ===== src/Mmu.antt =====
-- The level 1 page table of src/mmu.rs: an entry for each section of 1 MB. The functions that write
-- the coprocessor and clean the caches are not modelled.
pub mod Overlay
use f1c100s_rs.Base.{ℕ, zero, suc, ◌+◌, ◌-◌, List, [], ◌∷◌, update}
use f1c100s_rs.Bits.{bit_or, shl32, shr32}

-- `MemDesc`.
pub record MemDesc : Type 0 where
  pub vaddr_start : ℕ
  pub vaddr_end : ℕ
  pub paddr_start : ℕ
  pub attr : ℕ

-- `PageTable::entries`.
abbrev pub PageTable : Type 0
PageTable = ℕ → ℕ

-- The loop of `set_mapping`, with `n` sections left; `page` is `paddr_base + i`.
unfoldable pub fill : (n sec page attr : ℕ) → PageTable → PageTable
fill zero sec page attr e = e
fill (suc n) sec page attr e =
    fill n (sec + 1) (page + 1) attr (update e sec (bit_or attr (shl32 page 20)))

-- `set_mapping`, and `set_mapping_from_desc`.
unfoldable pub set_mapping : MemDesc → PageTable → PageTable
unfolding fill
set_mapping d e =
    let start_sec = shr32 d.vaddr_start 20 in
    let end_sec = shr32 d.vaddr_end 20 in
    fill (end_sec + 1 - start_sec) start_sec (shr32 d.paddr_start 20) d.attr e

-- `set_mappings`.
unfoldable pub set_mappings : List MemDesc → PageTable → PageTable
unfolding set_mapping
set_mappings [] e = e
set_mappings (d ∷ descs) e = set_mappings descs (set_mapping d e)
