-- ===== src/Tests/PageTable.antt =====
-- A page table of src/mmu.rs: everything is mapped, and then one section again.
use f1c100s_rs.Base.{◌≡◌, refl, none, some, [], ◌∷◌}
use f1c100s_rs.Bits.{shl32, shr32}
use f1c100s_rs.Mmu.{MemDesc, fill, set_mappings}
use f1c100s_rs.Mmu.Overlay.{last_covering, section_of, set_mappings-entry}

abbrev low_memory : MemDesc
low_memory = record { vaddr_start = 0; vaddr_end = 0x2f_ffff; paddr_start = 0; attr = 0xc12 }

abbrev cached : MemDesc
cached = record {
  vaddr_start = 0x10_0000;
  vaddr_end = 0x1f_ffff;
  paddr_start = 0x8000_0000;
  attr = 0xc1e;
}

-- Section 1 is mapped by the second descriptor.
set_mappings_runs : set_mappings (low_memory ∷ cached ∷ []) (λ _. 0) 1 ≡ 0x8000_0c1e
unfolding set_mappings fill shl32 shr32
set_mappings_runs = refl

set_mappings-entry_example :
    set_mappings (low_memory ∷ cached ∷ []) (λ _. 0) 1
    ≡ elim (last_covering (low_memory ∷ cached ∷ []) 1) [ none ↦ 0 | some d ↦ section_of d 1 ]
set_mappings-entry_example = set_mappings-entry (low_memory ∷ cached ∷ []) (λ _. 0) 1
