-- ===== src/Mmu/Overlay.antt =====
-- Which descriptor of src/mmu.rs maps a section.
use f1c100s_rs.Base.{
  ℕ, zero, suc, ◌+◌, ◌-◌, ◌≤◌, ◌<◌, ◌≡◌, ◌⊎◌, refl, ap, ◌∙◌, Bool, true, false, ◌&&◌, Option, none,
  some, List, [], ◌∷◌, leb, lt_or_ge, if◌then◌else◌, Bool-cases, Option-cases, inl, inr, arith,
  update, update_self, update_ne,
}
use f1c100s_rs.Bits.{bit_or, shl32, shr32}
use f1c100s_rs.Mmu.{MemDesc, PageTable, fill, set_mapping, set_mappings}

-- The section lies between those of the first and the last address of the descriptor.
abbrev pub covers : MemDesc → ℕ → Bool
covers d sec = leb (shr32 d.vaddr_start 20) sec && leb sec (shr32 d.vaddr_end 20)

-- The physical section at the same distance from the start, with the attributes.
abbrev pub section_of : MemDesc → ℕ → ℕ
section_of d sec =
    bit_or d.attr (shl32 (shr32 d.paddr_start 20 + (sec - shr32 d.vaddr_start 20)) 20)

-- The last of the descriptors that cover the section.
unfoldable pub last_covering : List MemDesc → ℕ → Option MemDesc
last_covering [] sec = none
last_covering (d ∷ descs) sec =
    let later = last_covering descs sec in
    elim later [ some x ↦ some x | none ↦ if covers d sec then some d else none ]

fill-outside :
    (n sec page attr j : ℕ) (e : PageTable)
    → (j < sec) ⊎ (sec + n ≤ j)
    → fill n sec page attr e j ≡ e j
unfolding fill
fill-outside zero sec page attr j e h = refl
fill-outside (suc n) sec page attr j e h =
    fill-outside n (sec + 1) (page + 1) attr j _
      (elim h [ inl l ↦ inl (omega arith) | inr r ↦ inr (omega arith) ])
    ∙ update_ne e sec j (bit_or attr (shl32 page 20))
        (elim h [ inl l ↦ λ q. omega arith | inr r ↦ λ q. omega arith ])

fill-inside :
    (n sec page attr j : ℕ) (e : PageTable)
    → sec ≤ j
    → j < sec + n
    → fill n sec page attr e j ≡ bit_or attr (shl32 (page + (j - sec)) 20)
unfolding fill
fill-inside zero sec page attr j e lo hi = absurd (omega arith)
fill-inside (suc n) sec page attr j e lo hi = elim (lt_or_ge sec j) [
  | inl later ↦
      let same : page + 1 + (j - (sec + 1)) ≡ page + (j - sec) = omega arith in
      fill-inside n (sec + 1) (page + 1) attr j _ (omega arith) (omega arith)
      ∙ ap (λ p. bit_or attr (shl32 p 20)) same
  | inr first ↦
      let here : j ≡ sec = omega arith in
      let same : page ≡ page + (j - sec) = omega arith in
      fill-outside n (sec + 1) (page + 1) attr j _ (inl (omega arith))
      ∙ ap (update e sec (bit_or attr (shl32 page 20))) here
      ∙ update_self e sec (bit_or attr (shl32 page 20))
      ∙ ap (λ p. bit_or attr (shl32 p 20)) same
]

set_mapping-entry :
    (d : MemDesc) (e : PageTable) (sec : ℕ)
    → set_mapping d e sec ≡ (if covers d sec then section_of d sec else e sec)
unfolding set_mapping
set_mapping-entry d e sec =
    let lo = shr32 d.vaddr_start 20 in
    let hi = shr32 d.vaddr_end 20 in
    elim (Bool-cases (covers d sec)) [
      | inl y ↦
          let (a, b) = both (leb lo sec) (leb sec hi) y in
          rw y (
            fill-inside (hi + 1 - lo) lo (shr32 d.paddr_start 20) d.attr sec e (ground (arith, a))
              (ground (arith, a, b)))
      | inr n ↦
          rw n (
            fill-outside (hi + 1 - lo) lo (shr32 d.paddr_start 20) d.attr sec e (ground (arith, n)))
    ]
  where
    both : (p q : Bool) → (p && q) ≡ true → (p ≡ true) × (q ≡ true)
    both true q h = (refl, h)
    both false q h = absurd (cc h)

-- After `set_mappings` a section is mapped by the last descriptor that covers it, at the same
-- distance from the start, and one that no descriptor covers keeps its entry.
pub set_mappings-entry :
    (descs : List MemDesc) (e : PageTable) (sec : ℕ)
    → set_mappings descs e sec
      ≡ elim (last_covering descs sec) [ none ↦ e sec | some d ↦ section_of d sec ]
unfolding set_mappings last_covering
set_mappings-entry [] e sec = refl
set_mappings-entry (d ∷ descs) e sec =
    let rest = set_mappings-entry descs (set_mapping d e) sec in
    elim (Option-cases (last_covering descs sec)) [
      | inr (x, y) ↦ rw y (rw y at rest)
      | inl y ↦
          let entry = (rw y at rest) ∙ set_mapping-entry d e sec in
          elim (Bool-cases (covers d sec)) [
            | inl c ↦ rw (y, c) (entry ∙ rw c refl)
            | inr c ↦ rw (y, c) (entry ∙ rw c refl)
          ]
    ]
