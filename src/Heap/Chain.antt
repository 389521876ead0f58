-- ===== src/Heap/Chain.antt =====
-- The free list of src/allocator.rs as a list of blocks, each with its address and its size.
use f1c100s_rs.Base.{
  ℕ, ◌+◌, ◌-◌, ◌≤◌, ◌<◌, ◌≡◌, sym, ◌∙◌, subst, Option, none, some, List, [], ◌∷◌, leb,
  if◌then◌else◌, arith, ◌⊎◌, inl, inr, Bool-cases, Option-cases,
}

abbrev pub Block : Type 0
Block = ℕ × ℕ

-- From `cur` on, the words of the memory link exactly these blocks.
unfoldable pub IsChain : (ℕ → ℕ) → ℕ → List Block → Type 0
IsChain mem cur [] = cur ≡ 0
IsChain mem cur ((addr, size) ∷ bs) =
    (cur ≡ addr) × (0 < addr) × (mem addr ≡ size) × IsChain mem (mem (addr + 4)) bs

-- The blocks are sorted by their addresses, do not overlap, and lie at `low` or above.
unfoldable pub IsSorted : ℕ → List Block → Type 0
IsSorted low [] = Unit {0}
IsSorted low ((addr, size) ∷ bs) = (low ≤ addr) × (16 ≤ size) × IsSorted (addr + size) bs

-- What first fit takes from the blocks: an address, the bytes that it grants, and the blocks that
-- are left.
unfoldable pub first_fit : ℕ → List Block → Option (ℕ × (ℕ × List Block))
first_fit needed [] = none
first_fit needed ((addr, size) ∷ bs) =
    let rest = first_fit needed bs in
    if leb needed size
    then some (
      addr,
      (if leb 16 (size - needed)
          then (needed, (addr + needed, size - needed) ∷ bs)
          else (size, bs)),
    )
    else elim rest [
      | none ↦ none
      | some (found, (granted, left)) ↦ some (found, (granted, (addr, size) ∷ left))
    ]

-- Words below the blocks do not matter.
pub IsChain-same :
    (low : ℕ) (m m' : ℕ → ℕ) (cur : ℕ) (bs : List Block)
    → IsSorted low bs
    → ((x : ℕ) → low ≤ x → m' x ≡ m x)
    → IsChain m cur bs
    → IsChain m' cur bs
unfolding IsChain IsSorted
IsChain-same low m m' cur [] sorted same chain = chain
IsChain-same low m m' cur ((addr, size) ∷ bs) (lo, big, sorted) same (here, pos, e, chain) =
    let next : m' (addr + 4) ≡ m (addr + 4) = same (addr + 4) (omega arith) in
    let tail =
      IsChain-same (addr + size) m m' (m (addr + 4)) bs sorted (λ x h. same x (omega arith))
        chain in
    (here, pos, same addr lo ∙ e, subst (λ c. IsChain m' c bs) (sym next) tail)

pub IsSorted-lower :
    (low low' : ℕ) (bs : List Block) → low' ≤ low → IsSorted low bs → IsSorted low' bs
unfolding IsSorted
IsSorted-lower low low' [] h sorted = tt
IsSorted-lower low low' ((addr, size) ∷ bs) h (lo, big, sorted) = (omega arith, big, sorted)

-- The blocks lie outside of the `granted` bytes from `found` on.
unfoldable pub IsApart : (found granted : ℕ) → List Block → Type 0
IsApart found granted [] = Unit {0}
IsApart found granted ((addr, size) ∷ bs) =
    ((addr + size ≤ found) ⊎ (found + granted ≤ addr)) × IsApart found granted bs

IsApart-above :
    (found granted low : ℕ) (bs : List Block)
    → found + granted ≤ low
    → IsSorted low bs
    → IsApart found granted bs
unfolding IsSorted IsApart
IsApart-above found granted low [] h sorted = tt
IsApart-above found granted low ((addr, size) ∷ bs) h (lo, big, sorted) =
    (inr (omega arith), IsApart-above found granted (addr + size) bs (omega arith) sorted)

-- What first fit answers is right: enough bytes are granted, and what is left is sorted and apart
-- from them.
unfoldable pub IsFit : (low needed : ℕ) → Option (ℕ × (ℕ × List Block)) → Type 0
IsFit low needed none = Unit {0}
IsFit low needed (some (found, (granted, left))) =
    (low ≤ found) × (needed ≤ granted) × IsSorted low left × IsApart found granted left

pub first_fit-IsFit :
    (low needed : ℕ) (bs : List Block) → IsSorted low bs → IsFit low needed (first_fit needed bs)
unfolding first_fit IsSorted IsFit IsApart
first_fit-IsFit low needed [] sorted = tt
first_fit-IsFit low needed ((addr, size) ∷ bs) (lo, big, sorted) =
    elim (Bool-cases (leb needed size)) [
      | inl fits ↦ elim (Bool-cases (leb 16 (size - needed))) [
        | inl splits ↦
            let room : needed + 16 ≤ size = ground (arith, splits) in
            let rest : 16 ≤ size - needed = omega arith in
            let end : addr + needed + (size - needed) ≡ addr + size = omega arith in
            rw (fits, splits)
              (
                lo,
                omega arith,
                (omega arith, rest, subst (λ x. IsSorted x bs) (sym end) sorted),
                (
                  inr (omega arith),
                  IsApart-above addr needed (addr + size) bs (omega arith) sorted,
                ),
              )
        | inr whole ↦
            let enough : needed ≤ size = ground (arith, fits) in
            rw (fits, whole)
              (
                lo,
                enough,
                IsSorted-lower (addr + size) low bs (omega arith) sorted,
                IsApart-above addr size (addr + size) bs (omega arith) sorted,
              )
      ]
      | inr small ↦
          let tail = first_fit-IsFit (addr + size) needed bs sorted in
          elim (Option-cases (first_fit needed bs)) [
            | inl e ↦ rw (small, e) tt
            | inr ((found, (granted, left)), e) ↦
                let (above, enough, sorted', apart) = subst (IsFit (addr + size) needed) e tail in
                rw (small, e) (omega arith, enough, (lo, big, sorted'), (inl above, apart))
          ]
    ]
