-- ===== src/Heap/FirstFit.antt =====
-- `alloc_inner` of src/allocator.rs beside first fit on a list of blocks.
use f1c100s_rs.Base.{
  ℕ, zero, suc, ◌+◌, ◌-◌, ◌≤◌, ◌<◌, ◌≡◌, ◌⊎◌, refl, sym, ap, ◌∙◌, subst, true, false, none, some,
  List, [], ◌∷◌, length, leb, ◌==◌, ne→==, eq→==, arith, Bool-cases, inl, inr,
}
use f1c100s_rs.Heap.{
  Heap, Link, root, after, next_of, link_get, alloc_from, alloc_inner, align_up, align, alloc_hdr,
}
use f1c100s_rs.Heap.Chain.{Block, IsChain, IsSorted, IsApart, IsFit, first_fit, first_fit-IsFit}
use f1c100s_rs.Heap.Take.{IsTaken, IsBelow, IsOff, take-whole, take-front}

-- What was taken from the blocks after `a` was taken from the blocks from `a` on.
pub skip-IsTaken :
    (prev : Link) (low a s found granted : ℕ) (left : List Block) (h h' : Heap)
    → IsBelow prev low
    → low ≤ a
    → 16 ≤ s
    → 0 < a
    → link_get prev h ≡ a
    → h.mem a ≡ s
    → IsTaken (after a) (a + s) h h' found granted left
    → IsTaken prev low h h' found granted ((a, s) ∷ left)
unfolding IsBelow IsOff IsChain
skip-IsTaken root low a s found granted left h h' below lo big pos at e t = record {
  chain = (t.kept ∙ at, pos, t.frame a (omega arith) (λ q. omega arith) ∙ e, t.chain);
  header = t.header;
  frame = λ x l off. t.frame x (omega arith) (λ q. omega arith);
  kept = tt;
}
skip-IsTaken (after p) low a s found granted left h h' below lo big pos at e t = record {
  chain = (
    t.frame (p + 4) (omega arith) (λ q. omega arith) ∙ at,
    pos,
    t.frame a (omega arith) (λ q. omega arith) ∙ e,
    t.chain,
  );
  header = t.header;
  frame = λ x l off. t.frame x (omega arith) (λ q. omega arith);
  kept = t.kept;
}

-- What first fit says is what the loop does.
abbrev FitsFirst : ℕ → Link → (low cur needed : ℕ) → List Block → Heap → Type 0
FitsFirst n prev low cur needed bs h =
    ((first_fit needed bs ≡ none) × (alloc_from n prev cur needed h ≡ some (0, h)))
    ⊎ ((found : ℕ) × (granted : ℕ) × (left : List Block) × (h' : Heap) × (first_fit needed bs
          ≡ some (found, (granted, left)))
        × (alloc_from n prev cur needed h ≡ some (found + 4, h'))
        × IsTaken prev low h h' found granted left)

here-first_fit :
    (n : ℕ) (prev : Link) (low a s needed : ℕ) (bs : List Block) (h : Heap)
    → IsBelow prev low
    → 8 ≤ needed
    → IsSorted low ((a, s) ∷ bs)
    → IsChain h.mem a ((a, s) ∷ bs)
    → leb needed s ≡ true
    → FitsFirst (suc n) prev low a needed ((a, s) ∷ bs) h
unfolding alloc_from first_fit IsChain
here-first_fit n prev low a s needed bs h below some_bytes sorted chain fits =
    let (_, pos, e, _) = chain in
    let some_block : (a == 0) ≡ false = ne→== a 0 (λ q. omega arith) in
    let fits' : leb needed (h.mem a) ≡ true = ap (leb needed) e ∙ fits in
    elim (Bool-cases (leb 16 (s - needed))) [
      | inl splits ↦
          let (h', took, t) =
            take-front prev low a s needed bs h below some_bytes sorted chain splits in
          inr (
            a,
            needed,
            (a + needed, s - needed) ∷ bs,
            h',
            rw (fits, splits) refl,
            rw (some_block, fits') (ap some took),
            t,
          )
      | inr whole ↦
          let (h', took, t) = take-whole prev low a s needed bs h below sorted chain whole in
          inr (a, s, bs, h', rw (fits, whole) refl, rw (some_block, fits') (ap some took), t)
    ]

alloc_from-first_fit :
    (n : ℕ) (prev : Link) (low cur needed : ℕ) (bs : List Block) (h : Heap)
    → length bs ≤ n
    → IsBelow prev low
    → 8 ≤ needed
    → IsSorted low bs
    → IsChain h.mem cur bs
    → link_get prev h ≡ cur
    → FitsFirst n prev low cur needed bs h
unfolding alloc_from first_fit IsChain IsSorted IsBelow
alloc_from-first_fit zero prev low cur needed [] h enough below some_bytes sorted chain at =
    inl (refl, rw (eq→== cur 0 chain) refl)
alloc_from-first_fit (suc n) prev low cur needed [] h enough below some_bytes sorted chain at =
    inl (refl, rw (eq→== cur 0 chain) refl)
alloc_from-first_fit zero prev low cur needed (b ∷ bs) h enough below some_bytes sorted chain at =
    absurd (omega arith)
alloc_from-first_fit (suc n) prev low cur needed ((a, s) ∷ bs) h enough below some_bytes sorted
      (here, pos, e, chain) at =
    let (lo, big, sorted') = sorted in
    subst (λ c. FitsFirst (suc n) prev low c needed ((a, s) ∷ bs) h) (sym here)
      (elim (Bool-cases (leb needed s)) [
        | inl fits ↦
            here-first_fit n prev low a s needed bs h below some_bytes sorted (refl, pos, e, chain)
              fits
        | inr small ↦
            let some_block : (a == 0) ≡ false = ne→== a 0 (λ q. omega arith) in
            let small' : leb needed (h.mem a) ≡ false = ap (leb needed) e ∙ small in
            elim (alloc_from-first_fit n (after a) (a + s) (next_of h a) needed bs h (omega arith)
              (omega arith) some_bytes sorted' chain refl) [
                | inl (fit, got) ↦ inl (rw (small, fit) refl, rw (some_block, small') got)
                | inr (found, granted, left, h', fit, got, t) ↦ inr (
                  found,
                  granted,
                  (a, s) ∷ left,
                  h',
                  rw (small, fit) refl,
                  rw (some_block, small') got,
                  skip-IsTaken prev low a s found granted left h h' below lo big pos (at ∙ here) e
                      t,
                )
              ]
      ])

-- The free list of the heap holds these blocks, sorted and without overlap.
pub record IsFree (h : Heap) (bs : List Block) : Type 0 where
  pub chain : IsChain h.mem h.free_list bs
  pub sorted : IsSorted 0 bs

-- `alloc_inner` ends after as many rounds as there are free blocks. It answers null and changes
-- nothing exactly if first fit finds no block; otherwise it grants what first fit grants, leaves
-- the blocks that first fit leaves, and notes the size in the header.
pub alloc_inner-first_fit :
    (rounds needed : ℕ) (bs : List Block) (h : Heap)
    → length bs ≤ rounds
    → 8 ≤ align_up needed align
    → IsFree h bs
    → ((first_fit (align_up needed align) bs ≡ none) × (alloc_inner rounds needed h ≡ some (0, h)))
      ⊎ ((found : ℕ) × (granted : ℕ) × (left : List Block) × (h' : Heap) × (first_fit
              (align_up needed align)
              bs
            ≡ some (found, (granted, left)))
          × (alloc_inner rounds needed h ≡ some (found + alloc_hdr, h'))
          × IsFree h' left
          × (h'.mem found ≡ granted)
          × (align_up needed align ≤ granted)
          × IsApart found granted left)
unfolding alloc_inner IsBelow IsFit
alloc_inner-first_fit rounds needed bs h enough some_bytes free =
    let n = align_up needed align in
    elim (alloc_from-first_fit rounds root 0 h.free_list n bs h enough tt some_bytes free.sorted
      free.chain refl) [
        | inl r ↦ inl r
        | inr (found, granted, left, h', fit, got, t) ↦
            let (_, enough', sorted, apart) =
              subst (IsFit 0 n) fit (first_fit-IsFit 0 n bs free.sorted) in
            inr (
              found,
              granted,
              left,
              h',
              fit,
              got,
              record { chain = t.chain; sorted = sorted },
              t.header,
              enough',
              apart,
            )
      ]
