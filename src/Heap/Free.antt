-- ===== src/Heap/Free.antt =====
-- `free_inner` of src/allocator.rs beside the insertion in a sorted list of blocks.
use f1c100s_rs.Base.{
  ℕ, zero, suc, ◌+◌, ◌≤◌, ◌<◌, ◌≡◌, refl, sym, ap, ◌∙◌, subst, true, false, some, List, [], ◌∷◌,
  length, ltb, lt→ltb, ge→ltb, ◌==◌, ne→==, arith, Bool-cases, inl, inr, update, update_self,
  update_ne, ◌-◌,
}
use f1c100s_rs.Heap.{
  Heap, Link, root, after, next_of, store, size_of, link_get, find_place, insert_at, merge_forward,
  free_inner, alloc_hdr,
}
use f1c100s_rs.Heap.Chain.{Block, IsChain, IsSorted, IsApart, IsChain-same}
use f1c100s_rs.Heap.Take.{IsTaken, IsBelow}
use f1c100s_rs.Heap.FirstFit.{IsFree, skip-IsTaken}
use f1c100s_rs.Heap.Dead.{insert_at-forward}
use f1c100s_rs.Heap.Insert.{insert, linked, joined, linked-size, alone-IsTaken, joined-IsTaken}

-- What is known of the heap where a block is put in the list at `prev`.
abbrev Inserts : Link → (low block size : ℕ) → List Block → Heap → Heap → Type 0
Inserts prev low block size bs h h' =
    (granted : ℕ) × IsTaken prev low h h' block granted (insert block size bs)

last-Inserts :
    (prev : Link) (low block size : ℕ) (h : Heap)
    → IsBelow prev low
    → IsBelow prev block
    → low ≤ block
    → 16 ≤ size
    → 0 < block
    → h.mem block ≡ size
    → Inserts prev low block size [] h (insert_at prev 0 block h)
unfolding insert merge_forward IsChain IsSorted
last-Inserts prev low block size h below under lo big pos e = (
  _,
  subst (λ h'. IsTaken prev low h h' block (h'.mem block) ((block, size) ∷ []))
      (sym (insert_at-forward prev 0 block h under))
      (alone-IsTaken prev low block size 0 h below lo big e [] pos tt refl),
)

here-Inserts :
    (prev : Link) (low block size a s : ℕ) (bs : List Block) (h : Heap)
    → IsBelow prev low
    → IsBelow prev block
    → low ≤ block
    → 16 ≤ size
    → 0 < block
    → h.mem block ≡ size
    → block + size ≤ a
    → IsSorted low ((a, s) ∷ bs)
    → IsChain h.mem a ((a, s) ∷ bs)
    → Inserts prev low block size ((a, s) ∷ bs) h (insert_at prev a block h)
unfolding insert merge_forward IsChain IsSorted
here-Inserts prev low block size a s bs h below under lo big pos e before (_, room, sorted)
      (_, pos_a, es, chain) =
    let L = linked prev low block size a h below lo big e in
    let stop : ltb a block ≡ false = ge→ltb a block (omega arith) in
    let some_block : (a == 0) ≡ false = ne→== a 0 (λ q. omega arith) in
    let size' : L.mem block ≡ size = linked-size prev low block size a h below lo big e in
    let inserted : insert_at prev a block h ≡ merge_forward block a L =
      insert_at-forward prev a block h under in
    elim (Bool-cases (block + size == a)) [
      | inl touch ↦
          let at : a ≡ block + size = ground (arith, touch) in
          let test : (block + L.mem block == a) ≡ true = ap (λ x. block + x == a) size' ∙ touch in
          let J = joined prev low block size a h below lo big e in
          let same : insert_at prev a block h ≡ J = inserted ∙ rw (some_block, test) refl in
          (
            (insert_at prev a block h).mem block,
            rw (stop, touch)
                (subst (λ h'. IsTaken prev low h h' block (h'.mem block) ((block, size + s) ∷ bs))
                  (sym same)
                  (joined-IsTaken prev low block size a h below lo big e s bs pos at room es
                    (subst (λ x. IsSorted (x + s) bs) at sorted) chain)),
          )
      | inr gap ↦
          let test : (block + L.mem block == a) ≡ false = ap (λ x. block + x == a) size' ∙ gap in
          let same : insert_at prev a block h ≡ L = inserted ∙ rw (some_block, test) refl in
          (
            (insert_at prev a block h).mem block,
            rw (stop, gap)
                (subst
                  (λ h'. IsTaken prev low h h' block (h'.mem block) ((block, size) ∷ (a, s) ∷ bs))
                  (sym same)
                  (alone-IsTaken prev low block size a h below lo big e ((a, s) ∷ bs) pos
                    (before, room, sorted) (refl, pos_a, es, chain))),
          )
    ]

abbrev Places : ℕ → Link → (low block size cur : ℕ) → List Block → Heap → Type 0
Places n prev low block size cur bs h =
    (prev' : Link) × (cur' : ℕ) × (find_place n prev cur block h ≡ some (prev', cur'))
    × Inserts prev low block size bs h (insert_at prev' cur' block h)

find_place-Inserts :
    (n : ℕ) (prev : Link) (low block size cur : ℕ) (bs : List Block) (h : Heap)
    → length bs ≤ n
    → IsBelow prev low
    → IsBelow prev block
    → low ≤ block
    → 16 ≤ size
    → 0 < block
    → h.mem block ≡ size
    → IsApart block size bs
    → IsSorted low bs
    → IsChain h.mem cur bs
    → link_get prev h ≡ cur
    → Places n prev low block size cur bs h
unfolding find_place insert IsChain IsSorted IsApart IsBelow
find_place-Inserts zero prev low block size cur [] h enough below under lo big pos e apart sorted
      chain at =
    subst (λ c. Places zero prev low block size c [] h) (sym chain)
      (prev, 0, refl, last-Inserts prev low block size h below under lo big pos e)
find_place-Inserts (suc n) prev low block size cur [] h enough below under lo big pos e apart sorted
      chain at =
    subst (λ c. Places (suc n) prev low block size c [] h) (sym chain)
      (prev, 0, refl, last-Inserts prev low block size h below under lo big pos e)
find_place-Inserts zero prev low block size cur (b ∷ bs) h enough below under lo big pos e apart
      sorted chain at =
    absurd (omega arith)
find_place-Inserts (suc n) prev low block size cur ((a, s) ∷ bs) h enough below under lo big pos e
      (out, apart) (lo_a, room, sorted) (here, pos_a, es, chain) at =
    let some_block : (a == 0) ≡ false = ne→== a 0 (λ q. omega arith) in
    subst (λ c. Places (suc n) prev low block size c ((a, s) ∷ bs) h) (sym here)
      (elim out [
        | inr before ↦
            let stop : ltb a block ≡ false = ge→ltb a block (omega arith) in
            (
              prev,
              a,
              rw (some_block, stop) refl,
              here-Inserts prev low block size a s bs h below under lo big pos e before
                  (lo_a, room, sorted) (refl, pos_a, es, chain),
            )
        | inl past ↦
            let go : ltb a block ≡ true = lt→ltb a block (omega arith) in
            let (prev', cur', found, (granted, t)) =
              find_place-Inserts n (after a) (a + s) block size (next_of h a) bs h (omega arith)
                (omega arith) (omega arith) past big pos e apart sorted chain refl in
            (
              prev',
              cur',
              rw (some_block, go) found,
              (
                granted,
                rw go (
                    skip-IsTaken prev low a s block granted (insert block size bs) h
                      (insert_at prev' cur' block h) below lo_a room pos_a (at ∙ here) es t),
              ),
            )
      ])

insert-IsSorted :
    (low block size : ℕ) (bs : List Block)
    → low ≤ block
    → 16 ≤ size
    → IsApart block size bs
    → IsSorted low bs
    → IsSorted low (insert block size bs)
unfolding insert IsSorted IsApart
insert-IsSorted low block size [] lo big apart sorted = (lo, big, tt)
insert-IsSorted low block size ((a, s) ∷ bs) lo big (out, apart) (lo_a, room, sorted) = elim out [
  | inr before ↦
      let stop : ltb a block ≡ false = ge→ltb a block (omega arith) in
      elim (Bool-cases (block + size == a)) [
        | inl touch ↦
            let at : a + s ≡ block + (size + s) = ground (arith, touch) in
            rw (stop, touch) (lo, omega arith, subst (λ x. IsSorted x bs) at sorted)
        | inr gap ↦ rw (stop, gap) (lo, big, (before, room, sorted))
      ]
  | inl past ↦
      let go : ltb a block ≡ true = lt→ltb a block (omega arith) in
      rw go (lo_a, room, insert-IsSorted (a + s) block size bs past big apart sorted)
]

update-idle : (m : ℕ → ℕ) (a x : ℕ) → update m a (m a) x ≡ m x
update-idle m a x = elim (Bool-cases (x == a)) [
  | inl y ↦
      let e : a ≡ x = ground (arith, y) in
      subst (λ z. update m a (m a) z ≡ m z) e (update_self m a (m a))
  | inr n ↦ update_ne m a x (m a) (λ q. ground (arith, n, q))
]

-- What `free_inner` answers for the block at the address `b`.
abbrev FreesAt : (rounds ptr : ℕ) → Link → (cur : ℕ) → Heap → ℕ → Type 0
FreesAt rounds ptr prev cur h b =
    find_place rounds root h.free_list b (store b (size_of h b) h) ≡ some (prev, cur)
    → free_inner rounds ptr h ≡ some (insert_at prev cur b (store b (size_of h b) h))

free_inner-found :
    (rounds block cur : ℕ) (prev : Link) (h : Heap)
    → FreesAt rounds (block + alloc_hdr) prev cur h block
unfolding free_inner
free_inner-found rounds block cur prev h =
    let some_ptr : (block + alloc_hdr == 0) ≡ false =
      ne→== (block + alloc_hdr) 0 (λ q. omega arith) in
    let back : block + alloc_hdr - alloc_hdr ≡ block = omega arith in
    subst (FreesAt rounds (block + alloc_hdr) prev cur h) back (λ found. rw (some_ptr, found) refl)

-- `free_inner` ends after as many rounds as there are free blocks. A block of at least 16 bytes,
-- not at address 0, that overlaps with no free block and has its size in the header, is put in the
-- free list before the first block with a higher address, and joined with that one if they touch.
-- The list, which is sorted and without overlap before, is so afterwards.
pub free_inner-insert :
    (rounds block size : ℕ) (bs : List Block) (h : Heap)
    → length bs ≤ rounds
    → 0 < block
    → 16 ≤ size
    → h.mem block ≡ size
    → IsApart block size bs
    → IsFree h bs
    → (h' : Heap) × (free_inner rounds (block + alloc_hdr) h ≡ some h')
      × IsFree h' (insert block size bs)
unfolding IsBelow
free_inner-insert rounds block size bs h enough pos big e apart free =
    let h0 = store block (size_of h block) h in
    let chain : IsChain h0.mem h0.free_list bs =
      IsChain-same 0 h.mem h0.mem h.free_list bs free.sorted (λ x l. update-idle h.mem block x)
        free.chain in
    let (prev, cur, found, (granted, t)) =
      find_place-Inserts rounds root 0 block size h0.free_list bs h0 enough tt tt (omega arith) big
        pos (update-idle h.mem block block ∙ e) apart free.sorted chain refl in
    (
      insert_at prev cur block h0,
      free_inner-found rounds block cur prev h found,
      record {
        chain = t.chain;
        sorted = insert-IsSorted 0 block size bs (omega arith) big apart free.sorted;
      },
    )
