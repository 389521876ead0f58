-- ===== src/Heap/Insert.antt =====
-- A block that is freed, in the free list of src/allocator.rs.
use f1c100s_rs.Base.{
  ℕ, ◌+◌, ◌≤◌, ◌<◌, ◌≡◌, ◌≢◌, refl, sym, ◌∙◌, subst, List, [], ◌∷◌, ltb, ◌==◌, if◌then◌else◌, arith,
  update_self, update_ne,
}
use f1c100s_rs.Heap.{Heap, Link, next_of, size_of, store, link_set}
use f1c100s_rs.Heap.Chain.{Block, IsChain, IsSorted, IsChain-same}
use f1c100s_rs.Heap.Take.{
  IsTaken, IsBelow, IsOff, IsOff-above, link_get-link_set, link_get-store, link_set-away,
  kept-store, kept-link_set, kept-same, RootKept,
}

-- The block goes before the first one with a higher address, and is joined with it if they touch.
unfoldable pub insert : (addr size : ℕ) → List Block → List Block
insert addr size [] = (addr, size) ∷ []
insert addr size ((a, s) ∷ bs) =
    let rest = insert addr size bs in
    if ltb a addr
    then (a, s) ∷ rest
    else (if addr + size == a then (addr, size + s) ∷ bs else (addr, size) ∷ (a, s) ∷ bs)

module _ (prev : Link) (low block size cur : ℕ) (h : Heap) (below : IsBelow prev low)
    (lo : low ≤ block) (big : 16 ≤ size) (e : h.mem block ≡ size) where
  -- The heap with the block in the list, before the coalescing.
  abbrev pub linked : Heap
  linked = link_set prev block (store (block + 4) cur h)

  linked-away : (x : ℕ) → x ≢ block + 4 → IsOff prev x → linked.mem x ≡ h.mem x
  linked-away x ne off =
      link_set-away prev block x (store (block + 4) cur h) off
      ∙ update_ne h.mem (block + 4) x cur ne

  pub linked-size : linked.mem block ≡ size
  linked-size = linked-away block (λ q. omega arith) (IsOff-above prev low block below lo) ∙ e

  linked-next : linked.mem (block + 4) ≡ cur
  linked-next =
      link_set-away prev block (block + 4) (store (block + 4) cur h)
        (IsOff-above prev low (block + 4) below (omega arith))
      ∙ update_self h.mem (block + 4) cur

  linked-kept : RootKept prev h linked
  linked-kept =
      kept-link_set prev block h _ (kept-store prev (block + 4) cur h h (kept-same prev h))

  -- The block stays a block of its own.
  pub alone-IsTaken :
      (bs : List Block)
      → 0 < block
      → IsSorted (block + size) bs
      → IsChain h.mem cur bs
      → IsTaken prev low h linked block (linked.mem block) ((block, size) ∷ bs)
  unfolding IsChain
  alone-IsTaken bs pos sorted chain = record {
    chain = (
      link_get-link_set prev block (store (block + 4) cur h),
      pos,
      linked-size,
      subst (λ c. IsChain linked.mem c bs) (sym linked-next)
          (IsChain-same (block + size) h.mem linked.mem cur bs sorted
            (λ x l. linked-away x (λ q. omega arith) (IsOff-above prev low x below (omega arith)))
            chain),
    );
    header = refl;
    frame = λ x l off. linked-away x (λ q. omega arith) off;
    kept = linked-kept;
  }

  -- The block is joined with the next one, which is `s` bytes long.
  abbrev pub joined : Heap
  joined =
      let h' = store block (size_of linked block + size_of linked cur) linked in
      store (block + 4) (next_of h' cur) h'

  pub joined-IsTaken :
      (s : ℕ) (bs : List Block)
      → 0 < block
      → cur ≡ block + size
      → 16 ≤ s
      → h.mem cur ≡ s
      → IsSorted (block + size + s) bs
      → IsChain h.mem (h.mem (cur + 4)) bs
      → IsTaken prev low h joined block (joined.mem block) ((block, size + s) ∷ bs)
  unfolding IsChain
  joined-IsTaken s bs pos touch room es sorted chain =
      let sum = size_of linked block + size_of linked cur in
      let h' = store block sum linked in
      let far : (x : ℕ) → block + 8 ≤ x → linked.mem x ≡ h.mem x =
        λ x l. linked-away x (λ q. omega arith) (IsOff-above prev low x below (omega arith)) in
      let next : next_of h' cur ≡ h.mem (cur + 4) =
        update_ne linked.mem block (cur + 4) sum (λ q. omega arith) ∙ far (cur + 4) (omega arith) in
      let away : (x : ℕ) → x ≢ block + 4 → x ≢ block → joined.mem x ≡ linked.mem x = λ x n4 n0.
        update_ne h'.mem (block + 4) x (next_of h' cur) n4 ∙ update_ne linked.mem block x sum n0 in
      record {
        chain = (
          link_get-store prev low (block + 4) (next_of h' cur) h' below (omega arith)
              ∙ link_get-store prev low block sum linked below lo
              ∙ link_get-link_set prev block (store (block + 4) cur h),
          pos,
          update_ne h'.mem (block + 4) block (next_of h' cur) (λ q. omega arith)
              ∙ update_self linked.mem block sum
              ∙ (λ i. linked-size i + (far cur (omega arith) ∙ es) i),
          subst (λ c. IsChain joined.mem c bs)
              (sym (update_self h'.mem (block + 4) (next_of h' cur) ∙ next))
              (IsChain-same (block + size + s) h.mem joined.mem (h.mem (cur + 4)) bs sorted
                (λ x l. away x (λ q. omega arith) (λ q. omega arith) ∙ far x (omega arith)) chain),
        );
        header = refl;
        frame = λ x l off.
            away x (λ q. omega arith) (λ q. omega arith) ∙ linked-away x (λ q. omega arith) off;
        kept =
            kept-store prev (block + 4) (next_of h' cur) h h'
              (kept-store prev block sum h linked linked-kept);
      }
