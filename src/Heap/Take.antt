-- ===== src/Heap/Take.antt =====
-- Taking a block from the free list of src/allocator.rs.
use f1c100s_rs.Base.{
  ℕ, ◌+◌, ◌-◌, ◌≤◌, ◌<◌, ◌≡◌, ◌≢◌, refl, sym, ap, ◌∙◌, subst, true, false, List, ◌∷◌, leb, arith,
  update_self, update_ne,
}
use f1c100s_rs.Heap.{Heap, Link, root, after, next_of, store, link_get, link_set, take_block}
use f1c100s_rs.Heap.Chain.{Block, IsChain, IsSorted, IsChain-same}

-- A link lies below the blocks that follow it.
unfoldable pub IsBelow : Link → ℕ → Type 0
IsBelow root low = Unit {0}
IsBelow (after p) low = p + 8 ≤ low

-- A word that is not the link.
unfoldable pub IsOff : Link → ℕ → Type 0
IsOff root x = Unit {0}
IsOff (after p) x = x ≢ p + 4

abbrev pub RootKept : Link → Heap → Heap → Type 0
RootKept root h h' = Unit {0}
RootKept (after p) h h' = h'.free_list ≡ h.free_list

-- The heap after an allocation: the link leads to the blocks that are left, the granted size
-- stands in the header, and no other word below the blocks has changed.
pub record IsTaken (prev : Link) (low : ℕ) (h h' : Heap) (found granted : ℕ) (left : List Block)
    : Type 0 where
  pub chain : IsChain h'.mem (link_get prev h') left
  pub header : h'.mem found ≡ granted
  pub frame : (x : ℕ) → x < low → IsOff prev x → h'.mem x ≡ h.mem x
  pub kept : RootKept prev h h'

pub link_set-away :
    (prev : Link) (v x : ℕ) (h : Heap) → IsOff prev x → (link_set prev v h).mem x ≡ h.mem x
unfolding IsOff
link_set-away root v x h off = refl
link_set-away (after p) v x h off = update_ne h.mem (p + 4) x v off

pub IsOff-above : (prev : Link) (low x : ℕ) → IsBelow prev low → low ≤ x → IsOff prev x
unfolding IsOff IsBelow
IsOff-above root low x below h = tt
IsOff-above (after p) low x below h = λ e. omega arith

pub link_get-link_set : (prev : Link) (v : ℕ) (h : Heap) → link_get prev (link_set prev v h) ≡ v
link_get-link_set root v h = refl
link_get-link_set (after p) v h = update_self h.mem (p + 4) v

pub link_get-store :
    (prev : Link) (low a v : ℕ) (h : Heap)
    → IsBelow prev low
    → low ≤ a
    → link_get prev (store a v h) ≡ link_get prev h
unfolding IsBelow
link_get-store root low a v h below le = refl
link_get-store (after p) low a v h below le = update_ne h.mem a (p + 4) v (λ e. omega arith)

pub link_set-kept : (prev : Link) (v : ℕ) (h : Heap) → RootKept prev h (link_set prev v h)
link_set-kept root v h = tt
link_set-kept (after p) v h = refl

pub kept-store :
    (prev : Link) (a v : ℕ) (h h' : Heap) → RootKept prev h h' → RootKept prev h (store a v h')
kept-store root a v h h' k = tt
kept-store (after p) a v h h' k = k

pub kept-link_set :
    (prev : Link) (v : ℕ) (h h' : Heap) → RootKept prev h h' → RootKept prev h (link_set prev v h')
kept-link_set root v h h' k = tt
kept-link_set (after p) v h h' k = k

pub kept-same : (prev : Link) (h : Heap) → RootKept prev h h
kept-same root h = tt
kept-same (after p) h = refl

-- The whole block is taken.
pub take-whole :
    (prev : Link) (low a s needed : ℕ) (bs : List Block) (h : Heap)
    → IsBelow prev low
    → IsSorted low ((a, s) ∷ bs)
    → IsChain h.mem a ((a, s) ∷ bs)
    → leb 16 (s - needed) ≡ false
    → (h' : Heap) × (take_block prev a needed h ≡ (a + 4, h')) × IsTaken prev low h h' a s bs
unfolding take_block IsSorted IsChain
take-whole prev low a s needed bs h below (lo, big, sorted) (here, pos, e, chain) whole =
    let linked = link_set prev (next_of h a) h in
    let size : linked.mem a ≡ s =
      link_set-away prev (next_of h a) a h (IsOff-above prev low a below lo) ∙ e in
    let no : leb 16 (h.mem a - needed) ≡ false = ap (λ x. leb 16 (x - needed)) e ∙ whole in
    let h' = store a (linked.mem a) linked in
    let same : (x : ℕ) → a + s ≤ x → h'.mem x ≡ h.mem x = λ x l.
      update_ne linked.mem a x (linked.mem a) (λ q. omega arith)
      ∙ link_set-away prev (next_of h a) x h (IsOff-above prev low x below (omega arith)) in
    let at : link_get prev h' ≡ next_of h a =
      link_get-store prev low a (linked.mem a) linked below lo
      ∙ link_get-link_set prev (next_of h a) h in
    (
      h',
      rw no refl,
      record {
        chain =
            subst (λ c. IsChain h'.mem c bs) (sym at)
              (IsChain-same (a + s) h.mem h'.mem (next_of h a) bs sorted same chain);
        header = update_self linked.mem a (linked.mem a) ∙ size;
        frame = λ x l off.
            update_ne linked.mem a x (linked.mem a) (λ q. omega arith)
            ∙ link_set-away prev (next_of h a) x h off;
        kept = kept-store prev a (linked.mem a) h linked (link_set-kept prev (next_of h a) h);
      },
    )

-- The front of the block is taken.
pub take-front :
    (prev : Link) (low a s needed : ℕ) (bs : List Block) (h : Heap)
    → IsBelow prev low
    → 8 ≤ needed
    → IsSorted low ((a, s) ∷ bs)
    → IsChain h.mem a ((a, s) ∷ bs)
    → leb 16 (s - needed) ≡ true
    → (h' : Heap) × (take_block prev a needed h ≡ (a + 4, h'))
      × IsTaken prev low h h' a needed ((a + needed, s - needed) ∷ bs)
unfolding take_block IsSorted IsChain
take-front prev low a s needed bs h below some_bytes (lo, big, sorted) (here, pos, e, chain)
      splits =
    let yes : leb 16 (h.mem a - needed) ≡ true = ap (λ x. leb 16 (x - needed)) e ∙ splits in
    let room : needed + 16 ≤ s = ground (arith, splits) in
    let split = a + needed in
    let h1 = store split (h.mem a - needed) h in
    let h2 = store (split + 4) (next_of h a) h1 in
    let h3 = link_set prev split h2 in
    let h' = store a needed h3 in
    -- A word that is neither the header nor the link.
    let away : (x : ℕ) → x ≢ a → IsOff prev x → h'.mem x ≡ h2.mem x =
      λ x ne off. update_ne h3.mem a x needed ne ∙ link_set-away prev split x h2 off in
    let same : (x : ℕ) → a + s ≤ x → h'.mem x ≡ h.mem x = λ x l.
      away x (λ q. omega arith) (IsOff-above prev low x below (omega arith))
      ∙ update_ne h1.mem (split + 4) x (next_of h a) (λ q. omega arith)
      ∙ update_ne h.mem split x (h.mem a - needed) (λ q. omega arith) in
    let at : link_get prev h' ≡ split =
      link_get-store prev low a needed h3 below lo ∙ link_get-link_set prev split h2 in
    let size : h'.mem split ≡ s - needed =
      away split (λ q. omega arith) (IsOff-above prev low split below (omega arith))
      ∙ update_ne h1.mem (split + 4) split (next_of h a) (λ q. omega arith)
      ∙ update_self h.mem split (h.mem a - needed)
      ∙ ap (λ x. x - needed) e in
    let next : h'.mem (split + 4) ≡ next_of h a =
      away (split + 4) (λ q. omega arith) (IsOff-above prev low (split + 4) below (omega arith))
      ∙ update_self h1.mem (split + 4) (next_of h a) in
    (
      h',
      rw yes refl,
      record {
        chain = (
          at,
          omega arith,
          size,
          subst (λ c. IsChain h'.mem c bs) (sym next)
              (IsChain-same (a + s) h.mem h'.mem (next_of h a) bs sorted same chain),
        );
        header = update_self h3.mem a needed;
        frame = λ x l off.
            away x (λ q. omega arith) off
            ∙ update_ne h1.mem (split + 4) x (next_of h a) (λ q. omega arith)
            ∙ update_ne h.mem split x (h.mem a - needed) (λ q. omega arith);
        kept = kept-store prev a needed h h3 (
            kept-link_set prev split h h2 (
              kept-store prev (split + 4) (next_of h a) h h1
                (kept-store prev split (h.mem a - needed) h h (kept-same prev h))));
      },
    )
