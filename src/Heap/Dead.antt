-- ===== src/Heap/Dead.antt =====
-- The insertion and the coalescing of src/allocator.rs, where a block is freed.
use f1c100s_rs.Base.{
  ℕ, ◌+◌, ◌≡◌, refl, ◌∙◌, not, ◌&&◌, ◌==◌, eq→==, Bool-cases, inl, inr, arith, update_self,
  update_ne,
}
use f1c100s_rs.Heap.{
  Heap, Link, root, after, store, link_get, link_set, merge_forward, merge_back, insert_at, size_of,
  next_of,
}
use f1c100s_rs.Heap.Take.{IsBelow}

merge_back-same :
    (prev : Link) (block : ℕ) (h : Heap) → link_get prev h ≡ block → merge_back prev block h ≡ h
unfolding merge_back
merge_back-same prev block h e = elim (Bool-cases (link_get prev h == 0)) [
  | inl z ↦ rw z refl
  | inr nz ↦ rw (nz, eq→== (link_get prev h) block e) refl
]

link_get-inserted :
    (prev : Link) (block cur : ℕ) (h : Heap)
    → IsBelow prev block
    → link_get prev (merge_forward block cur (link_set prev block h)) ≡ block
unfolding merge_forward IsBelow
link_get-inserted root block cur h below =
    elim (Bool-cases (not (cur == 0) && (block + size_of h block == cur))) [
      | inl y ↦ rw y refl
      | inr n ↦ rw n refl
    ]
link_get-inserted (after p) block cur h below =
    let g = link_set (after p) block h in
    let here : g.mem (p + 4) ≡ block = update_self h.mem (p + 4) block in
    elim (Bool-cases (not (cur == 0) && (block + size_of g block == cur))) [
      | inl y ↦
          let joined = store block (size_of g block + size_of g cur) g in
          rw y (
            update_ne joined.mem (block + 4) (p + 4) (next_of joined cur) (λ q. omega arith)
            ∙ update_ne g.mem block (p + 4) (size_of g block + size_of g cur) (λ q. omega arith)
            ∙ here)
      | inr n ↦ rw n here
    ]

-- Where the link lies below the block that is freed, the block is inserted and joined with the
-- next one only: a block that ends where the freed one begins stays a block of its own.
pub insert_at-forward :
    (prev : Link) (cur block : ℕ) (h : Heap)
    → IsBelow prev block
    → insert_at prev cur block h
      ≡ merge_forward block cur (link_set prev block (store (block + 4) cur h))
unfolding insert_at merge_back
insert_at-forward prev cur block h below =
    merge_back-same prev block _ (link_get-inserted prev block cur (store (block + 4) cur h) below)
