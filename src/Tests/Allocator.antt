-- ===== src/Tests/Allocator.antt =====
-- The heap of src/allocator.rs with the free blocks 64..88 and 128..256.
use f1c100s_rs.Base.{
  ℕ, ◌+◌, ◌≤◌, ◌<◌, ◌≡◌, ◌≢◌, ◌⊎◌, inl, inr, refl, none, some, List, [], ◌∷◌, arith, update,
}
use f1c100s_rs.Bits.{not32}
use f1c100s_rs.Heap.{
  Heap, Link, align_up, align, alloc_hdr, alloc_inner, alloc, dealloc, insert_at, merge_forward,
  link_set, store, alloc_from, take_block, free_inner,
}
use f1c100s_rs.Heap.Chain.{Block, IsChain, IsSorted, IsApart, first_fit}
use f1c100s_rs.Heap.Take.{IsBelow}
use f1c100s_rs.Heap.FirstFit.{IsFree, alloc_inner-first_fit}
use f1c100s_rs.Heap.Insert.{insert}
use f1c100s_rs.Heap.Free.{free_inner-insert}
use f1c100s_rs.Heap.Dead.{insert_at-forward}
use f1c100s_rs.Heap.Shifted.{alloc-shifted}

abbrev blocks : List Block
blocks = (64, 24) ∷ (128, 128) ∷ []

abbrev memory : ℕ → ℕ
memory = update (update (update (update (λ _. 0) 64 24) 68 128) 128 128) 132 0

abbrev heap : Heap
heap = record { free_list = 64; mem = memory }

heap-IsFree : IsFree heap blocks
unfolding IsChain IsSorted
heap-IsFree = record {
  chain = (refl, omega arith, refl, (refl, omega arith, refl, refl));
  sorted = (omega arith, omega arith, (omega arith, omega arith, tt));
}

aligned : align_up 33 align ≡ 40
unfolding align_up not32
aligned = refl

alloc_inner-first_fit_example :
    ((first_fit (align_up 33 align) blocks ≡ none) × (alloc_inner 2 33 heap ≡ some (0, heap)))
    ⊎ ((found : ℕ) × (granted : ℕ) × (left : List Block) × (h' : Heap) × (first_fit
            (align_up 33 align)
            blocks
          ≡ some (found, (granted, left)))
        × (alloc_inner 2 33 heap ≡ some (found + alloc_hdr, h'))
        × IsFree h' left
        × (h'.mem found ≡ granted)
        × (align_up 33 align ≤ granted)
        × IsApart found granted left)
alloc_inner-first_fit_example =
    alloc_inner-first_fit 2 33 blocks heap (omega arith) (omega (arith, aligned)) heap-IsFree

-- The first block is too small: the front of the second is granted.
alloc_inner_runs : first_fit 40 blocks ≡ some (128, (40, (64, 24) ∷ (168, 88) ∷ []))
unfolding first_fit
alloc_inner_runs = refl

-- The block 88..104 is freed, which begins where the first free block ends.
insert_at-forward_example :
    insert_at (Link.after 64) 128 88 heap
    ≡ merge_forward 88 128 (link_set (Link.after 64) 88 (store (88 + 4) 128 heap))
unfolding IsBelow
insert_at-forward_example = insert_at-forward (Link.after 64) 128 88 heap (omega arith)

-- The pointer that `alloc` answers is aligned to 8, and its header is not the word before it.
alloc_runs :
    (h' : Heap) × (alloc 2 12 4 heap ≡ some (72, h')) × (h'.mem 64 ≡ 24) × (h'.mem 68 ≡ 128)
unfolding alloc alloc_inner alloc_from take_block align_up not32
alloc_runs = (_, refl, refl, refl)

abbrev rest_heap : Heap
rest_heap = record { free_list = 128; mem = update memory 64 24 }

alloc-shifted_example :
    (alloc 2 12 4 heap ≡ some (64 + 8, rest_heap))
    × (((rest_heap.free_list ≢ 0) × (rest_heap.free_list < 64 + 4))
        ⊎ ((freed : Heap) × (dealloc 2 (64 + 8) rest_heap ≡ some freed)
            × (freed.free_list ≡ 64 + 4)))
unfolding alloc_inner alloc_from take_block align_up not32
alloc-shifted_example =
    alloc-shifted 2 12 4 64 2 heap rest_heap refl (omega arith) (omega arith) refl

-- The block 104..128 has been granted, and is freed.
abbrev granted_heap : Heap
granted_heap = store 104 24 heap

granted_heap-IsFree : IsFree granted_heap blocks
unfolding IsChain IsSorted
granted_heap-IsFree = record {
  chain = (refl, omega arith, refl, (refl, omega arith, refl, refl));
  sorted = (omega arith, omega arith, (omega arith, omega arith, tt));
}

free_inner-insert_example :
    (h' : Heap) × (free_inner 2 (104 + alloc_hdr) granted_heap ≡ some h')
    × IsFree h' (insert 104 24 blocks)
unfolding IsApart
free_inner-insert_example =
    free_inner-insert 2 104 24 blocks granted_heap (omega arith) (omega arith) (omega arith) refl
      (inl (omega arith), (inr (omega arith), tt)) granted_heap-IsFree

-- The freed block is joined with the next one.
free_inner_runs : insert 104 24 blocks ≡ (64, 24) ∷ (104, 152) ∷ []
unfolding insert
free_inner_runs = refl
