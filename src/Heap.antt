-- ===== src/Heap.antt =====
-- src/allocator.rs. The memory is a function from the address to the word there; `alloc_inner` and
-- `free_inner` only read and write the words of headers. Block addresses and sizes stay in the
-- address space, so that their sums are not reduced.
pub mod Chain
pub mod FirstFit
pub mod Take
pub mod Dead
pub mod Shifted
pub mod Insert
pub mod Free
use f1c100s_rs.Base.{
  ℕ, zero, suc, ◌+◌, ◌-◌, ◌%◌, Bool, true, false, ◌&&◌, not, Option, none, some, ltb, leb, ◌==◌,
  if◌then◌else◌, update, max,
}
use f1c100s_rs.Bits.{bit_and, not32, u32_mod}

abbrev pub align : ℕ
align = 8

-- The sizes of `FreeBlock` and `AllocHeader`.
abbrev pub free_hdr : ℕ
free_hdr = 8

abbrev pub alloc_hdr : ℕ
alloc_hdr = 4

pub record Heap : Type 0 where
  pub free_list : ℕ
  pub mem : ℕ → ℕ

abbrev pub store : ℕ → ℕ → Heap → Heap
store addr v h = record h { mem = update h.mem addr v }

-- `(*block).size` and `(*block).next`.
abbrev pub size_of : Heap → ℕ → ℕ
size_of h block = h.mem block

abbrev pub next_of : Heap → ℕ → ℕ
next_of h block = h.mem (block + 4)

-- A `*mut *mut FreeBlock`: `FREE_LIST`, or the field `next` of a block.
pub data Link : Type 0 where
  root : Link
  after : ℕ → Link

abbrev pub link_get : Link → Heap → ℕ
link_get root h = h.free_list
link_get (after block) h = next_of h block

abbrev pub link_set : Link → ℕ → Heap → Heap
link_set root v h = record h { free_list = v }
link_set (after block) v h = store (block + 4) v h

-- `align_up`.
unfoldable pub align_up : ℕ → ℕ → ℕ
align_up addr to = bit_and ((addr + to - 1) % u32_mod) (not32 (to - 1))

-- `init_heap`.
unfoldable pub init_heap : (start size : ℕ) → Heap → Heap
unfolding align_up
init_heap start size h =
    let block = align_up start align in
    let aligned = bit_and size (not32 (align - 1)) in
    if ltb aligned (free_hdr + 16)
    then h
    else record (store (block + 4) 0 (store block aligned h)) { free_list = block }

-- The block `cur` is taken: its front of `needed` bytes if what remains can be a free block, and
-- all of it otherwise.
unfoldable pub take_block : Link → (cur needed : ℕ) → Heap → ℕ × Heap
take_block prev cur needed h =
    let remaining = size_of h cur - needed in
    let splits = leb (free_hdr + align) remaining in
    let split = cur + needed in
    let h' =
      (if splits
        then link_set prev split (store (split + 4) (next_of h cur) (store split remaining h))
        else link_set prev (next_of h cur) h) in
    (cur + alloc_hdr, store cur (if splits then needed else size_of h' cur) h')

-- The loop of `alloc_inner`, with at most `n` rounds; `none` when they do not suffice.
unfoldable pub alloc_from : ℕ → Link → (cur needed : ℕ) → Heap → Option (ℕ × Heap)
unfolding take_block
alloc_from zero prev cur needed h = if cur == 0 then some (0, h) else none
alloc_from (suc n) prev cur needed h =
    let rest = alloc_from n (after cur) (next_of h cur) needed h in
    if cur == 0
    then some (0, h)
    else (if leb needed (size_of h cur) then some (take_block prev cur needed h) else rest)

-- `alloc_inner`.
unfoldable pub alloc_inner : (rounds needed : ℕ) → Heap → Option (ℕ × Heap)
unfolding alloc_from align_up
alloc_inner rounds needed h = alloc_from rounds root h.free_list (align_up needed align) h

-- The search of `free_inner` for the place of `block`, with at most `n` rounds.
unfoldable pub find_place : ℕ → Link → (cur block : ℕ) → Heap → Option (Link × ℕ)
find_place zero prev cur block h =
    if not (cur == 0) && ltb cur block then none else some (prev, cur)
find_place (suc n) prev cur block h =
    let rest = find_place n (after cur) (next_of h cur) block h in
    if not (cur == 0) && ltb cur block then rest else some (prev, cur)

-- The coalescing with the next block.
unfoldable pub merge_forward : (block cur : ℕ) → Heap → Heap
merge_forward block cur h =
    if not (cur == 0) && (block + size_of h block == cur)
    then (let h' = store block (size_of h block + size_of h cur) h in
        store (block + 4) (next_of h' cur) h')
    else h

-- The coalescing with the previous block.
unfoldable pub merge_back : Link → ℕ → Heap → Heap
merge_back prev block h =
    let before = link_get prev h in
    if not (before == 0) && (not (before == block) && (before + size_of h before == block))
    then (let h' = store before (size_of h before + size_of h block) h in
        store (before + 4) (next_of h' block) h')
    else h

-- What `free_inner` does with the block at the place found.
unfoldable pub insert_at : Link → (cur block : ℕ) → Heap → Heap
unfolding merge_forward merge_back
insert_at prev cur block h =
    merge_back prev block (merge_forward block cur (link_set prev block (store (block + 4) cur h)))

-- `free_inner`.
unfoldable pub free_inner : (rounds ptr : ℕ) → Heap → Option Heap
unfolding find_place insert_at
free_inner rounds ptr h =
    if ptr == 0
    then some h
    else (let block = ptr - alloc_hdr in
        let h0 = store block (size_of h block) h in
        elim (find_place rounds root h0.free_list block h0) [
          | none ↦ none
          | some (prev, cur) ↦ some (insert_at prev cur block h0)
        ])

-- `alloc`, without the interrupt mask.
unfoldable pub alloc : (rounds size layout_align : ℕ) → Heap → Option (ℕ × Heap)
unfolding alloc_inner align_up
alloc rounds size layout_align h =
    let to = max layout_align align in
    elim (alloc_inner rounds (align_up ((size + alloc_hdr + to - 1) % u32_mod) align) h) [
      | none ↦ none
      | some (ptr, h') ↦ some (if ptr == 0 then 0 else align_up ptr to, h')
    ]

-- `dealloc`, without the interrupt mask.
unfoldable pub dealloc : (rounds ptr : ℕ) → Heap → Option Heap
unfolding free_inner
dealloc rounds ptr h = free_inner rounds ptr h

-- `free_bytes`, with at most `n` rounds from the block `cur`.
unfoldable pub free_bytes_from : ℕ → (cur total : ℕ) → Heap → Option ℕ
free_bytes_from zero cur total h = if cur == 0 then some total else none
free_bytes_from (suc n) cur total h =
    let rest = free_bytes_from n (next_of h cur) ((total + size_of h cur) % u32_mod) h in
    if cur == 0 then some total else rest

-- `free_bytes`.
unfoldable pub free_bytes : ℕ → Heap → Option ℕ
unfolding free_bytes_from
free_bytes rounds h = free_bytes_from rounds h.free_list 0 h
