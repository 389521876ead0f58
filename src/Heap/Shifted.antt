-- ===== src/Heap/Shifted.antt =====
-- The pointer that `alloc` of src/allocator.rs hands out.
use f1c100s_rs.Base.{
  ℕ, zero, suc, not, ◌&&◌, ◌==◌, ltb, false, ◌⊎◌, eq→==, Bool-cases, ◌+◌, ◌-◌, ◌*◌, ◌/◌, ◌%◌, ◌^◌,
  ◌≤◌, ◌<◌, ◌≡◌, ◌≢◌, refl, ◌∙◌, some, max, lt_or_ge, inl, inr, ne→==, arith,
}
use f1c100s_rs.Bits.{bit_and, not32, u32_mod}
use f1c100s_rs.Bits.Laws.{test_bit-bit_and, test_bit-not32, eq_of_bits}
use f1c100s_rs.Bits.Shift.{test_bit-mul_pow, test_bit-div_pow, test_bit-high}
use f1c100s_rs.Mmio.Fields.{test_bit-ones}
use f1c100s_rs.Heap.{
  Heap, Link, size_of, store, align_up, align, alloc_hdr, alloc_inner, alloc, find_place, insert_at,
  merge_forward, merge_back, free_inner, dealloc,
}

-- Clearing the three low bits of a word.
clear_low : (x : ℕ) → x < u32_mod → bit_and x (not32 7) ≡ x / 2 ^ 3 * 2 ^ 3
clear_low x h =
    let a = bit_and x (not32 7) in
    let b = x / 2 ^ 3 * 2 ^ 3 in
    eq_of_bits (a + b) a b (omega arith) (omega arith) (λ i.
      rw
        (
          test_bit-bit_and x (not32 7) i,
          test_bit-not32 7 i (omega arith),
          test_bit-ones 3 i,
          test_bit-mul_pow 3 (x / 2 ^ 3) i,
          test_bit-div_pow 3 x (i - 3),
        )
        (elim (lt_or_ge i 3) [
          | inl low ↦ ground arith
          | inr high ↦
              let e : i - 3 + 3 ≡ i = omega arith in
              elim (lt_or_ge i 32) [
                | inl in_word ↦ rw e (ground arith)
                | inr out ↦ rw (e, test_bit-high x i h out) (ground arith)
              ]
        ]))

align_up_next :
    (found : ℕ) → found % 8 ≡ 0 → found + 11 < u32_mod → align_up (found + 4) 8 ≡ found + 8
unfolding align_up
align_up_next found aligned h =
    clear_low ((found + 4 + 8 - 1) % u32_mod) (omega arith) ∙ omega arith

-- A block that comes before the first free one becomes the head of the free list.
insert_at-head : (cur block : ℕ) (h : Heap) → (insert_at Link.root cur block h).free_list ≡ block
unfolding insert_at merge_forward merge_back
insert_at-head cur block h =
    let linked = record (store (block + 4) cur h) { free_list = block } in
    elim (Bool-cases (not (cur == 0) && (block + size_of linked block == cur))) [
      | inl joins ↦ rw (joins, eq→== block block refl) (ground arith)
      | inr apart ↦ rw (apart, eq→== block block refl) (ground arith)
    ]

find_place-front :
    (n : ℕ) (prev : Link) (cur block : ℕ) (h : Heap)
    → (not (cur == 0) && ltb cur block) ≡ false
    → find_place n prev cur block h ≡ some (prev, cur)
unfolding find_place
find_place-front zero prev cur block h front = rw front refl
find_place-front (suc n) prev cur block h front = rw front refl

free_inner-head :
    (rounds ptr block : ℕ) (h : Heap)
    → ptr ≢ 0
    → ptr - alloc_hdr ≡ block
    → (not (h.free_list == 0) && ltb h.free_list block) ≡ false
    → (h' : Heap) × (free_inner rounds ptr h ≡ some h') × (h'.free_list ≡ block)
unfolding free_inner
free_inner-head rounds ptr block h some_ptr at front =
    let freed = ptr - alloc_hdr in
    let h0 = store freed (size_of h freed) h in
    let stops : (not (h.free_list == 0) && ltb h.free_list freed) ≡ false = rw at front in
    (
      insert_at Link.root h.free_list freed h0,
      rw (ne→== ptr 0 some_ptr, find_place-front rounds Link.root h.free_list freed h0 stops) refl,
      insert_at-head h.free_list freed h0 ∙ at,
    )

-- Where the alignment is at most 8 and `alloc_inner` takes a block at a multiple of 8 below
-- 2^32 - 11, `alloc` hands out an address 8 bytes into the block, though the header has 4 bytes. If
-- no free block comes before it, `dealloc` of that address puts a block at the front of the free list that starts
-- 4 bytes after the block that was taken.
pub alloc-shifted :
    (rounds size to found n : ℕ) (h h' : Heap)
    → found % 8 ≡ 0
    → found + 11 < u32_mod
    → to ≤ 8
    → alloc_inner rounds (align_up ((size + alloc_hdr + 8 - 1) % u32_mod) align) h
      ≡ some (found + 4, h')
    → (alloc rounds size to h ≡ some (found + 8, h'))
      × (((h'.free_list ≢ 0) × (h'.free_list < found + 4))
          ⊎ ((freed : Heap) × (dealloc n (found + 8) h' ≡ some freed)
              × (freed.free_list ≡ found + 4)))
unfolding alloc dealloc
alloc-shifted rounds size to found n h h' aligned small le got =
    let eight : max to 8 ≡ 8 = omega arith in
    (
      rw
          (
            eight,
            got,
            ne→== (found + 4) 0 (λ q. omega arith),
            eight,
            align_up_next found aligned small,
            alloc,
          )
          refl,
      elim (Bool-cases (not (h'.free_list == 0) && ltb h'.free_list (found + 4))) [
        | inl before ↦ inl (λ z. ground (arith, before, z), ground (arith, before))
        | inr front ↦ inr (
            free_inner-head n (found + 8) (found + 4) h' (λ q. absurd (omega arith)) (omega arith)
              front)
      ],
    )
