-- ===== src/Dram/Size/Mirror.antt =====
-- When a window of the memory shows what is written to another one in src/dram.rs.
use f1c100s_rs.Base.{
  ℕ, zero, suc, ◌+◌, ◌*◌, ◌≤◌, ◌<◌, ◌≡◌, ◌≢◌, ◌∙◌, refl, ap, Bool, true, false, ◌&&◌, leb, ltb,
  ◌==◌, if◌then◌else◌, Bool-cases, inl, inr, arith, eq→==, ne→==,
}
use f1c100s_rs.Io.{ok}
use f1c100s_rs.Dram.{dram_mem_base}
use f1c100s_rs.Dram.Size.{fill_pair, count_window, mirrors}

-- A memory that keeps the words of its cells, and selects the cell `fold addr` by an address.
pub record IsMemory {D : Type 0} (dev_read : ℕ → D → ℕ × D) (dev_write : ℕ → ℕ → D → D)
    (fold : ℕ → ℕ) (cell : D → ℕ → ℕ) : Type 0 where
  pub loads :
      (addr : ℕ) (d : D)
      → dram_mem_base ≤ addr
      → (d' : D) × (dev_read addr d ≡ (cell d (fold addr), d')) × ((x : ℕ) → cell d' x ≡ cell d x)
  pub stores :
      (addr val : ℕ) (d : D)
      → dram_mem_base ≤ addr
      → (x : ℕ) → cell (dev_write addr val d) x ≡ (if x == fold addr then val else cell d x)

-- The cells of two windows of 32 words: those of the first are different from each other, and the
-- second one selects either the same cells, in their order, or others.
pub record IsWindow (fold : ℕ → ℕ) (addr1 addr2 : ℕ) (same : Bool) : Type 0 where
  pub first :
      (i j : ℕ) → i < 32 → j < 32 → (fold (addr1 + 4 * i) == fold (addr1 + 4 * j)) ≡ (i == j)
  pub second :
      (i j : ℕ)
      → i < 32
      → j < 32
      → (fold (addr1 + 4 * i) == fold (addr2 + 4 * j)) ≡ (same && (i == j))

filled :
    (n i j val1 val2 old : ℕ) (same : Bool)
    → (if leb (i + 1) j && ltb j (i + 1 + n)
        then (if same then val2 else val1)
        else (if same && (j == i) then val2 else (if j == i then val1 else old)))
      ≡ (if leb i j && ltb j (i + suc n) then (if same then val2 else val1) else old)
filled n i j val1 val2 old true = elim (Bool-cases (j == i)) [
  | inl here ↦ rw here (ground (arith, here))
  | inr other ↦ rw other (ground (arith, other))
]
filled n i j val1 val2 old false = elim (Bool-cases (j == i)) [
  | inl here ↦ rw here (ground (arith, here))
  | inr other ↦ rw other (ground (arith, other))
]

in_window : (word old j : ℕ) → j < 32 → (if leb 0 j && ltb j (0 + 32) then word else old) ≡ word
in_window word old j small = ground arith

module _ {D : Type 0} (dev_read : ℕ → D → ℕ × D) (dev_write : ℕ → ℕ → D → D) (fold : ℕ → ℕ)
    (cell : D → ℕ → ℕ) (memory : IsMemory dev_read dev_write fold cell) (addr1 addr2 : ℕ)
    (same : Bool) (windows : IsWindow fold addr1 addr2 same) (low1 : dram_mem_base ≤ addr1)
    (low2 : dram_mem_base ≤ addr2) where
  fill_pair-cells :
      (n i val1 val2 : ℕ) (d : D)
      → i + n ≤ 32
      → (d' : D) × (fill_pair dev_read dev_write n i addr1 addr2 val1 val2 d ≡ ok tt d')
        × ((j : ℕ)
            → j < 32
            → cell d' (fold (addr1 + 4 * j)) ≡ (
                if leb i j && ltb j (i + n)
                then (if same then val2 else val1)
                else cell d (fold (addr1 + 4 * j))))
  unfolding fill_pair
  fill_pair-cells zero i val1 val2 d short = (d, refl, (λ j small. ground arith))
  fill_pair-cells (suc n) i val1 val2 d short =
      let d1 = dev_write (addr1 + 4 * i) val1 d in
      let d2 = dev_write (addr2 + 4 * i) val2 d1 in
      let (d', ran, got) = fill_pair-cells n (i + 1) val1 val2 d2 (omega arith) in
      let two : (j : ℕ)
          → j < 32
          → cell d2 (fold (addr1 + 4 * j)) ≡ (
              if same && (j == i)
              then val2
              else (if j == i then val1 else cell d (fold (addr1 + 4 * j)))) =
        λ j small.
          memory.stores (addr2 + 4 * i) val2 d1 (omega arith) (fold (addr1 + 4 * j))
          ∙ rw
              (
                windows.second j i small (omega arith),
                memory.stores (addr1 + 4 * i) val1 d (omega arith) (fold (addr1 + 4 * j)),
                windows.first j i small (omega arith),
              )
              refl in
      (
        d',
        ran,
        (λ j small.
            got j small
            ∙ rw (two j small) (filled n i j val1 val2 (cell d (fold (addr1 + 4 * j))) same)),
      )

  count_window-all :
      (n i val count word : ℕ) (d : D)
      → i + n ≤ 32
      → (word == val) ≡ same
      → ((j : ℕ) → j < 32 → cell d (fold (addr1 + 4 * j)) ≡ word)
      → (d' : D) × (count_window dev_read dev_write n i addr1 val count d
          ≡ ok (if same then count + n else count) d')
  unfolding count_window
  count_window-all zero i val count word d short test words = (
    d,
    elim (Bool-cases same) [
      | inl e ↦ rw e (ap (λ (k : ℕ). ok k d) (omega arith))
      | inr e ↦ rw e refl
    ],
  )
  count_window-all (suc n) i val count word d short test words =
      let (d1, read, kept) = memory.loads (addr1 + 4 * i) d (omega arith) in
      let next = if same then count + 1 else count in
      let (d', ran) =
        count_window-all n (i + 1) val next word d1 (omega arith) test
          (λ j small. kept (fold (addr1 + 4 * j)) ∙ words j small) in
      let total : (if same then next + n else next) ≡ (if same then count + suc n else count) =
        elim (Bool-cases same) [ inl e ↦ rw e (omega arith) | inr e ↦ rw e refl ] in
      (d', rw (read, words i (omega arith), test) (ran ∙ ap (λ (k : ℕ). ok k d') total))

  -- `mirrors` answers whether the second window selects the cells of the first one.
  pub mirrors_lem :
      (val1 val2 : ℕ) (d : D)
      → val1 ≢ val2
      → (d' : D) × (mirrors dev_read dev_write addr1 addr2 val1 val2 d ≡ ok same d')
  unfolding mirrors
  mirrors_lem val1 val2 d differ =
      let (d1, ran, got) = fill_pair-cells 32 0 val1 val2 d (omega arith) in
      let word = if same then val2 else val1 in
      let test : (word == val2) ≡ same = elim (Bool-cases same) [
        | inl e ↦ rw e (eq→== val2 val2 refl)
        | inr e ↦ rw e (ne→== val1 val2 differ)
      ] in
      let (d2, counted) = count_window-all 32 0 val2 0 word d1 (omega arith) test (λ j small.
        got j small
        ∙ in_window (if same then val2 else val1) (cell d (fold (addr1 + 4 * j))) j small) in
      let all : ((if same then 0 + 32 else 0) == 32) ≡ same = elim (Bool-cases same) [
        | inl e ↦ rw e refl
        | inr e ↦ rw e refl
      ] in
      (d2, rw (ran, counted, all) refl)
