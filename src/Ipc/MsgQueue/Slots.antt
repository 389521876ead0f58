-- ===== src/Ipc/MsgQueue/Slots.antt =====
-- Messages in the buffer of src/ipc/msgqueue.rs, and the slots of its ring.
use native.Mathlib.Nat.{mul-le-mul_right, mod-eq_of_lt, mod_self, add-mul}
use f1c100s_rs.Base.{
  ℕ, zero, suc, ◌+◌, ◌*◌, ◌%◌, ◌<◌, ◌≤◌, ◌≡◌, ◌≢◌, ◌⊎◌, inl, inr, refl, ◌∙◌, List, [], ◌∷◌, length,
  arith, update_self, update_ne, lt_or_ge,
}
use f1c100s_rs.Bits.{u32_mod}
use f1c100s_rs.Ipc.MsgQueue.{write_bytes, read_bytes, offset}

-- A write elsewhere is not seen.
write_bytes-below : (at j : ℕ) (xs : List ℕ) (b : ℕ → ℕ) → j < at → write_bytes at xs b j ≡ b j
unfolding write_bytes
write_bytes-below at j [] b h = refl
write_bytes-below at j (x ∷ xs) b h =
    update_ne (write_bytes (at + 1) xs b) at j x (omega arith)
    ∙ write_bytes-below (at + 1) j xs b (omega arith)

write_bytes-above :
    (at j : ℕ) (xs : List ℕ) (b : ℕ → ℕ) → at + length xs ≤ j → write_bytes at xs b j ≡ b j
unfolding write_bytes
write_bytes-above at j [] b h = refl
write_bytes-above at j (x ∷ xs) b h =
    update_ne (write_bytes (at + 1) xs b) at j x (omega arith)
    ∙ write_bytes-above (at + 1) j xs b (omega arith)

pub read_bytes_same :
    (at n : ℕ) (b c : ℕ → ℕ)
    → ((j : ℕ) → at ≤ j → j < at + n → b j ≡ c j)
    → read_bytes at n b ≡ read_bytes at n c
unfolding read_bytes
read_bytes_same at zero b c h = refl
read_bytes_same at (suc n) b c h = rw (
  h at (omega arith) (omega arith),
  read_bytes_same (at + 1) n b c (λ j l r. h j (omega arith) (omega arith)),
)

pub read_bytes-away :
    (at n to : ℕ) (xs : List ℕ) (b : ℕ → ℕ)
    → (at + n ≤ to) ⊎ (to + length xs ≤ at)
    → read_bytes at n (write_bytes to xs b) ≡ read_bytes at n b
read_bytes-away at n to xs b (inl h) =
    read_bytes_same at n _ b (λ j l r. write_bytes-below to j xs b (omega arith))
read_bytes-away at n to xs b (inr h) =
    read_bytes_same at n _ b (λ j l r. write_bytes-above to j xs b (omega arith))

-- What is written is read back.
pub read_bytes-write_bytes :
    (at : ℕ) (xs : List ℕ) (b : ℕ → ℕ) → read_bytes at (length xs) (write_bytes at xs b) ≡ xs
unfolding read_bytes write_bytes
read_bytes-write_bytes at [] b = refl
read_bytes-write_bytes at (x ∷ xs) b =
    let first : write_bytes at (x ∷ xs) b at ≡ x = update_self (write_bytes (at + 1) xs b) at x in
    let rest =
      read_bytes_same (at + 1) (length xs) (write_bytes at (x ∷ xs) b) (write_bytes (at + 1) xs b)
        (λ j l r. update_ne (write_bytes (at + 1) xs b) at j x (omega arith)) in
    rw (first, rest, read_bytes-write_bytes (at + 1) xs b) refl

-- The offsets of two slots do not wrap, and are a message apart.
pub offset_lem :
    (size capacity i : ℕ) → i < capacity → capacity * size < u32_mod → offset size i ≡ i * size
offset_lem size capacity i h fits =
    let below : i ≤ capacity = omega arith in
    mod-eq_of_lt (omega (arith, mul-le-mul_right size below))

pub apart : (size i j : ℕ) → i ≢ j → (i * size + size ≤ j * size) ⊎ (j * size + size ≤ i * size)
apart size i j ne = elim (lt_or_ge i j) [
  | inl l ↦ inl (
      let next : i + 1 ≤ j = omega arith in
      omega (arith, mul-le-mul_right size next, add-mul i 1 size))
  | inr l ↦ inr (
      let next : j + 1 ≤ i = omega arith in
      omega (arith, mul-le-mul_right size next, add-mul j 1 size))
]

-- The slot that is `n` slots after the slot `i`.
unfoldable pub ahead : ℕ → ℕ → ℕ → ℕ
ahead capacity zero i = i
ahead capacity (suc n) i = ahead capacity n ((i + 1) % capacity)

pub next_lem :
    (capacity i : ℕ)
    → i < capacity
    → ((((i + 1) % capacity) ≡ i + 1) × (i + 1 < capacity))
      ⊎ ((((i + 1) % capacity) ≡ 0) × (i + 1 ≡ capacity))
next_lem capacity i h = elim (lt_or_ge (i + 1) capacity) [
  | inl l ↦ inl (mod-eq_of_lt l, l)
  | inr l ↦ let e : i + 1 ≡ capacity = omega arith in inr (rw e (mod_self capacity), e)
]

pub ahead-next : (capacity n i : ℕ) → (ahead capacity n i + 1) % capacity ≡ ahead capacity (suc n) i
unfolding ahead
ahead-next capacity zero i = refl
ahead-next capacity (suc n) i = ahead-next capacity n ((i + 1) % capacity)

ahead_lem :
    (capacity n i : ℕ)
    → i < capacity
    → n ≤ capacity
    → ((ahead capacity n i ≡ i + n) × (i + n < capacity)) ⊎ (ahead capacity n i + capacity ≡ i + n)
unfolding ahead
ahead_lem capacity zero i h hn = inl (omega arith, omega arith)
ahead_lem capacity (suc n) i h hn = elim (next_lem capacity i h) [
  | inl (e, l) ↦ elim (ahead_lem capacity n (i + 1) l (omega arith)) [
    | inl (a, b) ↦ inl (rw e (omega arith), omega arith)
    | inr a ↦ inr (rw e (omega arith))
  ]
  | inr (e, l) ↦ elim (ahead_lem capacity n 0 (omega arith) (omega arith)) [
    | inl (a, b) ↦ inr (rw e (omega arith))
    | inr a ↦ inr (rw e (omega arith))
  ]
]

-- It takes a whole round to come back to a slot.
pub ahead-ne : (capacity n i : ℕ) → i < capacity → suc n < capacity → ahead capacity (suc n) i ≢ i
ahead-ne capacity n i h hn e = elim (ahead_lem capacity (suc n) i h (omega arith)) [
  | inl (a, b) ↦ absurd (omega arith)
  | inr a ↦ absurd (omega arith)
]

pub ahead_round : (capacity i : ℕ) → i < capacity → ahead capacity capacity i ≡ i
ahead_round capacity i h = elim (ahead_lem capacity capacity i h (omega arith)) [
  | inl (a, b) ↦ absurd (omega arith)
  | inr a ↦ omega arith
]
