-- ===== src/Spi/Rate.antt =====
-- The clock divider of src/spi.rs.
use native.Mathlib.Nat.{pow-suc, div-le_of_le-mul, lt-mul-div-succ, mul-le-mul_left}
use f1c100s_rs.Base.{
  ℕ, zero, suc, ◌+◌, ◌-◌, ◌*◌, ◌/◌, ◌%◌, ◌^◌, ◌≤◌, ◌<◌, ◌≡◌, ◌≢◌, ◌⊎◌, ◌∙◌, refl, subst, min, some,
  ltb, if◌then◌else◌, Bool-cases, inl, inr, arith, ne→==,
}
use f1c100s_rs.Bits.{bit_and, bit_or, shl32, u32_mod}
use f1c100s_rs.Mmio.Fields.{bit_and-ones, bit_or-add}
use f1c100s_rs.Spi.{find_cdr1, rate_word, bus_max_clk, drs_bit}

-- The bus runs at `src / (2 * (n + 1))` where the word has the bit `DRS`, and at
-- `src / (2 * 2 ^ (n + 1))` where it has not, as the head of src/spi.rs has it; that is at most
-- the limit. For a power of two, half of it would do too, unless `n` is the last one.
abbrev pub Within : (src limit word : ℕ) → Type 0
Within src limit word =
    ((n : ℕ) × (word ≡ 0x1000 + n) × (n < 256) × (src / (2 * (n + 1)) ≤ limit))
    ⊎ ((n : ℕ) × (word ≡ n * 256)
        × (n < 16)
        × (src / (2 * 2 ^ (n + 1)) ≤ limit)
        × ((n ≡ 15) ⊎ (src / (2 * 2 ^ n) ≤ limit)))

find_cdr1-reaches :
    (k n div_eff div : ℕ)
    → div_eff ≡ 2 * 2 ^ n
    → (r : ℕ) × (find_cdr1 k n div_eff div ≡ r) × (r ≤ n + k) × ((r ≡ n + k) ⊎ (div ≤ 2 * 2 ^ r))
unfolding find_cdr1
find_cdr1-reaches zero n div_eff div e = (n, refl, omega arith, inl (omega arith))
find_cdr1-reaches (suc k) n div_eff div e = elim (Bool-cases (ltb div_eff div)) [
  | inl more ↦
      let twice : div_eff * 2 ≡ 2 * 2 ^ (n + 1) =
        let one_more : suc n ≡ n + 1 = omega arith in
        subst (λ m. div_eff * 2 ≡ 2 * 2 ^ m) one_more (omega (arith, pow-suc 2 n)) in
      let (r, found, le, last) = find_cdr1-reaches k (n + 1) (div_eff * 2) div twice in
      (
        r,
        rw more found,
        omega arith,
        elim last [ inl l ↦ inl (omega arith) | inr enough ↦ inr enough ],
      )
  | inr enough ↦ (n, rw enough refl, omega arith, inr (ground (arith, enough)))
]

-- A divider that rounds up keeps the rate at or below the limit, and a larger one does so too.
ceil-enough : (src limit d : ℕ) → limit ≢ 0 → (src + limit - 1) / limit ≤ d → src / d ≤ limit
ceil-enough src limit d some_limit enough =
    let q = (src + limit - 1) / limit in
    let over : src + limit - 1 < limit * (q + 1) =
      lt-mul-div-succ (src + limit - 1) (omega arith) in
    let more : limit * q ≤ limit * d = mul-le-mul_left limit enough in
    div-le_of_le-mul d (grind arith)

-- The word for a power of two.
cdr1_word-Within :
    (src limit div : ℕ)
    → ((d : ℕ) → div ≤ d → src / d ≤ limit)
    → src ≤ 2 * 2 ^ 16 * limit
    → Within src limit (shl32 (bit_and (find_cdr1 15 0 2 div) 0xf) 8)
unfolding shl32
cdr1_word-Within src limit div enough reach =
    let (r, found, le, last) = find_cdr1-reaches 15 0 2 div refl in
    let low : bit_and r 0xf ≡ r = bit_and-ones r 4 ∙ omega arith in
    let word : shl32 (bit_and (find_cdr1 15 0 2 div) 0xf) 8 ≡ r * 256 =
      rw (found, low) (omega arith) in
    elim last [
      | inl final ↦
          let at_end : r ≡ 15 = omega arith in
          let slowest : src / (2 * 2 ^ (r + 1)) ≤ limit =
            rw at_end (div-le_of_le-mul (2 * 2 ^ 16) reach) in
          inr (r, word, omega arith, slowest, inl at_end)
      | inr fits ↦
          let double : 2 ^ suc r ≡ 2 ^ r * 2 = pow-suc 2 r in
          let one_more : suc r ≡ r + 1 = omega arith in
          let more : div ≤ 2 * 2 ^ (r + 1) = subst (λ m. div ≤ 2 * 2 ^ m) one_more (omega arith) in
          inr (r, word, omega arith, enough (2 * 2 ^ (r + 1)) more, inr (enough (2 * 2 ^ r) fits))
    ]

-- The word for an even divider of at most 512.
cdr2_word-Within :
    (src limit div : ℕ)
    → ((d : ℕ) → div ≤ d → src / d ≤ limit)
    → div ≢ 0
    → div ≤ 512
    → Within src limit (bit_or drs_bit (bit_and ((div + 1) / 2 - 1) 0xff))
cdr2_word-Within src limit div enough some_div small =
    let n = (div + 1) / 2 - 1 in
    let low : bit_and n 0xff ≡ n = bit_and-ones n 8 ∙ omega arith in
    let word : bit_or drs_bit (bit_and n 0xff) ≡ 0x1000 + n =
      rw low (bit_or-add 1 12 n (omega arith)) in
    inl (n, word, omega arith, enough (2 * (n + 1)) (omega arith))

-- For a frequency and a bus clock whose sum with the limit has no overflow, and down to the slowest
-- rate that the dividers allow, `set_clock` writes a divider that keeps the bus at or below the
-- frequency and 30 MHz.
pub rate_word-Within :
    (src max_hz : ℕ)
    → max_hz ≢ 0
    → src + bus_max_clk ≤ u32_mod
    → src ≤ 2 * 2 ^ 16 * min max_hz bus_max_clk
    → (word : ℕ) × (rate_word src max_hz ≡ some word) × Within src (min max_hz bus_max_clk) word
unfolding rate_word
rate_word-Within src max_hz some_hz no_wrap reach =
    let limit = min max_hz bus_max_clk in
    let some_limit : limit ≢ 0 = omega arith in
    let ceil = (src + limit - 1) / limit in
    let unwrapped : (src + limit + u32_mod - 1) % u32_mod ≡ src + limit - 1 = omega arith in
    let div = if ltb ceil 1 then 1 else ceil in
    let at_least : ceil ≤ div = ground arith in
    let enough : (d : ℕ) → div ≤ d → src / d ≤ limit =
      λ d h. ceil-enough src limit d some_limit (omega arith) in
    elim (Bool-cases (ltb 512 div)) [
      | inl slow ↦ (
        shl32 (bit_and (find_cdr1 15 0 2 div) 0xf) 8,
        rw (ne→== limit 0 some_limit, unwrapped, slow) refl,
        cdr1_word-Within src limit div enough reach,
      )
      | inr fast ↦ (
        bit_or drs_bit (bit_and ((div + 1) / 2 - 1) 0xff),
        rw (ne→== limit 0 some_limit, unwrapped, fast) refl,
        cdr2_word-Within src limit div enough (ground arith) (ground (arith, fast)),
      )
    ]
