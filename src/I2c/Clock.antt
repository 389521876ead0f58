-- ===== src/I2c/Clock.antt =====
-- The clock divider of src/i2c.rs.
use native.Mathlib.Nat.{pow-suc}
use f1c100s_rs.Base.{
  ℕ, zero, suc, ◌+◌, ◌-◌, ◌*◌, ◌/◌, ◌^◌, ◌≤◌, ◌<◌, ◌≡◌, ◌≢◌, ◌⊎◌, refl, sym, subst, false, none,
  some, leb, leb→le, ◌==◌, Bool-cases, inl, inr, arith, ne→==, ==_iff,
}
use f1c100s_rs.Bits.{bit_or}
use f1c100s_rs.I2c.Xfer.{find_m, find_n, clock_word}

-- The divider `m`, `n` of the register word brings the clock down to the frequency.
abbrev pub Divides : (src scl v : ℕ) → Type 0
Divides src scl v =
    (m : ℕ) × (n : ℕ) × (v ≡ bit_or (m * 8) n) × (m < 16) × (n < 8) × (src / (m + 1) / 2 ^ n ≤ scl)

find_m-fits :
    (k m pow src scl : ℕ)
    → (find_m k m pow src scl ≡ none)
      ⊎ ((r : ℕ) × (find_m k m pow src scl ≡ some r)
          × (r < m + k)
          × (0 < k)
          × (src / (r + 1) / pow ≤ scl))
unfolding find_m
find_m-fits zero m pow src scl = inl refl
find_m-fits (suc k) m pow src scl = elim (Bool-cases (leb (src / (m + 1) / pow) scl)) [
  | inl fits ↦
      inr (m, rw fits refl, omega arith, omega arith, leb→le (src / (m + 1) / pow) scl fits)
  | inr over ↦ elim (find_m-fits k (m + 1) pow src scl) [
    | inl e ↦ inl (rw over e)
    | inr (r, e, lt, left, le) ↦ inr (r, rw over e, omega arith, omega arith, le)
  ]
]

find_n-found :
    (k n pow div src scl r : ℕ)
    → find_m (16 - (div / pow - 1)) (div / pow - 1) pow src scl ≡ some r
    → find_n (suc k) n pow div src scl ≡ bit_or (r * 8) n
unfolding find_n
find_n-found k n pow div src scl r found = rw (found, find_n) refl

find_n-next :
    (k n pow div src scl : ℕ)
    → find_m (16 - (div / pow - 1)) (div / pow - 1) pow src scl ≡ none
    → find_n (suc k) n pow div src scl ≡ find_n k (n + 1) (pow * 2) div src scl
unfolding find_n
find_n-next k n pow div src scl none_left = rw (none_left, find_n) refl

find_n-Divides :
    (k n pow div src scl : ℕ)
    → n + k ≡ 8
    → pow ≡ 2 ^ n
    → (find_n k n pow div src scl ≡ 7) ⊎ Divides src scl (find_n k n pow div src scl)
find_n-Divides zero n pow div src scl e p = inl (unfold find_n in refl)
find_n-Divides (suc k) n pow div src scl e p =
    let start = div / pow - 1 in
    elim (find_m-fits (16 - start) start pow src scl) [
      | inr (r, found, lt, left, le) ↦
          let rate : src / (r + 1) / 2 ^ n ≤ scl = subst (λ q. src / (r + 1) / q ≤ scl) p le in
          inr (r, n, find_n-found k n pow div src scl r found, omega arith, omega arith, rate)
      | inl none_left ↦
          let next : suc n ≡ n + 1 = omega arith in
          let twice : pow * 2 ≡ 2 ^ (n + 1) =
            subst (λ k'. pow * 2 ≡ 2 ^ k') next (omega (arith, pow-suc 2 n)) in
          subst (λ v. (v ≡ 7) ⊎ Divides src scl v) (sym (find_n-next k n pow div src scl none_left))
            (find_n-Divides k (n + 1) (pow * 2) div src scl (omega arith) twice)
    ]

slow_source : (src scl : ℕ) → scl ≢ 0 → src / scl ≡ 0 → src / 2 / 2 ^ 0 ≤ scl
slow_source src scl some_hz e = grind arith

-- For a frequency that is not 0, `twi_set_clock` writes a divider that keeps the clock at or below
-- it, or else the word 7.
pub clock_word-Divides :
    (apb scl : ℕ)
    → scl ≢ 0
    → (v : ℕ) × (clock_word apb scl ≡ some v) × ((v ≡ 7) ⊎ Divides (apb / 10) scl v)
unfolding clock_word
clock_word-Divides apb scl some_hz =
    let src = apb / 10 in
    let hz : (scl == 0) ≡ false = ne→== scl 0 some_hz in
    elim (Bool-cases (src / scl == 0)) [
      | inl slow ↦ (
        8,
        rw (hz, slow) refl,
        inr (
          1,
          0,
          refl,
          omega arith,
          omega arith,
          slow_source src scl some_hz ((==_iff (src / scl) 0).0 slow),
        ),
      )
      | inr fast ↦ (
        find_n 8 0 1 (src / scl) src scl,
        rw (hz, fast) refl,
        find_n-Divides 8 0 1 (src / scl) src scl refl refl,
      )
    ]
