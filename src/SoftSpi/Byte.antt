-- ===== src/SoftSpi/Byte.antt =====
-- A byte over the wires of src/soft_spi.rs.
use native.Mathlib.Nat.{pow-suc, div-div-eq-div-mul}
use mathlib.Core.List.{append-nil, append_assoc}
use f1c100s_rs.Base.{
  ℕ, zero, suc, ◌+◌, ◌*◌, ◌/◌, ◌%◌, ◌^◌, ◌<◌, ◌≤◌, ◌≡◌, ◌∙◌, refl, sym, ap, subst, Bool, true,
  false, not, List, [], ◌∷◌, ◌++◌, if◌then◌else◌, ◌==◌, ==_iff, Bool-cases, inl, inr, arith,
}
use f1c100s_rs.Bits.{bit_and, bit_or, shl32, shr32, test_bit, bit, u32_mod}
use f1c100s_rs.Bits.Shift.{test_bit-div_pow, bit-lt}
use f1c100s_rs.Mmio.Fields.{bit_and-ones, bit_or-add}
use f1c100s_rs.Io.{ok}
use f1c100s_rs.SoftSpi.{
  SoftSpiConfig, Gpio, cpha, cpol, mosi_if, bit_cycle, byte_from, transfer_byte, bit_of, collect,
}
use f1c100s_rs.SoftSpi.Slave.{Line, IsWired, clocked, resting, takes, gives}

-- The line in the middle of a round, and after it.
abbrev half : (phase idle level : Bool) → Line → Line
half phase idle level l =
    clocked phase idle (not idle) (if not phase then record l { mosi = level } else l)

abbrev whole : (phase idle level : Bool) → Line → Line
whole phase idle level m = clocked phase idle idle (if phase then record m { mosi = level } else m)

-- In all modes, the slave gives the bit that is due, takes the level, and is at rest again.
half-miso :
    (phase idle level old_level old b : Bool) (heard rest : List Bool)
    → (half phase idle level (resting phase idle old_level old heard (b ∷ rest))).miso ≡ b
unfolding clocked resting takes gives
half-miso false false level old_level old b heard rest = refl
half-miso false true level old_level old b heard rest = refl
half-miso true false level old_level old b heard rest = refl
half-miso true true level old_level old b heard rest = refl

half-whole :
    (phase idle level old_level old b : Bool) (heard rest : List Bool)
    → whole phase idle level
        (half phase idle level (resting phase idle old_level old heard (b ∷ rest)))
      ≡ resting phase idle level b (heard ++ (level ∷ [])) rest
unfolding clocked resting takes gives
half-whole false false level old_level old b heard [] = refl
half-whole false true level old_level old b heard [] = refl
half-whole false false level old_level old b heard (r ∷ rest) = refl
half-whole false true level old_level old b heard (r ∷ rest) = refl
half-whole true false level old_level old b heard rest = refl
half-whole true true level old_level old b heard rest = refl

-- A binary digit by division.
digit : (x n : ℕ) → test_bit x n ≡ (x / 2 ^ n % 2 == 1)
digit x n =
    let start : 0 + n ≡ n = omega arith in
    subst (λ m. test_bit x m ≡ (x / 2 ^ n % 2 == 1)) start
      (sym (test_bit-div_pow n x 0) ∙ unfold test_bit in refl)

-- The level of a bit is its binary digit.
pub bit_of-test_bit : (byte n : ℕ) → n < 32 → bit_of byte n ≡ test_bit byte n
unfolding bit_of shr32
bit_of-test_bit byte n small =
    let q = byte / 2 ^ n in
    let count : n % 32 ≡ n = omega arith in
    let low : bit_and q 1 ≡ q % 2 = bit_and-ones q 1 in rw (count, low, digit byte n) (ground arith)

-- The lowest `n` binary digits, the highest first.
abbrev pub digits : ℕ → ℕ → List Bool
digits zero x = []
digits (suc n) x = test_bit x n ∷ digits n x

shl32-one : (n : ℕ) → n < 32 → shl32 1 n ≡ 2 ^ n
unfolding shl32 bit
shl32-one n small =
    let count : n % 32 ≡ n = omega arith in
    let fits : 2 ^ (n % 32) < u32_mod = bit-lt n in omega (arith, fits, ap (λ (m : ℕ). 2 ^ m) count)

pow-pos : (n : ℕ) → 0 < 2 ^ n
pow-pos zero = omega arith
pow-pos (suc n) = omega (arith, pow-suc 2 n, pow-pos n)

join_digit : (h p d : ℕ) → h * (p * 2) + d * p ≡ (h * 2 + d) * p
join_digit h p d = grind arith

-- A digit that comes in goes below the ones that are there.
collect-digit :
    (n r : ℕ) → n < 8 → collect (test_bit r n) n (r / 2 ^ (n + 1) * 2 ^ (n + 1)) ≡ r / 2 ^ n * 2 ^ n
unfolding collect
collect-digit n r small =
    let q = r / 2 ^ n in
    let double : 2 ^ (n + 1) ≡ 2 ^ n * 2 =
      subst (λ m. 2 ^ m ≡ 2 ^ n * 2) (omega arith) (pow-suc 2 n) in
    let half_q : r / 2 ^ (n + 1) ≡ q / 2 =
      ap (λ (m : ℕ). r / m) double ∙ sym (div-div-eq-div-mul r (2 ^ n) 2) in
    let joined : bit_or (q / 2 * 2 ^ (n + 1)) (2 ^ n) ≡ q / 2 * 2 ^ (n + 1) + 2 ^ n =
      bit_or-add (q / 2) (n + 1) (2 ^ n) (omega (arith, double, pow-pos n)) in
    let parts : q ≡ q / 2 * 2 + q % 2 = omega arith in
    rw (digit r n, half_q, shl32-one n (omega arith), joined, double)
      (elim (Bool-cases (q % 2 == 1)) [
        | inl odd ↦
            let one : q % 2 ≡ 1 = (==_iff (q % 2) 1).0 odd in
            let all : q / 2 * 2 + 1 ≡ q = omega arith in
            rw odd (omega (arith, join_digit (q / 2) (2 ^ n) 1, ap (λ (m : ℕ). m * 2 ^ n) all))
        | inr even ↦
            let all : q / 2 * 2 + 0 ≡ q = ground (arith, even) in
            rw even (omega (arith, join_digit (q / 2) (2 ^ n) 0, ap (λ (m : ℕ). m * 2 ^ n) all))
      ])

module _ {S : Type 0} (gpio : Gpio S) (cfg : SoftSpiConfig) (line : S → Line)
    (wired : IsWired gpio cfg line) where
  abbrev phase : Bool
  phase = cpha (cfg.mode)

  abbrev idle : Bool
  idle = cpol (cfg.mode)

  mosi_if-drives :
      (now level : Bool) (s : S)
      → (s' : S) × (mosi_if gpio cfg now level s ≡ ok tt s')
        × (line s' ≡ (if now then record (line s) { mosi = level } else line s))
  mosi_if-drives true level s = wired.drives level s
  mosi_if-drives false level s = (s, refl, refl)

  bit_cycle-Shifts :
      (level old_level old b : Bool) (heard rest : List Bool) (s : S)
      → line s ≡ resting phase idle old_level old heard (b ∷ rest)
      → (s' : S) × (bit_cycle gpio cfg level s ≡ ok b s')
        × (line s' ≡ resting phase idle level b (heard ++ (level ∷ [])) rest)
  unfolding bit_cycle
  bit_cycle-Shifts level old_level old b heard rest s at =
      let (s1, set1, l1) = mosi_if-drives (not phase) level s in
      let (s2, up, l2) = wired.clocks (not idle) s1 in
      let (s3, set3, l3) = mosi_if-drives phase level s2 in
      let (s4, down, l4) = wired.clocks idle s3 in
      let middle : line s2
          ≡ half phase idle level (resting phase idle old_level old heard (b ∷ rest)) =
        l2 ∙ ap (clocked phase idle (not idle)) l1 ∙ ap (half phase idle level) at in
      let read : (line s2).miso ≡ b =
        ap (λ (l : Line). l.miso) middle ∙ half-miso phase idle level old_level old b heard rest in
      let ran : bit_cycle gpio cfg level s ≡ ok ((line s2).miso) s4 =
        rw (set1, up, wired.reads s2, set3, down) refl in
      (
        s4,
        rw (ran, read) refl,
        l4
            ∙ ap (clocked phase idle idle) l3
            ∙ ap (whole phase idle level) middle
            ∙ half-whole phase idle level old_level old b heard rest,
      )

  byte_from-Shifts :
      (n byte r rx : ℕ) (old_level old : Bool) (heard rest : List Bool) (s : S)
      → n ≤ 8
      → rx ≡ r / 2 ^ n * 2 ^ n
      → line s ≡ resting phase idle old_level old heard (digits n r ++ rest)
      → (s' : S) × (level : Bool) × (last : Bool) × (byte_from gpio cfg n byte rx s ≡ ok r s')
        × (line s' ≡ resting phase idle level last (heard ++ digits n byte) rest)
  unfolding byte_from
  byte_from-Shifts zero byte r rx old_level old heard rest s small high at =
      let all : rx ≡ r = omega arith in (s, old_level, old, rw all refl, rw (append-nil heard) at)
  byte_from-Shifts (suc n) byte r rx old_level old heard rest s small high at =
      let level = bit_of byte n in
      let b = test_bit r n in
      let (s1, ran, l1) = bit_cycle-Shifts level old_level old b heard (digits n r ++ rest) s at in
      let one_more : suc n ≡ n + 1 = omega arith in
      let top : rx ≡ r / 2 ^ (n + 1) * 2 ^ (n + 1) =
        subst (λ m. rx ≡ r / 2 ^ m * 2 ^ m) one_more high in
      let next : collect b n rx ≡ r / 2 ^ n * 2 ^ n =
        ap (collect b n) top ∙ collect-digit n r (omega arith) in
      let (s', level', last, ran', l') =
        byte_from-Shifts n byte r (collect b n rx) level b (heard ++ (level ∷ [])) rest s1
          (omega arith) next l1 in
      let order : heard ++ (level ∷ []) ++ digits n byte ≡ heard ++ digits (suc n) byte =
        append_assoc heard (level ∷ []) (digits n byte)
        ∙ ap (λ (v : Bool). heard ++ (v ∷ digits n byte)) (bit_of-test_bit byte n (omega arith)) in
      (
        s',
        level',
        last,
        rw (ran, ran') refl,
        l' ∙ ap (λ (t : List Bool). resting phase idle level' last t rest) order,
      )

  -- The bytes go both ways, in all four modes, highest bit first: `transfer_byte` answers the eight
  -- bits that the slave gives, the slave takes those of the byte, and the bus is at rest again.
  pub transfer_byte-Shifts :
      (byte r : ℕ) (old_level old : Bool) (heard rest : List Bool) (s : S)
      → r < 256
      → line s ≡ resting phase idle old_level old heard (digits 8 r ++ rest)
      → (s' : S) × (level : Bool) × (last : Bool) × (transfer_byte gpio cfg byte s ≡ ok r s')
        × (line s' ≡ resting phase idle level last (heard ++ digits 8 byte) rest)
  unfolding transfer_byte
  transfer_byte-Shifts byte r old_level old heard rest s small at =
      byte_from-Shifts 8 byte r 0 old_level old heard rest s (omega arith) (omega arith) at
