-- ===== src/SoftSpi/ThreeWire.antt =====
-- A byte over three wires in src/soft_spi.rs, where MOSI is set after the second edge in the modes
-- of the phase 1.
use mathlib.Core.List.{append-nil, append_assoc}
use f1c100s_rs.Base.{
  ℕ, ◌/◌, zero, suc, ◌≤◌, ◌≡◌, ◌∙◌, refl, ap, Bool, true, false, not, List, [], ◌∷◌, ◌++◌,
  if◌then◌else◌, arith,
}
use f1c100s_rs.Bits.{test_bit}
use f1c100s_rs.Io.{ok}
use f1c100s_rs.SoftSpi.{
  SoftSpiConfig, Gpio, cpha, cpol, input, output, mosi_if, mosi_sample, bit_cycle_3wire,
  byte_from_3wire, transfer_byte_3wire, bit_of, collect,
}
use f1c100s_rs.SoftSpi.Slave.{Line, clocked, resting, takes, gives}
use f1c100s_rs.SoftSpi.Byte.{digits, bit_of-test_bit}

-- The pins are wired to a slave that takes the bits of the master; the turns of MOSI do not change
-- what the slave sees, and MOSI can be read.
pub record IsShared {S : Type 0} (gpio : Gpio S) (cfg : SoftSpiConfig) (line : S → Line)
    : Type 0 where
  pub clocks :
      (level : Bool) (s : S)
      → (s' : S) × (gpio.set_value (cfg.sck) level s ≡ ok tt s')
        × (line s' ≡ clocked (cpha (cfg.mode)) (cpol (cfg.mode)) level (line s))
  pub drives :
      (level : Bool) (s : S)
      → (s' : S) × (gpio.set_value (cfg.mosi) level s ≡ ok tt s')
        × (line s' ≡ record (line s) { mosi = level })
  pub turns :
      (func : ℕ) (s : S)
      → (s' : S) × (gpio.set_function (cfg.mosi) func s ≡ ok tt s') × (line s' ≡ line s)
  pub hears : (s : S) → (v : Bool) × (gpio.get_value (cfg.mosi) s ≡ ok v s)

-- A round on the line: its first edge, and the second one.
abbrev front : (phase idle level : Bool) → Line → Line
front phase idle level l =
    clocked phase idle (not idle) (if not phase then record l { mosi = level } else l)

abbrev back : (phase idle level : Bool) → Line → Line
back phase idle level l =
    let after = clocked phase idle idle l in if phase then record after { mosi = level } else after

abbrev round : (phase idle level : Bool) → Line → Line
round phase idle level l = back phase idle level (front phase idle level l)

-- What the slave takes of a round: the level, or with the phase 1 the one before.
abbrev pub late : (phase old_level level : Bool) → Bool
late phase old_level level = if phase then old_level else level

round-late :
    (phase idle level old_level old : Bool) (heard queue : List Bool)
    → (last : Bool) × (queue' : List Bool) × (round phase idle level
          (resting phase idle old_level old heard queue)
        ≡ resting phase idle level last (heard ++ (late phase old_level level ∷ [])) queue')
unfolding clocked resting takes gives
round-late false false level old_level old heard [] = (true, [], refl)
round-late false true level old_level old heard [] = (true, [], refl)
round-late true false level old_level old heard [] = (true, [], refl)
round-late true true level old_level old heard [] = (true, [], refl)
round-late false false level old_level old heard (b ∷ []) = (true, [], refl)
round-late false true level old_level old heard (b ∷ []) = (true, [], refl)
round-late false false level old_level old heard (b ∷ r ∷ rest) = (b, r ∷ rest, refl)
round-late false true level old_level old heard (b ∷ r ∷ rest) = (b, r ∷ rest, refl)
round-late true false level old_level old heard (b ∷ rest) = (b, rest, refl)
round-late true true level old_level old heard (b ∷ rest) = (b, rest, refl)

-- The bits of a byte from the bit `n` down, one round late with the phase 1.
abbrev pub sent : (phase : Bool) → (n : ℕ) → (old_level : Bool) → (byte : ℕ) → List Bool
sent phase zero old_level byte = []
sent phase (suc n) old_level byte =
    late phase old_level (test_bit byte n) ∷ sent phase n (test_bit byte n) byte

sent-digits :
    (phase old_level : Bool) (byte : ℕ)
    → sent phase 8 old_level byte
      ≡ (if phase then old_level ∷ digits 7 (byte / 2) else digits 8 byte)
unfolding test_bit
sent-digits false old_level byte = refl
sent-digits true old_level byte = refl

resting-heard :
    (phase idle level old : Bool) (heard queue : List Bool)
    → (resting phase idle level old heard queue).heard ≡ heard
unfolding resting
resting-heard false idle level old heard [] = refl
resting-heard false idle level old heard (b ∷ queue) = refl
resting-heard true idle level old heard queue = refl

module _ {S : Type 0} (gpio : Gpio S) (cfg : SoftSpiConfig) (line : S → Line)
    (wired : IsShared gpio cfg line) where
  abbrev phase : Bool
  phase = cpha (cfg.mode)

  abbrev idle : Bool
  idle = cpol (cfg.mode)

  mosi_if-drives :
      (now level : Bool) (s : S)
      → (s' : S) × (mosi_if gpio cfg now level s ≡ ok tt s')
        × (line s' ≡ (if now then record (line s) { mosi = level } else line s))
  mosi_if-drives true level s = wired.drives level s
  mosi_if-drives false level s = (s, refl, refl)

  mosi_sample-keeps :
      (s : S) → (v : Bool) × (s' : S) × (mosi_sample gpio cfg s ≡ ok v s') × (line s' ≡ line s)
  unfolding mosi_sample
  mosi_sample-keeps s =
      let (s1, to_input, l1) = wired.turns input s in
      let (v, read) = wired.hears s1 in
      let (s2, to_output, l2) = wired.turns output s1 in
      (v, s2, rw (to_input, read, to_output) refl, l2 ∙ l1)

  bit_cycle_3wire-late :
      (level old_level old : Bool) (heard queue : List Bool) (s : S)
      → line s ≡ resting phase idle old_level old heard queue
      → (v : Bool) × (s' : S) × (last : Bool) × (queue' : List Bool) × (bit_cycle_3wire gpio cfg
            level s
          ≡ ok v s')
        × (line s'
            ≡ resting phase idle level last (heard ++ (late phase old_level level ∷ [])) queue')
  unfolding bit_cycle_3wire
  bit_cycle_3wire-late level old_level old heard queue s at =
      let (s1, set1, l1) = mosi_if-drives (not phase) level s in
      let (s2, up, l2) = wired.clocks (not idle) s1 in
      let (v, s3, read, l3) = mosi_sample-keeps s2 in
      let (s4, down, l4) = wired.clocks idle s3 in
      let (s5, set5, l5) = mosi_if-drives phase level s4 in
      let (last, queue', there) = round-late phase idle level old_level old heard queue in
      (
        v,
        s5,
        last,
        queue',
        rw (set1, up, read, down, set5) refl,
        l5
            ∙ ap (λ (l : Line). if phase then record l { mosi = level } else l) l4
            ∙ ap (back phase idle level)
                (l3 ∙ l2 ∙ ap (clocked phase idle (not idle)) l1 ∙ ap (front phase idle level) at)
            ∙ there,
      )

  byte_from_3wire-late :
      (n byte rx : ℕ) (old_level old : Bool) (heard queue : List Bool) (s : S)
      → n ≤ 8
      → line s ≡ resting phase idle old_level old heard queue
      → (r : ℕ) × (s' : S) × (level : Bool) × (last : Bool) × (queue' : List Bool)
        × (byte_from_3wire gpio cfg n byte rx s ≡ ok r s')
        × (line s' ≡ resting phase idle level last (heard ++ sent phase n old_level byte) queue')
  unfolding byte_from_3wire
  byte_from_3wire-late zero byte rx old_level old heard queue s small at =
      (rx, s, old_level, old, queue, refl, rw (append-nil heard) at)
  byte_from_3wire-late (suc n) byte rx old_level old heard queue s small at =
      let level = bit_of byte n in
      let digit = bit_of-test_bit byte n (omega arith) in
      let (v, s1, last1, queue1, ran, l1) =
        bit_cycle_3wire-late level old_level old heard queue s at in
      let (r, s', level', last', queue', ran', l') =
        byte_from_3wire-late n byte (collect v n rx) level last1
          (heard ++ (late phase old_level level ∷ [])) queue1 s1 (omega arith) l1 in
      let order : heard ++ (late phase old_level level ∷ []) ++ sent phase n level byte
          ≡ heard ++ sent phase (suc n) old_level byte =
        append_assoc heard (late phase old_level level ∷ []) (sent phase n level byte)
        ∙ ap (λ (b : Bool). heard ++ (late phase old_level b ∷ sent phase n b byte)) digit in
      (
        r,
        s',
        level',
        last',
        queue',
        rw (ran, ran') refl,
        l' ∙ ap (λ (t : List Bool). resting phase idle level' last' t queue') order,
      )

  -- On three wires the slave takes the eight bits of the byte in the modes of the phase 0; in those
  -- of the phase 1 it takes the old level of MOSI and then the bits without the lowest one.
  pub transfer_byte_3wire-late :
      (byte : ℕ) (old_level old : Bool) (heard queue : List Bool) (s : S)
      → line s ≡ resting phase idle old_level old heard queue
      → (r : ℕ) × (s' : S) × (transfer_byte_3wire gpio cfg byte s ≡ ok r s')
        × ((line s').heard
            ≡ heard ++ (if phase then old_level ∷ digits 7 (byte / 2) else digits 8 byte))
  unfolding transfer_byte_3wire
  transfer_byte_3wire-late byte old_level old heard queue s at =
      let (s1, to_output, l1) = wired.turns output s in
      let (r, s', level, last, queue', ran, l') =
        byte_from_3wire-late 8 byte 0 old_level old heard queue s1 (omega arith) (l1 ∙ at) in
      let got : (line s').heard
          ≡ heard ++ (if phase then old_level ∷ digits 7 (byte / 2) else digits 8 byte) =
        ap (λ (l : Line). l.heard) l'
        ∙ resting-heard phase idle level last (heard ++ sent phase 8 old_level byte) queue'
        ∙ ap (λ (t : List Bool). heard ++ t) (sent-digits phase old_level byte) in
      (r, s', rw (to_output, ran) refl, got)
