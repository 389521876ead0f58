-- ===== src/I2c/Script.antt =====
-- The events of a transfer of src/i2c.rs, and what it puts on the bus and into the memory.
use f1c100s_rs.Base.{
  ℕ, zero, suc, ◌+◌, ◌<◌, ◌≡◌, Bool, refl, ◌∙◌, true, false, List, [], ◌∷◌, ◌++◌, length, ◌==◌,
  if◌then◌else◌, arith,
}
use f1c100s_rs.I2c.Controller.{Issue, put, ask_start, asked_after}

-- An event: its code, and the byte that has come in.
abbrev pub Event : Type 0
Event = ℕ × ℕ

-- `n` bytes are acknowledged.
abbrev pub acks : ℕ → List Event
acks zero = []
acks (suc n) = (0x28, 0) ∷ acks n

-- The bytes come in, and are acknowledged.
abbrev pub ins : List ℕ → List Event
ins [] = []
ins (b ∷ bs) = (0x50, b) ∷ ins bs

abbrev pub AllBytes : List ℕ → Type 0
AllBytes [] = Unit {0}
AllBytes (b ∷ bs) = (b < 256) × AllBytes bs

-- A write of `n` bytes that the device takes.
abbrev pub writes : ℕ → List Event
writes n = (0x08, 0) ∷ (0x18, 0) ∷ acks n

-- The bytes of the memory from an address on.
abbrev pub bytes_at : (ℕ → ℕ) → (from n : ℕ) → List ℕ
bytes_at mem from zero = []
bytes_at mem from (suc n) = mem from ∷ bytes_at mem (from + 1) n

-- The bytes, as they are put on the bus.
abbrev pub puts : List ℕ → List Issue
puts [] = []
puts (b ∷ bs) = put b ∷ puts bs

-- No START is pending after a byte.
pub asked-puts :
    (pending : Bool) (l : List Issue) (b : ℕ) (bs : List ℕ)
    → asked_after pending (l ++ put b ∷ puts bs) ≡ false
asked-puts pending [] b [] = refl
asked-puts pending [] b (b' ∷ bs) = asked-puts false [] b' bs
asked-puts pending (put _ ∷ l) b bs = asked-puts false l b bs
asked-puts pending (ask_start ∷ l) b bs = asked-puts true l b bs

-- The memory with the bytes from an address on.
abbrev pub stored : (ℕ → ℕ) → ℕ → List ℕ → ℕ → ℕ
stored mem p [] = mem
stored mem p (b ∷ bs) = stored (λ q. if q == p then b else mem q) (p + 1) bs

pub stored-append :
    (mem : ℕ → ℕ) (p : ℕ) (bs : List ℕ) (last : ℕ)
    → (λ q. if q == p + length bs then last else stored mem p bs q) ≡ stored mem p (bs ++ last ∷ [])
stored-append mem p [] last =
    let e : p + 0 ≡ p = omega arith in λ i q. if q == e i then last else mem q
stored-append mem p (b ∷ bs) last =
    let e : p + length (b ∷ bs) ≡ p + 1 + length bs = omega arith in
    (λ i q. if q == e i then last else stored mem p (b ∷ bs) q)
    ∙ stored-append (λ q. if q == p then b else mem q) (p + 1) bs last
