-- ===== src/SpiFlash/Chip.antt =====
-- What the driver of src/spi_flash.rs relies on: the memory chip behind the bus, as its data sheets
-- describe it.
use f1c100s_rs.Base.{
  ℕ, ◌+◌, ◌-◌, ◌*◌, ◌/◌, ◌%◌, ◌≤◌, ◌<◌, ◌≡◌, Bool, true, [], ◌∷◌, ◌&&◌, ltb, leb, ◌==◌,
  if◌then◌else◌,
}
use f1c100s_rs.Bits.{bit_and}
use f1c100s_rs.Io.{ok, Slice}
use f1c100s_rs.SpiFlash.{SpiBus}

-- The index in the buffer of the byte that goes to the cell `x`, where a program command for `addr`
-- has gone round in its page.
abbrev pub page_index : (addr x : ℕ) → ℕ
page_index addr x = (x % 256 + 256 - addr % 256) % 256

-- The cells after a program command: it stays in the page of the address, and only clears bits.
unfoldable pub programmed : (ℕ → ℕ) → (addr : ℕ) → Slice → ℕ → ℕ
programmed f addr bytes x =
    if x / 256 == addr / 256 && ltb (page_index addr x) bytes.len
    then bit_and (f x) (bytes.at (page_index addr x))
    else f x

-- The cells after the bytes have been written from the address on.
unfoldable pub written : (ℕ → ℕ) → (addr : ℕ) → Slice → ℕ → ℕ
written f addr bytes x =
    if leb addr x && ltb x (addr + bytes.len) then bit_and (f x) (bytes.at (x - addr)) else f x

-- `cells` is the memory, `latch` the write-enable latch, and `busy` the number of status reads up
-- to the end of the work at hand, which is `limit` at most.
pub record IsChip {S : Type 0} (bus : SpiBus S) (cells : S → ℕ → ℕ) (latch : S → Bool)
    (busy : S → ℕ) (limit : ℕ) : Type 0 where
  pub enables :
      (s : S)
      → busy s ≡ 0
      → (s' : S) × (bus.xfer_send (0x06 ∷ []) s ≡ ok tt s')
        × (cells s' ≡ cells s)
        × (latch s' ≡ true)
        × (busy s' ≡ 0)
  pub programs :
      (high mid low : ℕ) (bytes : Slice) (s : S)
      → high < 256
      → mid < 256
      → low < 256
      → bytes.len ≤ 256
      → latch s ≡ true
      → busy s ≡ 0
      → (s' : S) × (bus.xfer_cmd_send (0x02 ∷ high ∷ mid ∷ low ∷ []) bytes s ≡ ok tt s')
        × ((x : ℕ) → cells s' x ≡ programmed (cells s) (high * 65536 + mid * 256 + low) bytes x)
        × (busy s' ≤ limit)
  pub reports :
      (s : S)
      → (s' : S) × (rx : ℕ → ℕ) × (bus.xfer (0x05 ∷ 0 ∷ []) 2 s ≡ ok rx s')
        × (bit_and (rx 1) 1 ≡ (if busy s == 0 then 0 else 1))
        × (cells s' ≡ cells s)
        × (busy s' ≡ busy s - 1)
