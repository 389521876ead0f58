-- ===== src/Mmio.antt =====
-- Registers that the drivers read, change and write back: `read_volatile` and `write_volatile` on
-- a register that holds what was written last, as the helpers `rd`, `wr`, `read_reg` and
-- `write_reg` of src/gpio.rs and src/clock.rs use them.
pub mod Fields
use f1c100s_rs.Base.{ℕ, Option, none, some, update}
use f1c100s_rs.Bits.{bit_and, bit_or, not32, shl32, shr32}

-- A driver that panics ends with `none`.
module _ {A B : Type 0} where
  infixl 5 ◌>>=◌
  abbrev pub ◌>>=◌ : Option A → (A → Option B) → Option B
  none >>= k = none
  some x >>= k = k x

-- From the address to the word.
abbrev pub Regs : Type 0
Regs = ℕ → ℕ

abbrev pub rd : ℕ → Regs → ℕ
rd addr r = r addr

abbrev pub wr : ℕ → ℕ → Regs → Regs
wr addr val r = update r addr val

-- `(val & !(mask << offset)) | (v << offset)`.
unfoldable pub set_field : (val mask offset v : ℕ) → ℕ
set_field val mask offset v = bit_or (bit_and val (not32 (shl32 mask offset))) (shl32 v offset)

-- `(val >> offset) & mask`.
unfoldable pub get_field : (val mask offset : ℕ) → ℕ
get_field val mask offset = bit_and (shr32 val offset) mask
