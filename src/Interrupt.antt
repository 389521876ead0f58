-- ===== src/Interrupt.antt =====
-- src/interrupt.rs, without the exception handlers that report a fault. `H` is the type of the
-- handlers; a register is named by its offset from `INTC_BASE`.
pub mod Sources
pub mod Nesting
use f1c100s_rs.Base.{
  ℕ, ◌+◌, ◌-◌, ◌/◌, ◌%◌, Bool, true, false, Option, none, some, ltb, leb, if◌then◌else◌, update,
}
use f1c100s_rs.Bits.{bit, bit_and, bit_or, not32, u32_mod}
use f1c100s_rs.Mmio.{Regs, rd, wr}

abbrev pub interrupts_max : ℕ
interrupts_max = 64

-- The registers, `ISR_TABLE`, `INTERRUPT_NEST` and `IN_ISR`.
pub record Intc (H : Type 0) : Type 0 where
  pub regs : Regs
  pub isr_table : ℕ → H
  pub nest : ℕ
  pub in_isr : Bool

-- `vector_group` and `vector_bit`.
unfoldable pub vector_group : ℕ → ℕ
vector_group vector = if leb 32 vector then 1 else 0

unfoldable pub vector_bit : ℕ → ℕ
vector_bit vector = bit_and vector 0x1f

-- `group_regs`: the registers of a vector for pending, enabled and masked sources.
abbrev pub pend_reg : ℕ → ℕ
pend_reg group = if ltb 0 group then 0x14 else 0x10

abbrev pub en_reg : ℕ → ℕ
en_reg group = if ltb 0 group then 0x24 else 0x20

abbrev pub mask_reg : ℕ → ℕ
mask_reg group = if ltb 0 group then 0x34 else 0x30

module _ {H : Type 0} where
  abbrev pub on_regs : (Regs → Regs) → Intc H → Intc H
  on_regs f s = record s { regs = f s.regs }

  -- `init`.
  unfoldable pub init : Intc H → Intc H
  init s = record s {
    regs = wr 0x54 0 (
        wr 0x50 0 (
          wr 0x44 0 (
            wr 0x40 0 (
              wr 0x14 0 (
                wr 0x10 0 (
                  wr 0x34 0xffff_ffff
                    (wr 0x30 0xffff_ffff (wr 0x24 0 (wr 0x20 0 (wr 0x04 0 s.regs))))))))));
    nest = 0;
  }

  -- `mask`.
  unfoldable pub mask : ℕ → Intc H → Intc H
  unfolding vector_group vector_bit
  mask vector s =
      let reg = mask_reg (vector_group vector) in
      if ltb vector interrupts_max
      then on_regs (λ r. wr reg (bit_or (rd reg r) (bit (vector_bit vector))) r) s
      else s

  -- `unmask`.
  unfoldable pub unmask : ℕ → Intc H → Intc H
  unfolding vector_group vector_bit
  unmask vector s =
      let reg = mask_reg (vector_group vector) in
      if ltb vector interrupts_max
      then on_regs (λ r. wr reg (bit_and (rd reg r) (not32 (bit (vector_bit vector)))) r) s
      else s

  -- The bit of the source in its pending register is cleared.
  unfoldable pub clear_pending : ℕ → Intc H → Intc H
  unfolding vector_group vector_bit
  clear_pending vector s =
      let reg = pend_reg (vector_group vector) in
      on_regs (λ r. wr reg (bit_and (rd reg r) (not32 (bit (vector_bit vector)))) r) s

  -- `install`: the old handler.
  unfoldable pub install : ℕ → H → Intc H → Option H × Intc H
  unfolding vector_group vector_bit clear_pending
  install vector handler s =
      let en = en_reg (vector_group vector) in
      let s' = clear_pending vector (record s { isr_table = update s.isr_table vector handler }) in
      if ltb vector interrupts_max
      then (
        some (s.isr_table vector),
        on_regs (λ r. wr en (bit_or (rd en r) (bit (vector_bit vector))) r) s',
      )
      else (none, s)

  -- The vector that `dispatch` reads.
  abbrev pub current_vector : Intc H → ℕ
  current_vector s = (rd 0x00 s.regs + u32_mod - rd 0x04 s.regs) % u32_mod / 4

  -- `dispatch`, where `call` is what a handler does.
  unfoldable pub dispatch : (H → ℕ → Intc H → Intc H) → Intc H → Intc H
  unfolding clear_pending
  dispatch call s =
      let vector = current_vector s in
      let s1 = record s { nest = (s.nest + 1) % u32_mod; in_isr = true } in
      let s2 =
        (if ltb vector interrupts_max
          then clear_pending vector (call (s1.isr_table vector) vector s1)
          else s1) in
      record s2 { in_isr = false; nest = (s2.nest + u32_mod - 1) % u32_mod }
