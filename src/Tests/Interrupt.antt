-- ===== src/Tests/Interrupt.antt =====
-- The controller of src/interrupt.rs, with a handler that does nothing.
use f1c100s_rs.Base.{true, false, ◌==◌}
use f1c100s_rs.Interrupt.{Intc}

-- The timer interrupt 13 comes while a handler runs, and all sources are masked.
abbrev busy : Intc (Unit {0})
busy = record {
  regs = λ j. elim (j == 0) [ true ↦ 52 | false ↦ 0xffff ];
  isr_table = λ _. tt;
  nest = 1;
  in_isr = true;
}
