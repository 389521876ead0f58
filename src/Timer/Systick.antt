-- ===== src/Timer/Systick.antt =====
-- The system tick of src/timer.rs.
use f1c100s_rs.Base.{ℕ, ◌+◌, ◌≡◌, ◌∙◌, refl, inl, inr}
use f1c100s_rs.Bits.{bit_and, bit_or, not32, shl32}
use f1c100s_rs.Interrupt.{Intc, install, unmask, clear_pending, vector_group, vector_bit}
use f1c100s_rs.Io.{ok}
use f1c100s_rs.Timer.Ticks.{systick_init}
use f1c100s_rs.Timer.{
  TimerConfig, TimerBlock, Isr, Prescaler, TimerMode, timer_base, ctrl, intv, enable_bit,
  timer_read, timer_write, start, ctrl_word, clk_pres, new_timer, timer_irq,
}
use f1c100s_rs.Timer.Halted.{IsChannel, control_value, configure-halted}

abbrev tick_config : TimerConfig
tick_config = record { prescaler = Prescaler.div1; mode = TimerMode.periodic; interval = 24000 }

tick_word :
    bit_or (bit_and (control_value tick_config.prescaler tick_config.mode) (not32 0x80)) 3 ≡ 7
unfolding ctrl_word clk_pres shl32 not32
tick_word = refl

systick_installed :
    {C : Type 0} (intc : Intc (Isr C))
    → (unmask (timer_irq 0) ((install (timer_irq 0) Isr.systick_isr intc).1)).isr_table
        (timer_irq 0)
      ≡ Isr.systick_isr
unfolding install unmask clear_pending vector_group vector_bit
systick_installed intc = refl

module _ {D C : Type 0} (dev_read : ℕ → D → ℕ × D) (dev_write : ℕ → ℕ → D → D)
    (ctrl_of intv_of irq_en_of count_of : D → ℕ)
    (channel : IsChannel dev_read dev_write 0 ctrl_of intv_of irq_en_of count_of) where
  -- Where the channel 0 is stopped, `systick_init` starts it with a period of 24000 cycles and
  -- installs the handler, and leaves the interrupt enable register of the timers as it is.
  pub systick_init-silent :
      (rounds : ℕ) (b : TimerBlock D C)
      → bit_and (ctrl_of b.dev) enable_bit ≡ 0
      → (b' : TimerBlock D C) × (systick_init dev_read dev_write rounds b ≡ ok tt b')
        × (ctrl_of b'.dev ≡ 7)
        × (intv_of b'.dev ≡ 24000)
        × (b'.intc.isr_table (timer_irq 0) ≡ Isr.systick_isr)
        × (irq_en_of b'.dev ≡ irq_en_of b.dev)
  unfolding systick_init start timer_read timer_write
  systick_init-silent rounds b halted =
      elim (configure-halted dev_read dev_write (new_timer 0) ctrl_of intv_of irq_en_of count_of
        channel rounds tick_config b) [
          | inl (on, _) ↦ absurd (on halted)
          | inr (_, (d1, ran, ctrl1, intv1, irq1)) ↦
              let d2 = dev_write (timer_base + intv 0) 24000 d1 in
              let (ctrl2, intv2, irq2) = channel.sets 24000 d1 in
              let (d3, read, ctrl3, intv3, irq3) = channel.reads d2 in
              let word = bit_or (bit_and (ctrl_of d2) (not32 0x80)) 3 in
              let d4 = dev_write (timer_base + ctrl 0) word d3 in
              let (ctrl4, intv4, irq4) = channel.controls word d3 in
              let started : word ≡ 7 = rw (ctrl2, ctrl1) tick_word in
              (
                record b {
                  dev = d4;
                  intc = unmask (timer_irq 0) ((install (timer_irq 0) Isr.systick_isr b.intc).1);
                },
                rw (ran, read) refl,
                ctrl4 ∙ started,
                intv4 ∙ intv3 ∙ intv2,
                systick_installed b.intc,
                irq4 ∙ irq3 ∙ irq2 ∙ irq1,
              )
        ]
