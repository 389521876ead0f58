-- ===== src/Timer/Ticks.antt =====
-- The handlers, the delays and the system tick of src/timer.rs.
use f1c100s_rs.Base.{ℕ, zero, suc, ◌+◌, ◌*◌, ◌/◌, ◌%◌, none, some, ltb, ◌==◌, if◌then◌else◌}
use f1c100s_rs.Bits.{bit_and, bit_or, shl32, u32_mod}
use f1c100s_rs.Interrupt.{install, unmask}
use f1c100s_rs.Io.{ok, spins, ◌>>=◌, ◌>>◌}
use f1c100s_rs.Timer.{
  TimerBlock, Timers, timer_read, timer_write, configure, start, install_isr, new_timer, timer_irq,
  timer_src_hz, systick_isr, div1, periodic, irq_sta_reg, avs_ctrl_reg, avs_cnt0_reg, avs_div_reg,
}

module _ {D C : Type 0} (dev_read : ℕ → D → ℕ × D) (dev_write : ℕ → ℕ → D → D) where
  -- `timer0_isr`, `timer1_isr` and `timer2_isr`; `run` is what a callback does.
  unfoldable pub run_timer_isr :
      (run : C → TimerBlock D C → TimerBlock D C) → (ch : ℕ) → Timers D C (Unit {0})
  unfolding timer_read timer_write
  run_timer_isr run ch = timer_read dev_read dev_write irq_sta_reg >>= (λ sta.
      if bit_and sta (shl32 1 ch) == 0
      then ok tt
      else (timer_write dev_read dev_write irq_sta_reg (shl32 1 ch)
          >> (λ b. elim (b.timer_callbacks ch) [ none ↦ ok tt b | some cb ↦ ok tt (run cb b) ])))

  -- `avs_init`.
  unfoldable pub avs_init : Timers D C (Unit {0})
  unfolding timer_write
  avs_init =
      (λ b. ok tt (record b { dev = dev_write 0x01c20144 0x80000000 b.dev }))
      >> timer_write dev_read dev_write avs_ctrl_reg 3
      >> timer_write dev_read dev_write avs_div_reg (bit_or (shl32 11999 16) 11)

  -- The loop of `delay_us`, with at most `n` rounds.
  unfoldable pub wait_count : (n us : ℕ) → Timers D C (Unit {0})
  unfolding timer_read
  wait_count zero us b = spins
  wait_count (suc n) us b =
      let rest = wait_count n us in
      (timer_read dev_read dev_write avs_cnt0_reg
          >>= (λ count. if ltb count us then rest else ok tt))
        b

  -- `delay_us`.
  unfoldable pub delay_us : (rounds us : ℕ) → Timers D C (Unit {0})
  unfolding timer_write wait_count
  delay_us rounds us = timer_write dev_read dev_write avs_cnt0_reg 0 >> wait_count rounds us

  -- `delay_ms`.
  unfoldable pub delay_ms : (rounds ms : ℕ) → Timers D C (Unit {0})
  unfolding delay_us
  delay_ms rounds ms = delay_us rounds (ms * 1000 % u32_mod)

  -- `systick_isr`.
  unfoldable pub run_systick_isr : Timers D C (Unit {0})
  unfolding timer_read timer_write
  run_systick_isr = timer_read dev_read dev_write irq_sta_reg >>= (λ sta.
      if bit_and sta 1 == 0
      then ok tt
      else (timer_write dev_read dev_write irq_sta_reg 1 >> (λ b.
          ok tt (record b { system_tick_ms = (b.system_tick_ms + 1) % (u32_mod * u32_mod) }))))

  -- `systick_init`.
  unfoldable pub systick_init : (rounds : ℕ) → Timers D C (Unit {0})
  unfolding configure install unmask start
  systick_init rounds =
      let t0 = new_timer 0 in
      configure dev_read dev_write rounds t0
        (record { prescaler = div1; mode = periodic; interval = timer_src_hz / 1000 })
      >> install_isr dev_read dev_write (timer_irq 0) systick_isr
      >> (λ b. ok tt (record b { intc = unmask (timer_irq 0) b.intc }))
      >> start dev_read dev_write t0 (timer_src_hz / 1000) periodic
