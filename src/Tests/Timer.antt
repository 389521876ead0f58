-- ===== src/Tests/Timer.antt =====
-- A timer channel whose counter runs down while it is enabled, for src/timer.rs.
use f1c100s_rs.Base.{ℕ, ◌+◌, ◌-◌, ◌≡◌, ◌≢◌, ◌⊎◌, refl, false, none, ◌==◌, if◌then◌else◌}
use f1c100s_rs.Bits.{bit_and}
use f1c100s_rs.Interrupt.{Intc}
use f1c100s_rs.Io.{ok, spins}
use f1c100s_rs.Timer.Ticks.{systick_init}
use f1c100s_rs.Timer.{TimerBlock, Isr, timer_base, timer_irq, default_timer, new_timer, configure}
use f1c100s_rs.Timer.Halted.{IsChannel, control_value, configure-halted}
use f1c100s_rs.Timer.Systick.{systick_init-silent}

record Channel : Type 0 where
  control : ℕ
  interval : ℕ
  count : ℕ
  irq_en : ℕ

read_channel : ℕ → Channel → ℕ × Channel
read_channel addr c =
    if addr == timer_base + 0x10
    then (c.control, c)
    else if addr == timer_base + 0x18
    then (c.count, record c { count = if bit_and c.control 1 == 0 then c.count else c.count - 1 })
    else (0, c)

write_channel : (addr val : ℕ) → Channel → Channel
write_channel addr val c =
    if addr == timer_base + 0x10
    then record c { control = val }
    else if addr == timer_base + 0x14
    then record c { interval = val }
    else if addr == timer_base
    then record c { irq_en = val }
    else c

counting-IsChannel :
    IsChannel read_channel write_channel 0
      (λ c. c.control)
      (λ c. c.interval)
      (λ c. c.irq_en)
      (λ c. c.count)
unfolding read_channel write_channel
counting-IsChannel = record {
  reads = λ c. (c, refl, refl, refl, refl);
  controls = λ val c. (refl, refl, refl);
  sets = λ val c. (refl, refl, refl);
  holds = λ c halted. (
    record c { count = if bit_and c.control 1 == 0 then c.count else c.count - 1 },
    refl,
    rw halted refl,
    refl,
  );
}

abbrev idle_intc : Intc (Isr ℕ)
idle_intc = record { regs = λ _. 0; isr_table = λ _. Isr.other_isr 0; nest = 0; in_isr = false }

abbrev block : ℕ → TimerBlock Channel ℕ
block control = record {
  dev = record { control = control; interval = 500; count = 400; irq_en = 0 };
  intc = idle_intc;
  timer_callbacks = λ _. none;
  system_tick_ms = 0;
}

-- The channel is running.
configure-halted_example :
    ((bit_and 7 1 ≢ 0)
      × (configure read_channel write_channel 1000 (new_timer 0) default_timer (block 7) ≡ spins))
    ⊎ ((bit_and 7 1 ≡ 0)
        × ((d' : Channel) × (configure read_channel write_channel 1000
                (new_timer 0)
                default_timer
                (block 7)
              ≡ ok tt (record (block 7) { dev = d' }))
            × (d'.control ≡ control_value default_timer.prescaler default_timer.mode)
            × (d'.interval ≡ 24000000)
            × (d'.irq_en ≡ 0)))
configure-halted_example =
    configure-halted read_channel write_channel (new_timer 0) (λ c. c.control) (λ c. c.interval)
      (λ c. c.irq_en) (λ c. c.count) counting-IsChannel 1000 default_timer (block 7)

systick_init-silent_example :
    (b' : TimerBlock Channel ℕ) × (systick_init read_channel write_channel 9 (block 0) ≡ ok tt b')
    × (b'.dev.control ≡ 7)
    × (b'.dev.interval ≡ 24000)
    × (b'.intc.isr_table (timer_irq 0) ≡ Isr.systick_isr)
    × (b'.dev.irq_en ≡ 0)
systick_init-silent_example =
    systick_init-silent read_channel write_channel (λ c. c.control) (λ c. c.interval)
      (λ c. c.irq_en) (λ c. c.count) counting-IsChannel 9 (block 0) refl
