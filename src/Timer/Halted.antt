-- ===== src/Timer/Halted.antt =====
-- What src/timer.rs does with a channel that is running, and with one that is stopped.
use f1c100s_rs.Base.{
  ℕ, zero, suc, ◌+◌, ◌-◌, ◌*◌, ◌^◌, ◌%◌, ◌≡◌, ◌≢◌, ◌⊎◌, ◌∙◌, refl, sym, false, leb, ◌==◌,
  Bool-cases, inl, inr, arith, ==_iff,
}
use f1c100s_rs.Bits.{bit_and, not32, shl32, u32_mod}
use f1c100s_rs.Bits.Lowest.{bit_and-away}
use f1c100s_rs.Io.{ok, spins}
use f1c100s_rs.Timer.{
  Prescaler, div1, div2, div4, div8, div16, div32, div64, div128, TimerMode, periodic, oneshot,
  clk_pres, Timer, TimerConfig, TimerBlock, timer_base, ctrl, intv, curv, enable_bit, timer_read,
  timer_write, is_running, wait_moved, stop, configure, ctrl_word,
}

-- A channel of the timer block: its control, interval and interrupt enable registers hold what is
-- written, and its counter stands still while `ENABLE` is clear.
pub record IsChannel {D : Type 0} (dev_read : ℕ → D → ℕ × D) (dev_write : ℕ → ℕ → D → D) (ch : ℕ)
    (ctrl_of intv_of irq_en_of count_of : D → ℕ) : Type 0 where
  pub reads :
      (d : D)
      → (d' : D) × (dev_read (timer_base + ctrl ch) d ≡ (ctrl_of d, d'))
        × (ctrl_of d' ≡ ctrl_of d)
        × (intv_of d' ≡ intv_of d)
        × (irq_en_of d' ≡ irq_en_of d)
  pub controls :
      (val : ℕ) (d : D)
      → let d' = dev_write (timer_base + ctrl ch) val d in
        (ctrl_of d' ≡ val) × (intv_of d' ≡ intv_of d) × (irq_en_of d' ≡ irq_en_of d)
  pub sets :
      (val : ℕ) (d : D)
      → let d' = dev_write (timer_base + intv ch) val d in
        (ctrl_of d' ≡ ctrl_of d) × (intv_of d' ≡ val) × (irq_en_of d' ≡ irq_en_of d)
  pub holds :
      (d : D)
      → bit_and (ctrl_of d) enable_bit ≡ 0
      → (d' : D) × (dev_read (timer_base + curv ch) d ≡ (count_of d, d'))
        × (count_of d' ≡ count_of d)
        × (ctrl_of d' ≡ ctrl_of d)

-- The control word of a channel: the 24 MHz oscillator in bit 2, the power of two by which the clock
-- is divided from bit 4 on, and bit 7 for a single run.
abbrev pub control_value : Prescaler → TimerMode → ℕ
control_value p mode = 2 ^ 2 + 2 ^ 4 * exponent p + single mode
  where
    exponent : Prescaler → ℕ
    exponent div1 = 0
    exponent div2 = 1
    exponent div4 = 2
    exponent div8 = 3
    exponent div16 = 4
    exponent div32 = 5
    exponent div64 = 6
    exponent div128 = 7

    single : TimerMode → ℕ
    single periodic = 0
    single oneshot = 2 ^ 7

ctrl_word_lem :
    (p : Prescaler) (mode : TimerMode) (interval : ℕ)
    → ctrl_word (record { prescaler = p; mode = mode; interval = interval }) ≡ control_value p mode
unfolding ctrl_word clk_pres shl32
ctrl_word_lem div1 periodic interval = refl
ctrl_word_lem div1 oneshot interval = refl
ctrl_word_lem div2 periodic interval = refl
ctrl_word_lem div2 oneshot interval = refl
ctrl_word_lem div4 periodic interval = refl
ctrl_word_lem div4 oneshot interval = refl
ctrl_word_lem div8 periodic interval = refl
ctrl_word_lem div8 oneshot interval = refl
ctrl_word_lem div16 periodic interval = refl
ctrl_word_lem div16 oneshot interval = refl
ctrl_word_lem div32 periodic interval = refl
ctrl_word_lem div32 oneshot interval = refl
ctrl_word_lem div64 periodic interval = refl
ctrl_word_lem div64 oneshot interval = refl
ctrl_word_lem div128 periodic interval = refl
ctrl_word_lem div128 oneshot interval = refl

module _ {D C : Type 0} (dev_read : ℕ → D → ℕ × D) (dev_write : ℕ → ℕ → D → D) (t : Timer C)
    (ctrl_of intv_of irq_en_of count_of : D → ℕ)
    (channel : IsChannel dev_read dev_write t.ch ctrl_of intv_of irq_en_of count_of) where
  wait_moved-Spins :
      (n old : ℕ) (b : TimerBlock D C)
      → bit_and (ctrl_of b.dev) enable_bit ≡ 0
      → old ≡ count_of b.dev
      → wait_moved dev_read dev_write n old t b ≡ spins
  unfolding wait_moved timer_read
  wait_moved-Spins zero old b halted same = refl
  wait_moved-Spins (suc n) old b halted same =
      let (d', read, kept, ctrl_kept) = channel.holds b.dev halted in
      let still : leb 3 ((old + u32_mod - count_of b.dev) % u32_mod) ≡ false = ground arith in
      rw (read, still)
        (wait_moved-Spins n old (record b { dev = d' }) (rw ctrl_kept halted) (same ∙ sym kept))

  -- `stop` clears `ENABLE` and waits for the counter that it has stopped.
  stop-Spins : (rounds : ℕ) (b : TimerBlock D C) → stop dev_read dev_write rounds t b ≡ spins
  unfolding stop timer_read timer_write
  stop-Spins rounds b =
      let (d1, read, _, _, _) = channel.reads b.dev in
      let val = bit_and (ctrl_of b.dev) (not32 enable_bit) in
      let d2 = dev_write (timer_base + ctrl t.ch) val d1 in
      let (written, _, _) = channel.controls val d1 in
      let halted : bit_and (ctrl_of d2) enable_bit ≡ 0 =
        rw written (bit_and-away (ctrl_of b.dev) enable_bit (omega arith)) in
      let (d3, read', kept, ctrl_kept) = channel.holds d2 halted in
      rw (read, read')
        (wait_moved-Spins rounds (count_of d2) (record b { dev = d3 }) (rw ctrl_kept halted)
          (sym kept))

  -- `configure` never ends for a channel that is running, however long it waits: `stop` waits for
  -- the counter that it has stopped. A channel that is stopped gets the interval and a
  -- control word with the oscillator and the prescaler and mode of the configuration, and its
  -- interrupt stays enabled or disabled.
  pub configure-halted :
      (rounds : ℕ) (config : TimerConfig) (b : TimerBlock D C)
      → ((bit_and (ctrl_of b.dev) enable_bit ≢ 0)
          × (configure dev_read dev_write rounds t config b ≡ spins))
        ⊎ ((bit_and (ctrl_of b.dev) enable_bit ≡ 0)
            × ((d' : D) × (configure dev_read dev_write rounds t config b
                  ≡ ok tt (record b { dev = d' }))
                × (ctrl_of d' ≡ control_value config.prescaler config.mode)
                × (intv_of d' ≡ config.interval)
                × (irq_en_of d' ≡ irq_en_of b.dev)))
  unfolding configure is_running timer_read timer_write
  configure-halted rounds config b =
      let (d1, read, ctrl1, intv1, irq1) = channel.reads b.dev in
      elim (Bool-cases (bit_and (ctrl_of b.dev) enable_bit == 0)) [
        | inr running ↦
            let on : bit_and (ctrl_of b.dev) enable_bit ≢ 0 = ground (arith, running) in
            inl (on, rw (read, running, stop-Spins rounds (record b { dev = d1 })) refl)
        | inl halted ↦
            let off : bit_and (ctrl_of b.dev) enable_bit ≡ 0 = (==_iff _ 0).0 halted in
            let d2 = dev_write (timer_base + ctrl t.ch) (ctrl_word config) d1 in
            let (ctrl2, intv2, irq2) = channel.controls (ctrl_word config) d1 in
            let (ctrl3, intv3, irq3) = channel.sets config.interval d2 in
            inr (
              off,
              (
                dev_write (timer_base + intv t.ch) config.interval d2,
                rw (read, halted) refl,
                ctrl3 ∙ ctrl2 ∙ ctrl_word_lem config.prescaler config.mode config.interval,
                intv3,
                irq3 ∙ irq2 ∙ irq1,
              ),
            )
      ]
