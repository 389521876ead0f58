-- ===== src/Timer.antt =====
-- src/timer.rs. The timer block is a device `D` as in Spi; `C` is the type of the callbacks.
pub mod Halted
pub mod Interval
pub mod Systick
pub mod Ticks
use f1c100s_rs.Base.{
  ℕ, zero, suc, ◌+◌, ◌-◌, ◌*◌, ◌/◌, ◌%◌, Bool, true, false, not, Option, none, some, ltb, leb, ◌==◌,
  if◌then◌else◌, update,
}
use f1c100s_rs.Bits.{bit_and, bit_or, not32, shl32, u32_mod}
use f1c100s_rs.Interrupt.{Intc, install, unmask}
use f1c100s_rs.Io.{Io, ok, spins, panics, Call, ◌>>=◌, ◌>>◌}

abbrev pub timer_base : ℕ
timer_base = 0x01c20c00

abbrev pub irq_en_reg : ℕ
irq_en_reg = 0x00

abbrev pub irq_sta_reg : ℕ
irq_sta_reg = 0x04

abbrev pub avs_ctrl_reg : ℕ
avs_ctrl_reg = 0x80

abbrev pub avs_cnt0_reg : ℕ
avs_cnt0_reg = 0x84

abbrev pub avs_div_reg : ℕ
avs_div_reg = 0x8c

-- The registers of a channel.
abbrev pub ctrl : ℕ → ℕ
ctrl ch = 0x10 + 0x10 * ch

abbrev pub intv : ℕ → ℕ
intv ch = 0x14 + 0x10 * ch

abbrev pub curv : ℕ → ℕ
curv ch = 0x18 + 0x10 * ch

abbrev pub enable_bit : ℕ
enable_bit = 1

abbrev pub reload_bit : ℕ
reload_bit = 2

abbrev pub osc24m_bit : ℕ
osc24m_bit = 4

abbrev pub oneshot_bit : ℕ
oneshot_bit = 0x80

-- `clk_pres`.
unfoldable pub clk_pres : ℕ → ℕ
clk_pres val = shl32 (bit_and val 0x7) 4

abbrev pub timer_src_hz : ℕ
timer_src_hz = 24000000

-- The vector of a channel.
abbrev pub timer_irq : ℕ → ℕ
timer_irq ch = 13 + ch

pub data Prescaler : Type 0 where
  div1 div2 div4 div8 div16 div32 div64 div128 : Prescaler

abbrev pub prescaler_no : Prescaler → ℕ
prescaler_no div1 = 0
prescaler_no div2 = 1
prescaler_no div4 = 2
prescaler_no div8 = 3
prescaler_no div16 = 4
prescaler_no div32 = 5
prescaler_no div64 = 6
prescaler_no div128 = 7

-- `divisor`.
unfoldable pub divisor : Prescaler → ℕ
divisor p = shl32 1 (prescaler_no p)

pub data TimerMode : Type 0 where
  periodic oneshot : TimerMode

pub record TimerConfig : Type 0 where
  pub prescaler : Prescaler
  pub mode : TimerMode
  pub interval : ℕ

-- `TimerConfig::default`.
abbrev pub default_timer : TimerConfig
default_timer = record { prescaler = div1; mode = oneshot; interval = timer_src_hz }

pub record Timer (C : Type 0) : Type 0 where
  pub ch : ℕ
  pub irq_vector : ℕ
  pub callback : Option C

-- `Timer::new`, for the number of a channel.
abbrev pub new_timer : {C : Type 0} → ℕ → Timer C
new_timer ch = record { ch = ch; irq_vector = timer_irq ch; callback = none }

-- The handlers that the driver installs, and those of other code.
pub data Isr (C : Type 0) : Type 0 where
  timer_isr : ℕ → Isr C
  systick_isr : Isr C
  other_isr : C → Isr C

-- The device, the interrupt controller, and the statics of src/timer.rs.
pub record TimerBlock (D C : Type 0) : Type 0 where
  pub dev : D
  pub intc : Intc (Isr C)
  pub timer_callbacks : ℕ → Option C
  pub system_tick_ms : ℕ

-- The ticks of `start_oneshot_us`.
unfoldable pub oneshot_ticks : Prescaler → (us : ℕ) → ℕ
unfolding divisor
oneshot_ticks prescaler us =
    let clk = timer_src_hz / divisor prescaler in clk * us / 1000000 % u32_mod

-- The control word of `configure`.
unfoldable pub ctrl_word : TimerConfig → ℕ
unfolding clk_pres
ctrl_word config =
    let ctl_val = bit_or osc24m_bit (clk_pres (prescaler_no config.prescaler)) in
    elim config.mode [ periodic ↦ ctl_val | oneshot ↦ bit_or ctl_val oneshot_bit ]

abbrev pub Timers : (D C A : Type 0) → Type 0
Timers D C A = Call (TimerBlock D C) ⊥ A

module _ {D C : Type 0} (dev_read : ℕ → D → ℕ × D) (dev_write : ℕ → ℕ → D → D) where
  -- `timer_read`.
  unfoldable pub timer_read : ℕ → Timers D C ℕ
  timer_read offset b =
      let (val, d) = dev_read (timer_base + offset) b.dev in ok val (record b { dev = d })

  -- `timer_write`.
  unfoldable pub timer_write : (offset val : ℕ) → Timers D C (Unit {0})
  timer_write offset val b = ok tt (record b { dev = dev_write (timer_base + offset) val b.dev })

  -- `current_value`.
  unfoldable pub current_value : Timer C → Timers D C ℕ
  unfolding timer_read
  current_value t = timer_read (curv t.ch)

  -- `interval_value`.
  unfoldable pub interval_value : Timer C → Timers D C ℕ
  unfolding timer_read
  interval_value t = timer_read (intv t.ch)

  -- `is_running`.
  unfoldable pub is_running : Timer C → Timers D C Bool
  unfolding timer_read
  is_running t = timer_read (ctrl t.ch) >>= (λ val. ok (not (bit_and val enable_bit == 0)))

  -- The loop of `stop`, with at most `n` rounds.
  unfoldable pub wait_moved : (n old : ℕ) → Timer C → Timers D C (Unit {0})
  unfolding timer_read
  wait_moved zero old t b = spins
  wait_moved (suc n) old t b =
      let rest = wait_moved n old t in
      (timer_read (curv t.ch)
          >>= (λ cur. if leb 3 ((old + u32_mod - cur) % u32_mod) then ok tt else rest))
        b

  -- `stop`.
  unfoldable pub stop : (rounds : ℕ) → Timer C → Timers D C (Unit {0})
  unfolding timer_read timer_write wait_moved
  stop rounds t =
      timer_read (ctrl t.ch)
      >>= (λ val. timer_write (ctrl t.ch) (bit_and val (not32 enable_bit)))
      >> timer_read (curv t.ch)
      >>= (λ old. wait_moved rounds old t)

  -- `configure`.
  unfoldable pub configure : (rounds : ℕ) → Timer C → TimerConfig → Timers D C (Unit {0})
  unfolding is_running stop timer_write ctrl_word
  configure rounds t config =
      is_running t
      >>= (λ running. if running then stop rounds t else ok tt)
      >> timer_write (ctrl t.ch) (ctrl_word config)
      >> timer_write (intv t.ch) config.interval

  -- `start`.
  unfoldable pub start : Timer C → (interval : ℕ) → TimerMode → Timers D C (Unit {0})
  unfolding timer_read timer_write
  start t interval mode = timer_write (intv t.ch) interval >> timer_read (ctrl t.ch) >>= (λ val.
      let val' : ℕ = elim mode [
        | periodic ↦ bit_and val (not32 oneshot_bit)
        | oneshot ↦ bit_or val oneshot_bit
      ] in
      timer_write (ctrl t.ch) (bit_or val' (bit_or enable_bit reload_bit)))

  -- `start_oneshot`.
  unfoldable pub start_oneshot : Timer C → (ticks : ℕ) → Timers D C (Unit {0})
  unfolding start
  start_oneshot t ticks = start t ticks oneshot

  -- `start_periodic`.
  unfoldable pub start_periodic : Timer C → (ticks : ℕ) → Timers D C (Unit {0})
  unfolding start
  start_periodic t ticks = start t ticks periodic

  -- `start_oneshot_us`.
  unfoldable pub start_oneshot_us :
      (rounds : ℕ) → Timer C → Prescaler → (us : ℕ) → Timers D C (Unit {0})
  unfolding configure oneshot_ticks timer_read timer_write
  start_oneshot_us rounds t prescaler us =
      configure rounds t
        (record { prescaler = prescaler; mode = oneshot; interval = oneshot_ticks prescaler us })
      >> timer_read (ctrl t.ch)
      >>= (λ val. timer_write (ctrl t.ch) (bit_or val (bit_or enable_bit reload_bit)))

  -- `clear_interrupt`.
  unfoldable pub clear_interrupt : Timer C → Timers D C (Unit {0})
  unfolding timer_write
  clear_interrupt t = timer_write irq_sta_reg (shl32 1 t.ch)

  -- `enable_interrupt`.
  unfoldable pub enable_interrupt : Timer C → Timers D C (Unit {0})
  unfolding timer_read timer_write
  enable_interrupt t =
      timer_read irq_en_reg >>= (λ val. timer_write irq_en_reg (bit_or val (shl32 1 t.ch)))

  -- `disable_interrupt`.
  unfoldable pub disable_interrupt : Timer C → Timers D C (Unit {0})
  unfolding timer_read timer_write
  disable_interrupt t =
      timer_read irq_en_reg >>= (λ val. timer_write irq_en_reg (bit_and val (not32 (shl32 1 t.ch))))

  -- `interrupt::install`; the handler that it answers is not looked at.
  abbrev pub install_isr : (vector : ℕ) → Isr C → Timers D C (Unit {0})
  install_isr vector isr b =
      let (old, intc) = install vector isr b.intc in ok tt (record b { intc = intc })

  -- `set_callback`: the timer after it. An index out of range is a panic.
  unfoldable pub set_callback : Timer C → C → Timers D C (Timer C)
  set_callback t callback b =
      if ltb t.ch 3
      then ok (record t { callback = some callback })
          (record b { timer_callbacks = update b.timer_callbacks t.ch (some callback) })
      else panics

  -- `install_interrupt`.
  unfoldable pub install_interrupt : Timer C → C → Timers D C (Timer C)
  unfolding set_callback install enable_interrupt
  install_interrupt t callback =
      set_callback t callback
      >>= (λ t'. install_isr t'.irq_vector (timer_isr t'.ch) >> enable_interrupt t' >> ok t')
