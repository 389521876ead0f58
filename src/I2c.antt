-- ===== src/I2c.antt =====
-- src/i2c.rs: one controller, its channel, the byte memory that the messages point into, and the
-- scheduler that the event flags belong to. A register is named by its offset; what the hardware
-- answers, and how a write changes it, are parameters.
pub mod Core
pub mod Xfer
pub mod Controller
pub mod Steps
pub mod Closing
pub mod Script
pub mod Leads
pub mod Transaction
pub mod Faults
pub mod Clock
use f1c100s_rs.Base.{
  ℕ, zero, suc, ◌+◌, ◌-◌, ◌*◌, ◌/◌, ◌%◌, Bool, true, false, not, ◌&&◌, ◌||◌, Option, none, some,
  ltb, leb, ◌==◌, if◌then◌else◌,
}
use f1c100s_rs.Bits.{bit_and, bit_or, not32, shl32, shr32, u32_mod}
use f1c100s_rs.Run.{Run, ret, ◌>>=◌, ◌>>◌, pure, focus}
use f1c100s_rs.Thread.Types.{Machine}
use f1c100s_rs.Ipc.EventFlags.{EventFlags}

-- `XferStatus`.
pub data XferStatus : Type 0 where
  idle start running : XferStatus

abbrev pub is_idle : XferStatus → Bool
is_idle idle = true
is_idle _ = false

abbrev pub is_running : XferStatus → Bool
is_running running = true
is_running _ = false

-- `TwiMsg`; `buf` is an address.
pub record TwiMsg : Type 0 where
  pub addr : ℕ
  pub read : Bool
  pub buf : ℕ
  pub len : ℕ

-- `TwiChannel`, without the field `debug_state`, which is written and never read.
pub record TwiChannel : Type 0 where
  pub event : EventFlags
  pub msgs : ℕ → Option TwiMsg
  pub msg_idx : ℕ
  pub msg_ptr : ℕ
  pub msg_num : ℕ
  pub status : XferStatus

pub record Twi (D : Type 0) : Type 0 where
  pub dev : D
  pub ch : TwiChannel
  pub mem : ℕ → ℕ

abbrev pub State : Type 0 → Type 0
State D = Twi D × Machine

-- `I2cError`.
pub data I2cError : Type 0 where
  fail busy start_fail stop_fail timeout : I2cError

-- `TwiChannel::reset`.
abbrev pub reset : TwiChannel → TwiChannel
reset ch = record ch { msgs = λ _. none; msg_idx = 0; msg_ptr = 0; msg_num = 0; status = idle }

abbrev pub ack_bit : ℕ
ack_bit = 0x04

abbrev pub intflg_bit : ℕ
intflg_bit = 0x08

abbrev pub stp_bit : ℕ
stp_bit = 0x10

abbrev pub sta_bit : ℕ
sta_bit = 0x20

abbrev pub busen_bit : ℕ
busen_bit = 0x40

abbrev pub inten_bit : ℕ
inten_bit = 0x80

abbrev pub data_reg : ℕ
data_reg = 0x08

abbrev pub ctl_reg : ℕ
ctl_reg = 0x0c

abbrev pub stat_reg : ℕ
stat_reg = 0x10

abbrev pub clk_reg : ℕ
clk_reg = 0x14

abbrev pub srst_reg : ℕ
srst_reg = 0x18

abbrev pub efr_reg : ℕ
efr_reg = 0x1c

abbrev pub lcr_reg : ℕ
lcr_reg = 0x20

module _ {D : Type 0} where
  abbrev pub on_ch : (TwiChannel → TwiChannel) → Run (State D) (Unit {0})
  on_ch f (t, m) = ret tt (record t { ch = f t.ch }, m)

  abbrev pub get_ch : Run (State D) TwiChannel
  get_ch (t, m) = ret t.ch (t, m)

  abbrev pub load : ℕ → Run (State D) ℕ
  load p (t, m) = ret (t.mem p) (t, m)

  abbrev pub store_byte : ℕ → ℕ → Run (State D) (Unit {0})
  store_byte p v (t, m) = ret tt (record t { mem = λ q. if q == p then v else t.mem q }, m)

module _ {D : Type 0} (dev_read : ℕ → D → ℕ × D) (dev_write : ℕ → ℕ → D → D) where
  -- `twi_read` and `twi_write`.
  unfoldable pub twi_read : ℕ → Run (State D) ℕ
  twi_read off (t, m) = let (v, d) = dev_read off t.dev in ret v (record t { dev = d }, m)

  unfoldable pub twi_write : ℕ → ℕ → Run (State D) (Unit {0})
  twi_write off v (t, m) = ret tt (record t { dev = dev_write off v t.dev }, m)

  -- The control register is read, changed and written back.
  abbrev pub change_ctl : (ℕ → ℕ) → Run (State D) (Unit {0})
  unfolding twi_read twi_write
  change_ctl f = do val ← twi_read ctl_reg; twi_write ctl_reg (f val)

  -- `twi_get_status`.
  unfoldable pub twi_get_status : Run (State D) ℕ
  unfolding twi_read
  twi_get_status = do val ← twi_read stat_reg; pure (bit_and val 0xff)

  -- `twi_query_irq_flag`.
  unfoldable pub twi_query_irq_flag : Run (State D) Bool
  unfolding twi_read
  twi_query_irq_flag = do val ← twi_read ctl_reg; pure (not (bit_and val intflg_bit == 0))

  -- `twi_clear_irq_flag`.
  unfoldable pub twi_clear_irq_flag : Run (State D) (Unit {0})
  unfolding twi_read twi_write
  twi_clear_irq_flag = do
    val ← twi_read ctl_reg
    twi_write ctl_reg (bit_and val (not32 intflg_bit))
    check ← twi_read ctl_reg
    if bit_and check intflg_bit == 0
        then pure tt
        else twi_write ctl_reg (bit_and check (not32 intflg_bit))

  -- `twi_enable_bus`, `twi_disable_bus`, `twi_enable_ack`, `twi_disable_ack`, `twi_set_start`,
  -- `twi_set_stop`.
  unfoldable pub twi_set_bits : ℕ → Run (State D) (Unit {0})
  unfolding twi_read twi_write
  twi_set_bits bits = change_ctl (λ val. bit_or val bits)

  unfoldable pub twi_clear_bits : ℕ → Run (State D) (Unit {0})
  unfolding twi_read twi_write
  twi_clear_bits bits = change_ctl (λ val. bit_and val (not32 bits))

  -- `twi_enable_irq`.
  unfoldable pub twi_enable_irq : Run (State D) (Unit {0})
  unfolding twi_read twi_write
  twi_enable_irq =
      change_ctl
        λ val. bit_and (bit_or val (bit_or inten_bit intflg_bit)) (not32 (bit_or sta_bit stp_bit))

  -- `twi_disable_irq`.
  unfoldable pub twi_disable_irq : Run (State D) (Unit {0})
  unfolding twi_read twi_write
  twi_disable_irq = do
    val ← twi_read ctl_reg
    twi_write ctl_reg (bit_and val (not32 inten_bit))
    twi_write ctl_reg (bit_and val (not32 inten_bit))

  -- `twi_get_start` and `twi_get_stop`.
  unfoldable pub twi_get_bit : ℕ → Run (State D) Bool
  unfolding twi_read
  twi_get_bit bits = do val ← twi_read ctl_reg; pure (not (bit_and val bits == 0))

  -- `twi_put_byte`.
  unfoldable pub twi_put_byte : ℕ → Run (State D) (Unit {0})
  unfolding twi_write twi_clear_irq_flag
  twi_put_byte byte = do twi_write data_reg byte; twi_clear_irq_flag

  -- `twi_get_last_byte`.
  unfoldable pub twi_get_last_byte : Run (State D) ℕ
  unfolding twi_read
  twi_get_last_byte = do val ← twi_read data_reg; pure (bit_and val 0xff)

  -- `twi_get_byte`.
  unfoldable pub twi_get_byte : Run (State D) ℕ
  unfolding twi_get_last_byte twi_clear_irq_flag
  twi_get_byte = do byte ← twi_get_last_byte; twi_clear_irq_flag; pure byte

  -- The byte that selects a device: `((addr & 0x7F) << 1) | (read as u8)`.
  abbrev pub addr_byte : ℕ → Bool → ℕ
  addr_byte addr read = bit_or (bit_and addr 0x7f * 2) (if read then 1 else 0)

  -- `twi_send_addr`.
  unfoldable pub twi_send_addr : ℕ → Bool → Run (State D) (Unit {0})
  unfolding twi_put_byte
  twi_send_addr addr read = twi_put_byte (addr_byte addr read)

  -- `twi_soft_reset`.
  unfoldable pub twi_soft_reset : Run (State D) (Unit {0})
  unfolding twi_write
  twi_soft_reset = twi_write srst_reg 1

  -- `twi_set_efr`.
  unfoldable pub twi_set_efr : ℕ → Run (State D) (Unit {0})
  unfolding twi_read twi_write
  twi_set_efr efr = do
    val ← twi_read efr_reg
    twi_write efr_reg (bit_or (bit_and val (not32 3)) (bit_and efr 3))

  -- `while test() && timeout > 0 { timeout -= 1 }`: what is left of the timeout.
  unfoldable pub poll : ℕ → Run (State D) Bool → Run (State D) ℕ
  poll zero test = do waits ← test; pure 0
  poll (suc n) test =
      let rest = poll n test in (do waits ← test; if waits then rest else pure (suc n))

  -- `twi_wait_start_clear`: whether it is `Ok`.
  unfoldable pub twi_wait_start_clear : Run (State D) Bool
  unfolding poll twi_get_bit
  twi_wait_start_clear = do left ← poll 0xff (twi_get_bit sta_bit); pure (not (left == 0))

  -- `twi_send_stop_and_wait`: whether it is `Ok`.
  unfoldable pub twi_send_stop_and_wait : Run (State D) Bool
  unfolding poll twi_get_bit twi_get_status twi_read twi_set_bits twi_clear_irq_flag
  twi_send_stop_and_wait = do
    twi_set_bits stp_bit
    twi_clear_irq_flag
    twi_get_bit stp_bit
    left ← poll 0xff (twi_get_bit stp_bit)
    if left == 0 then pure false else do
      left' ← poll 0xff (do st ← twi_get_status; pure (not (st == 0xf8)))
      if left' == 0 then pure false else do
        left'' ← poll 0xff (do v ← twi_read lcr_reg; pure (not (v == 0x3a)))
        pure (not (left'' == 0))

  -- `twi_stop_quiet`.
  unfoldable pub twi_stop_quiet : Run (State D) (Unit {0})
  unfolding twi_set_bits twi_clear_irq_flag twi_soft_reset
  twi_stop_quiet = do twi_set_bits stp_bit; twi_clear_irq_flag; twi_soft_reset
