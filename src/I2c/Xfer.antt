-- ===== src/I2c/Xfer.antt =====
-- A transfer of src/i2c.rs from its start to its result, the clock of a controller, and `probe`.
use f1c100s_rs.Base.{
  ℕ, zero, suc, ◌+◌, ◌-◌, ◌*◌, ◌/◌, Bool, true, false, not, ◌&&◌, ◌||◌, Option, none, some, List,
  [], ◌∷◌, ltb, leb, ◌==◌, if◌then◌else◌, length,
}
use f1c100s_rs.Bits.{bit_and, bit_or}
use f1c100s_rs.Run.{Run, panic, ◌>>=◌, ◌>>◌, pure, focus}
use f1c100s_rs.Ipc.EventFlags
use f1c100s_rs.Ipc.EventFlags.{EventMode, Waited}
use f1c100s_rs.I2c.{
  TwiChannel, TwiMsg, XferStatus, State, I2cError, is_idle, on_ch, get_ch, store_byte, reset,
  twi_read, twi_write, twi_get_status, twi_set_bits, twi_clear_bits, twi_clear_irq_flag,
  twi_query_irq_flag, twi_wait_start_clear, twi_send_stop_and_wait, twi_stop_quiet, twi_soft_reset,
  twi_set_efr, twi_enable_irq, twi_disable_irq, twi_send_addr, poll, ack_bit, sta_bit, stp_bit,
  busen_bit, srst_reg, clk_reg,
}
use f1c100s_rs.I2c.Core.{wakeup_event, set_event}

-- `Result<usize, I2cError>`.
pub data Xferred : Type 0 where
  ok : ℕ → Xferred
  err : I2cError → Xferred

-- The inner loop of `twi_set_clock` from `m` on, with `n` values left below 16.
unfoldable pub find_m : (n m pow_n src_clk scl_hz : ℕ) → Option ℕ
find_m zero m pow_n src_clk scl_hz = none
find_m (suc n) m pow_n src_clk scl_hz =
    let rest = find_m n (m + 1) pow_n src_clk scl_hz in
    if leb (src_clk / (m + 1) / pow_n) scl_hz then some m else rest

-- The outer loop, with `n` values of `clk_n` left below 8; the fallback is 1 | 7.
unfoldable pub find_n : (n clk_n pow_n divider src_clk scl_hz : ℕ) → ℕ
find_n zero clk_n pow_n divider src_clk scl_hz = 7
find_n (suc n) clk_n pow_n divider src_clk scl_hz =
    let rest = find_n n (clk_n + 1) (pow_n * 2) divider src_clk scl_hz in
    let m = divider / pow_n - 1 in
    elim (find_m (16 - m) m pow_n src_clk scl_hz) [
      | none ↦ rest
      | some clk_m ↦ bit_or (clk_m * 8) clk_n
    ]

-- What `twi_set_clock` writes; a frequency of 0 is a division by zero.
unfoldable pub clock_word : (apb_clk scl_hz : ℕ) → Option ℕ
unfolding find_n
clock_word apb_clk scl_hz =
    let src_clk = apb_clk / 10 in
    let divider = src_clk / scl_hz in
    if scl_hz == 0
    then none
    else some (if divider == 0 then 8 else find_n 8 0 1 divider src_clk scl_hz)

-- The bytes of a slice, or of a register and a slice, in the buffer at `buf`.
unfoldable pub fill_buf : {D : Type 0} → ℕ → List ℕ → Run (State D) (Unit {0})
fill_buf buf [] = pure tt
fill_buf buf (b ∷ bs) = do store_byte buf b; fill_buf (buf + 1) bs

abbrev pub with_reg : Option ℕ → List ℕ → List ℕ
with_reg none bytes = bytes
with_reg (some reg) bytes = reg ∷ bytes

-- What the caller of `xfer` asks for: the bytes of the write phase, the register first, and the
-- buffer of the read phase with its length, 0 if there is none.
pub record Request : Type 0 where
  pub addr : ℕ
  pub out : List ℕ
  pub write_buf : ℕ
  pub read_buf : ℕ
  pub read_len : ℕ

abbrev pub has_write : Request → Bool
has_write q = not (length q.out == 0)

abbrev pub has_read : Request → Bool
has_read q = not (q.read_len == 0)

abbrev pub write_msg : Request → TwiMsg
write_msg q = record { addr = q.addr; read = false; buf = q.write_buf; len = length q.out }

abbrev pub read_msg : Request → TwiMsg
read_msg q = record { addr = q.addr; read = true; buf = q.read_buf; len = q.read_len }

-- The messages, and how many there are.
unfoldable pub build : Request → (ℕ → Option TwiMsg) × ℕ
build q =
    if has_write q
    then (if has_read q
        then (
          (λ i. if i == 0 then some (write_msg q) else if i == 1 then some (read_msg q) else none),
          2,
        )
        else ((λ i. if i == 0 then some (write_msg q) else none), 1))
    else (if has_read q
        then ((λ i. if i == 0 then some (read_msg q) else none), 1)
        else ((λ _. none), 0))

-- The channel that a transfer starts from.
abbrev pub armed : Request → TwiChannel → TwiChannel
unfolding build
armed q ch = record ch {
  msgs = (build q).0;
  msg_num = (build q).1;
  msg_idx = 0;
  msg_ptr = 0;
  status = XferStatus.running;
}

module _ {D : Type 0} (dev_read : ℕ → D → ℕ × D) (dev_write : ℕ → ℕ → D → D) where
  -- `twi_set_clock`.
  unfoldable pub twi_set_clock : (apb_clk scl_hz : ℕ) → Run (State D) (Unit {0})
  unfolding clock_word twi_write
  twi_set_clock apb_clk scl_hz s = elim (clock_word apb_clk scl_hz) [
    | none ↦ panic
    | some v ↦ twi_write dev_read dev_write clk_reg v s
  ]

  -- The reset that `xfer` and `probe` begin with, where the delay is not seen.
  unfoldable pub reset_and_wait : Run (State D) (Unit {0})
  unfolding twi_soft_reset poll twi_read
  reset_and_wait = do
    twi_soft_reset dev_read dev_write
    left ←
        poll dev_read dev_write 0xff
          (do v ← twi_read dev_read dev_write srst_reg; pure (not (bit_and v 1 == 0)))
    pure tt

  abbrev pub quit : I2cError → Run (State D) Xferred
  quit e = do on_ch reset; pure (Xferred.err e)

  -- The end of `xfer`, after the wait.
  unfoldable pub finish : Request → Waited → Run (State D) Xferred
  unfolding twi_stop_quiet twi_disable_irq twi_send_stop_and_wait
  finish q Waited.timeout = do
    twi_stop_quiet dev_read dev_write
    twi_disable_irq dev_read dev_write
    quit I2cError.timeout
  finish q (Waited.ok _) = do
    ch ← get_ch
    if ch.msg_idx == ch.msg_num
        then (do
          stopped ← twi_send_stop_and_wait dev_read dev_write
          if stopped
              then (do
                on_ch reset
                pure (Xferred.ok (if has_read q then q.read_len else length q.out)))
              else quit I2cError.stop_fail)
        else (do
          twi_stop_quiet dev_read dev_write
          twi_disable_irq dev_read dev_write
          quit I2cError.fail)

  -- `EventFlags::clear` and `EventFlags::wait` on the flags of the channel.
  unfoldable pub clear_event : Run (State D) (Unit {0})
  clear_event (t, m) =
      focus (λ t'. t'.ch.event) set_event t (EventFlags.clear wakeup_event (t.ch.event, m))

  unfoldable pub wait_event : Run (State D) Waited
  wait_event (t, m) =
      focus (λ t'. t'.ch.event) set_event t
        (EventFlags.wait wakeup_event EventMode.any_of true (some 10000) (t.ch.event, m))

  -- From the messages on.
  unfoldable pub start : Request → Run (State D) Xferred
  unfolding fill_buf clear_event wait_event twi_enable_irq twi_clear_bits twi_set_efr twi_set_bits
      twi_wait_start_clear twi_soft_reset twi_disable_irq finish
  start q = do
    fill_buf q.write_buf q.out
    on_ch (armed q)
    clear_event
    twi_enable_irq dev_read dev_write
    twi_clear_bits dev_read dev_write ack_bit
    twi_set_efr dev_read dev_write 0
    twi_set_bits dev_read dev_write sta_bit
    started ← twi_wait_start_clear dev_read dev_write
    if started then (do woken ← wait_event; finish q woken) else (do
      twi_soft_reset dev_read dev_write
      twi_disable_irq dev_read dev_write
      quit I2cError.start_fail)

  -- `xfer`.
  unfoldable pub xfer : Request → Run (State D) Xferred
  unfolding reset_and_wait twi_get_status twi_set_bits twi_disable_irq start
  xfer q = do
    ch ← get_ch
    if is_idle ch.status
        then (do
          reset_and_wait
          st ← twi_get_status dev_read dev_write
          if not (st == 0xf8) && not (st == 0) then pure (Xferred.err I2cError.busy) else (do
            twi_set_bits dev_read dev_write busen_bit
            twi_disable_irq dev_read dev_write
            if ltb 256 (length q.out)
                then pure (Xferred.err I2cError.fail)
                else (if has_write q || has_read q then start q else pure (Xferred.ok 0))))
        else pure (Xferred.err I2cError.busy)

  -- `write`, where `buf` is the address of the buffer on the stack of `xfer`.
  unfoldable pub write : (addr : ℕ) → Option ℕ → List ℕ → (buf : ℕ) → Run (State D) Xferred
  unfolding xfer
  write addr reg bytes buf = xfer (record {
    addr = addr;
    out = with_reg reg bytes;
    write_buf = buf;
    read_buf = 0;
    read_len = 0;
  })

  -- `read`, and `write_read` with its register.
  unfoldable pub read : (addr : ℕ) → Option ℕ → (read_buf read_len buf : ℕ) → Run (State D) Xferred
  unfolding xfer
  read addr reg read_buf read_len buf =
      if read_len == 0
      then pure (Xferred.ok 0)
      else xfer (record {
        addr = addr;
        out = with_reg reg [];
        write_buf = buf;
        read_buf = read_buf;
        read_len = read_len;
      })

  -- The wait of `probe` for the interrupt flag: whether it comes.
  unfoldable pub wait_flag : Run (State D) Bool
  unfolding poll twi_query_irq_flag
  wait_flag = do
    left ←
        poll dev_read dev_write 0xffff
          (do flag ← twi_query_irq_flag dev_read dev_write; pure (not flag))
    pure (not (left == 0))

  -- `probe`, once START has been sent.
  unfoldable pub probe_addr : ℕ → Run (State D) Bool
  unfolding wait_flag twi_get_status twi_send_addr twi_set_bits twi_clear_irq_flag
  probe_addr addr = do
    twi_send_addr dev_read dev_write addr false
    flag ← wait_flag
    if flag
        then (do
          st ← twi_get_status dev_read dev_write
          twi_set_bits dev_read dev_write stp_bit
          twi_clear_irq_flag dev_read dev_write
          pure (st == 0x18))
        else pure false

  -- `probe`.
  unfoldable pub probe : ℕ → Run (State D) Bool
  unfolding reset_and_wait twi_set_bits twi_clear_bits twi_wait_start_clear wait_flag twi_get_status
      probe_addr
  probe addr = do
    reset_and_wait
    twi_set_bits dev_read dev_write busen_bit
    twi_clear_bits dev_read dev_write ack_bit
    twi_set_bits dev_read dev_write sta_bit
    started ← twi_wait_start_clear dev_read dev_write
    if started
        then (do
          flag ← wait_flag
          if flag
              then (do
                st ← twi_get_status dev_read dev_write
                if not (st == 0x08) && not (st == 0x10) then pure false else probe_addr addr)
              else pure false)
        else pure false
