-- ===== src/I2c/Core.antt =====
-- The interrupt handler of src/i2c.rs: one step of a transfer for each status of the controller.
use f1c100s_rs.Base.{ℕ, ◌+◌, ◌-◌, ◌%◌, ◌||◌, Option, none, some, ltb, leb, ◌==◌, if◌then◌else◌}
use f1c100s_rs.Bits.{u32_mod}
use f1c100s_rs.Run.{Run, ◌>>=◌, ◌>>◌, pure, focus}
use f1c100s_rs.Ipc.EventFlags
use f1c100s_rs.Ipc.EventFlags.{EventFlags}
use f1c100s_rs.I2c.{
  Twi, TwiChannel, TwiMsg, XferStatus, State, is_running, on_ch, get_ch, load, store_byte,
  twi_get_status, twi_put_byte, twi_send_addr, twi_set_bits, twi_clear_bits, twi_clear_irq_flag,
  twi_get_byte, twi_get_last_byte, twi_wait_start_clear, twi_query_irq_flag, twi_disable_irq,
  twi_enable_irq, ack_bit, sta_bit,
}

abbrev pub wakeup_event : ℕ
wakeup_event = 1

-- A negative code of the handler, as a `usize`.
abbrev pub negative : ℕ → ℕ
negative code = (u32_mod - code) % u32_mod

abbrev pub set_event : {D : Type 0} → Twi D → EventFlags → Twi D
set_event t e = record t { ch = record (t.ch) { event = e } }

-- The channel when a transfer is over; a code is not 0.
abbrev pub closed : ℕ → TwiChannel → TwiChannel
closed code ch = record ch {
  msgs = λ _. none;
  msg_num = 0;
  msg_ptr = 0;
  status = XferStatus.idle;
  msg_idx = if code == 0 then 0 else code;
}

-- A call of `EventFlags::set` on the flags of the channel.
unfoldable pub wake : {D : Type 0} → Run (State D) (Unit {0})
wake (t, m) = focus (λ t'. t'.ch.event) set_event t (EventFlags.set wakeup_event (t.ch.event, m))

-- `twi_xfer_complete`.
unfoldable pub twi_xfer_complete : {D : Type 0} → ℕ → Run (State D) (Unit {0})
unfolding wake
twi_xfer_complete code = do on_ch (closed code); wake

module _ {D : Type 0} (dev_read : ℕ → D → ℕ × D) (dev_write : ℕ → ℕ → D → D) where
  -- A repeated START for the next message.
  unfoldable pub restart : Run (State D) (Unit {0})
  unfolding twi_set_bits twi_clear_irq_flag twi_wait_start_clear
  restart = do
    twi_set_bits dev_read dev_write sta_bit
    twi_clear_irq_flag dev_read dev_write
    cleared ← twi_wait_start_clear dev_read dev_write
    pure tt

  -- The message is over.
  unfoldable pub next_msg : TwiChannel → Run (State D) (Unit {0})
  unfolding twi_xfer_complete restart
  next_msg ch = do
    on_ch (λ c. record c { msg_idx = ch.msg_idx + 1; msg_ptr = 0 })
    if leb ch.msg_num (ch.msg_idx + 1) then twi_xfer_complete 0 else restart

  abbrev pub step_ptr : TwiChannel → Run (State D) (Unit {0})
  step_ptr ch = on_ch (λ c. record c { msg_ptr = ch.msg_ptr + 1 })

  -- The states 0x18, 0x28 and 0xD0: the next byte, or the end of the message.
  unfoldable pub send_next : TwiChannel → TwiMsg → Run (State D) (Unit {0})
  unfolding twi_put_byte next_msg
  send_next ch msg =
      if ltb ch.msg_ptr msg.len
      then (do
        byte ← load (msg.buf + ch.msg_ptr)
        twi_put_byte dev_read dev_write byte
        step_ptr ch)
      else next_msg ch

  -- The state 0x40.
  unfoldable pub addr_acked : TwiMsg → Run (State D) (Unit {0})
  unfolding twi_set_bits twi_clear_irq_flag
  addr_acked msg = do
    if ltb 1 msg.len then twi_set_bits dev_read dev_write ack_bit else pure tt
    twi_clear_irq_flag dev_read dev_write

  -- The state 0x50.
  unfoldable pub receive_next : TwiChannel → TwiMsg → Run (State D) (Unit {0})
  unfolding twi_clear_bits twi_get_byte twi_xfer_complete
  receive_next ch msg =
      if ltb ch.msg_ptr msg.len
      then (do
        if ch.msg_ptr + 2 == msg.len then twi_clear_bits dev_read dev_write ack_bit else pure tt
        byte ← twi_get_byte dev_read dev_write
        store_byte (msg.buf + ch.msg_ptr) byte
        step_ptr ch)
      else twi_xfer_complete (negative 0x50)

  -- The state 0x58.
  unfoldable pub receive_last : TwiChannel → TwiMsg → Run (State D) (Unit {0})
  unfolding twi_get_last_byte next_msg twi_xfer_complete
  receive_last ch msg =
      if ch.msg_ptr == (msg.len + u32_mod - 1) % u32_mod
      then (do
        byte ← twi_get_last_byte dev_read dev_write
        store_byte (msg.buf + ch.msg_ptr) byte
        next_msg ch)
      else twi_xfer_complete (negative 0x58)

  -- The `match` of `twi_core_process`, after the states 0xF8 and 0x00.
  unfoldable pub handle : (state : ℕ) → TwiChannel → TwiMsg → Run (State D) (Unit {0})
  unfolding twi_send_addr send_next addr_acked receive_next receive_last twi_xfer_complete
  handle state ch msg =
      if state == 0x08 || state == 0x10
      then twi_send_addr dev_read dev_write msg.addr msg.read
      else if state == 0xd8 || state == 0x20
      then twi_xfer_complete (negative 0x20)
      else if state == 0x18
      then send_next ch msg
      else if state == 0xd0 || state == 0x28
      then send_next ch msg
      else if state == 0x30
      then twi_xfer_complete (negative 0x30)
      else if state == 0x38
      then twi_xfer_complete (negative 0x38)
      else if state == 0x40
      then addr_acked msg
      else if state == 0x48
      then twi_xfer_complete (negative 0x48)
      else if state == 0x50
      then receive_next ch msg
      else if state == 0x58
      then receive_last ch msg
      else twi_xfer_complete (negative state)

  -- `twi_core_process` with the message at hand.
  unfoldable pub process_msg : (state : ℕ) → TwiChannel → Option TwiMsg → Run (State D) (Unit {0})
  unfolding handle twi_xfer_complete
  process_msg state ch none = twi_xfer_complete (negative 1)
  process_msg state ch (some msg) =
      if state == 0xf8 || state == 0
      then twi_xfer_complete (negative state)
      else handle state ch msg

  -- `twi_core_process`.
  unfoldable pub twi_core_process : Run (State D) (Unit {0})
  unfolding twi_get_status process_msg twi_xfer_complete
  twi_core_process = do
    state ← twi_get_status dev_read dev_write
    ch ← get_ch
    if leb ch.msg_num ch.msg_idx
        then twi_xfer_complete (negative 1)
        else process_msg state ch (ch.msgs ch.msg_idx)

  -- The interrupt is enabled again while the transfer goes on.
  unfoldable pub isr_end : Run (State D) (Unit {0})
  unfolding twi_enable_irq
  isr_end = do
    ch ← get_ch
    if is_running ch.status then twi_enable_irq dev_read dev_write else pure tt

  -- `twi_isr`.
  unfoldable pub twi_isr : Run (State D) (Unit {0})
  unfolding twi_query_irq_flag twi_disable_irq twi_core_process isr_end
  twi_isr = do
    flag ← twi_query_irq_flag dev_read dev_write
    if flag then (do twi_disable_irq dev_read dev_write; twi_core_process; isr_end) else pure tt
