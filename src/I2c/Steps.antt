-- ===== src/I2c/Steps.antt =====
-- The interrupt handler of src/i2c.rs on one event of the bus.
use mathlib.Core.List.{append-nil}
use f1c100s_rs.Base.{
  ℕ, ◌+◌, ◌-◌, ◌%◌, ◌≤◌, ◌<◌, ◌≡◌, ◌⊎◌, refl, sym, ap, ◌∙◌, subst, true, false, not, ◌||◌, some,
  List, [], ◌∷◌, ◌++◌, ltb, leb, ◌==◌, if◌then◌else◌, inl, inr, arith, lt→ltb, ge→ltb, eq→==,
}
use f1c100s_rs.Bits.{u32_mod}
use f1c100s_rs.Run.{Run, ret, and_then, pure, ◌>>=◌, ◌>>◌}
use f1c100s_rs.Thread.Types.{Machine}
use f1c100s_rs.I2c.{
  Twi, TwiMsg, XferStatus, State, is_running, twi_query_irq_flag, twi_read, addr_byte,
  twi_disable_irq, twi_enable_irq, twi_put_byte, twi_get_byte, twi_get_last_byte, twi_clear_bits,
  load, store_byte, ack_bit, twi_send_addr,
}
use f1c100s_rs.I2c.Core.{
  handle, process_msg, twi_core_process, isr_end, twi_isr, send_next, addr_acked, receive_next,
  receive_last, next_msg, wake, closed, twi_xfer_complete, negative, step_ptr,
}
use f1c100s_rs.I2c.Controller.{
  Issue, put, ask_start, asked, with_start, IsController, IsQuiet, twi_disable_irq-IsQuiet,
  twi_enable_irq-IsQuiet, twi_get_status_lem, twi_put_byte_lem, twi_get_byte_lem,
  twi_get_last_byte_lem, restart_lem, twi_clear_irq_flag-IsQuiet, twi_set_ack-IsQuiet,
  twi_clear_bits-IsQuiet, IsQuiet-bind, IsQuiet-if, IsQuiet-pure,
}

leb-false : (a b : ℕ) → b < a → leb a b ≡ false
leb-false a b h = ground arith

leb-same : (a b : ℕ) → a ≡ b → leb a b ≡ true
leb-same a b h = ground arith

module _ {D : Type 0} (dev_read : ℕ → D → ℕ × D) (dev_write : ℕ → ℕ → D → D) (next : ℕ → ℕ → D → D)
    (status received : D → ℕ) (sent : D → List Issue)
    (dev : IsController dev_read dev_write next status received sent) where
  -- The interrupt handler after an event.
  abbrev pub serve_one : (code byte : ℕ) → Run (State D) (Unit {0})
  serve_one code byte (t, m) =
      twi_isr dev_read dev_write (record t { dev = next code byte t.dev }, m)

  -- The message at hand.
  pub record IsAt (t : Twi D) (msg : TwiMsg) : Type 0 where
    pub going : t.ch.status ≡ XferStatus.running
    pub here : t.ch.msgs t.ch.msg_idx ≡ some msg
    pub left : t.ch.msg_idx < t.ch.msg_num

  -- The handler comes to the message at hand.
  pub serve_one-process :
      (code byte : ℕ) (t : Twi D) (msg : TwiMsg) (m : Machine)
      → code < 256
      → byte < 256
      → IsAt t msg
      → (d : D) × (serve_one code byte (t, m)
          ≡ and_then
              (process_msg dev_read dev_write code t.ch (some msg) (record t { dev = d }, m))
              (λ _. isr_end dev_read dev_write))
        × (received d ≡ byte)
        × (sent d ≡ sent t.dev)
  unfolding twi_isr twi_query_irq_flag twi_read twi_core_process
  serve_one-process code byte t msg m c8 b8 at =
      let (e1, e2, e3, flag) = dev.next_event code byte t.dev c8 b8 in
      let d0 = next code byte t.dev in
      let d1 = (dev_read 0x0c d0).1 in
      let (k1, k2, k3) = dev.read_keeps 0x0c d0 in
      let (_, d2, off, (o1, o2, o3)) =
        (twi_disable_irq-IsQuiet dev_read dev_write next status received sent dev).run
          (record t { dev = d1 }) m in
      let (d3, got, (s1, s2, s3)) =
        twi_get_status_lem dev_read dev_write next status received sent dev (record t { dev = d2 })
          m in
      let code' : status d2 ≡ code = o1 ∙ k1 ∙ e1 in
      let more : leb t.ch.msg_num t.ch.msg_idx ≡ false =
        leb-false t.ch.msg_num t.ch.msg_idx at.left in
      let last : Unit {0} → Run (State D) (Unit {0}) = λ _. isr_end dev_read dev_write in
      let irq_on : Run (State D) (Unit {0}) =
        twi_disable_irq dev_read dev_write
        >> (twi_core_process dev_read dev_write >> isr_end dev_read dev_write) in
      let on_state : ℕ → Run (State D) (Unit {0}) = λ state (t', m').
        (if leb t'.ch.msg_num t'.ch.msg_idx
            then twi_xfer_complete (negative 1)
            else process_msg dev_read dev_write state t'.ch (t'.ch.msgs t'.ch.msg_idx))
          (t', m') in
      (
        d3,
        (λ i. (if not (flag i) then irq_on else pure tt) (record t { dev = d1 }, m))
            ∙ (λ i. and_then (off i) (λ _ s. and_then (twi_core_process dev_read dev_write s) last))
            ∙ (λ i. and_then (and_then (got i) (λ state s. on_state state s)) last)
            ∙ (λ i. and_then (on_state (code' i) (record t { dev = d3 }, m)) last)
            ∙ (λ i.
                and_then
                  ((if more i
                      then twi_xfer_complete (negative 1)
                      else process_msg dev_read dev_write code t.ch (at.here i))
                    (record t { dev = d3 }, m))
                  last),
        s2 ∙ o2 ∙ k2 ∙ e2,
        s3 ∙ o3 ∙ k3 ∙ e3,
      )

  -- The handler comes to the `match`.
  serve_one-handle :
      (code byte : ℕ) (t : Twi D) (msg : TwiMsg) (m : Machine)
      → code < 256
      → byte < 256
      → IsAt t msg
      → (code == 0xf8 || code == 0) ≡ false
      → (d : D) × (serve_one code byte (t, m)
          ≡ and_then
              (handle dev_read dev_write code t.ch msg (record t { dev = d }, m))
              (λ _. isr_end dev_read dev_write))
        × (received d ≡ byte)
        × (sent d ≡ sent t.dev)
  unfolding process_msg
  serve_one-handle code byte t msg m c8 b8 at known =
      let (d, e, got, same) = serve_one-process code byte t msg m c8 b8 at in
      (
        d,
        e ∙ (λ i.
            and_then
              ((if known i
                  then twi_xfer_complete (negative code)
                  else handle dev_read dev_write code t.ch msg)
                (record t { dev = d }, m))
              (λ _. isr_end dev_read dev_write)),
        got,
        same,
      )

  isr_end_lem :
      (t : Twi D) (m : Machine)
      → t.ch.status ≡ XferStatus.running
      → (d : D) × (isr_end dev_read dev_write (t, m) ≡ ret tt (record t { dev = d }, m))
        × (sent d ≡ sent t.dev)
  unfolding isr_end
  isr_end_lem t m going =
      let (_, d, e, (s1, s2, s3)) =
        (twi_enable_irq-IsQuiet dev_read dev_write next status received sent dev).run t m in
      (
        d,
        (λ i. (if is_running (going i) then twi_enable_irq dev_read dev_write else pure tt) (t, m))
            ∙ e,
        s3,
      )

  -- An event after which the transfer goes on, with the bytes that are sent.
  abbrev pub Goes : (code byte : ℕ) → Twi D → Twi D → List Issue → Machine → Type 0
  Goes code byte t t' bytes m =
      (d : D) × (serve_one code byte (t, m) ≡ ret tt (record t' { dev = d }, m))
      × (sent d ≡ sent t.dev ++ bytes)

  goes :
      (code byte : ℕ) (t t' : Twi D) (msg : TwiMsg) (bytes : List Issue) (m : Machine)
      → code < 256
      → byte < 256
      → IsAt t msg
      → (code == 0xf8 || code == 0) ≡ false
      → t'.ch.status ≡ XferStatus.running
      → ((d : D)
          → received d ≡ byte
          → sent d ≡ sent t.dev
          → (d' : D) × (handle dev_read dev_write code t.ch msg (record t { dev = d }, m)
              ≡ ret tt (record t' { dev = d' }, m))
            × (sent d' ≡ sent t.dev ++ bytes))
      → Goes code byte t t' bytes m
  goes code byte t t' msg bytes m c8 b8 at known going step =
      let (d, e, got, same) = serve_one-handle code byte t msg m c8 b8 at known in
      let (d', e', out) = step d got same in
      let (d'', e'', same') = isr_end_lem (record t' { dev = d' }) m going in
      (d'', e ∙ (λ i. and_then (e' i) (λ _. isr_end dev_read dev_write)) ∙ e'', same' ∙ out)

  -- The last event of a transfer: the channel is closed without an error, and its event set.
  abbrev pub Ends : (code byte : ℕ) → Twi D → Twi D → List Issue → Machine → Type 0
  Ends code byte t t' bytes m =
      (d : D) × (serve_one code byte (t, m)
        ≡ and_then (wake (record t' { dev = d; ch = closed 0 (t'.ch) }, m))
            (λ _. isr_end dev_read dev_write))
      × (sent d ≡ sent t.dev ++ bytes)

  ends :
      (code byte : ℕ) (t t' : Twi D) (msg : TwiMsg) (bytes : List Issue) (m : Machine)
      → code < 256
      → byte < 256
      → IsAt t msg
      → (code == 0xf8 || code == 0) ≡ false
      → ((d : D)
          → received d ≡ byte
          → sent d ≡ sent t.dev
          → (d' : D) × (handle dev_read dev_write code t.ch msg (record t { dev = d }, m)
              ≡ wake (record t' { dev = d'; ch = closed 0 (t'.ch) }, m))
            × (sent d' ≡ sent t.dev ++ bytes))
      → Ends code byte t t' bytes m
  ends code byte t t' msg bytes m c8 b8 at known step =
      let (d, e, got, same) = serve_one-handle code byte t msg m c8 b8 at known in
      let (d', e', out) = step d got same in
      (d', e ∙ (λ i. and_then (e' i) (λ _. isr_end dev_read dev_write)), out)

  -- The code is one of two that the handler treats alike.
  by_code :
      (a b code byte : ℕ) (t t' : Twi D) (bytes : List Issue) (m : Machine)
      → (code ≡ a) ⊎ (code ≡ b)
      → Goes a byte t t' bytes m
      → Goes b byte t t' bytes m
      → Goes code byte t t' bytes m
  by_code a b code byte t t' bytes m (inl e) h h' = subst (λ c. Goes c byte t t' bytes m) (sym e) h
  by_code a b code byte t t' bytes m (inr e) h h' = subst (λ c. Goes c byte t t' bytes m) (sym e) h'

  -- START, or a repeated START: the address is sent.
  pub start-Goes :
      (code byte : ℕ) (t : Twi D) (msg : TwiMsg) (m : Machine)
      → (code ≡ 0x08) ⊎ (code ≡ 0x10)
      → byte < 256
      → IsAt t msg
      → Goes code byte t t (put (addr_byte dev_read dev_write msg.addr msg.read) ∷ []) m
  unfolding handle twi_send_addr
  start-Goes code byte t msg m started b8 at =
      let b = addr_byte dev_read dev_write msg.addr msg.read in
      let step : (d : D)
          → received d ≡ byte
          → sent d ≡ sent t.dev
          → (d' : D) × (twi_send_addr dev_read dev_write msg.addr msg.read (record t { dev = d }, m)
              ≡ ret tt (record t { dev = d' }, m))
            × (sent d' ≡ sent t.dev ++ put b ∷ []) =
        λ d got same.
          let (d', e, out) =
            twi_put_byte_lem dev_read dev_write next status received sent dev b
              (record t { dev = d }) m in
          (d', e, out ∙ ap (λ l. l ++ put b ∷ []) same) in
      by_code 0x08 0x10 code byte t t (put b ∷ []) m started
        (goes 0x08 byte t t msg (put b ∷ []) m (omega arith) b8 at refl at.going step)
        (goes 0x10 byte t t msg (put b ∷ []) m (omega arith) b8 at refl at.going step)

  abbrev pub at_ptr : ℕ → Twi D → Twi D
  at_ptr p t = record t { ch = record (t.ch) { msg_ptr = p } }

  -- The address or a byte is acknowledged, and a byte is left.
  pub byte-Goes :
      (code byte : ℕ) (t : Twi D) (msg : TwiMsg) (m : Machine)
      → (code ≡ 0x18) ⊎ (code ≡ 0x28)
      → byte < 256
      → IsAt t msg
      → t.ch.msg_ptr < msg.len
      → Goes code byte t (at_ptr (t.ch.msg_ptr + 1) t) (put (t.mem (msg.buf + t.ch.msg_ptr)) ∷ []) m
  unfolding handle send_next
  byte-Goes code byte t msg m acked b8 at more =
      let t' = at_ptr (t.ch.msg_ptr + 1) t in
      let b = t.mem (msg.buf + t.ch.msg_ptr) in
      let yes_more : ltb t.ch.msg_ptr msg.len ≡ true = lt→ltb _ _ more in
      let step : (d : D)
          → received d ≡ byte
          → sent d ≡ sent t.dev
          → (d' : D) × (send_next dev_read dev_write t.ch msg (record t { dev = d }, m)
              ≡ ret tt (record t' { dev = d' }, m))
            × (sent d' ≡ sent t.dev ++ put b ∷ []) =
        λ d got same.
          let (d', e, out) =
            twi_put_byte_lem dev_read dev_write next status received sent dev b
              (record t { dev = d }) m in
          (d', rw (yes_more, e) refl, out ∙ ap (λ l. l ++ put b ∷ []) same) in
      by_code 0x18 0x28 code byte t t' (put b ∷ []) m acked
        (goes 0x18 byte t t' msg (put b ∷ []) m (omega arith) b8 at refl at.going step)
        (goes 0x28 byte t t' msg (put b ∷ []) m (omega arith) b8 at refl at.going step)

  abbrev pub next_at : Twi D → Twi D
  next_at t = record t { ch = record (t.ch) { msg_idx = t.ch.msg_idx + 1; msg_ptr = 0 } }

  -- The other branch of `send_next`.
  abbrev put_next : Twi D → TwiMsg → Run (State D) (Unit {0})
  put_next t msg = do
    byte ← load (msg.buf + t.ch.msg_ptr)
    twi_put_byte dev_read dev_write byte
    step_ptr dev_read dev_write t.ch

  next_msg-restart :
      (t : Twi D) (m : Machine)
      → t.ch.msg_idx + 1 < t.ch.msg_num
      → (d : D) × (next_msg dev_read dev_write t.ch (t, m)
          ≡ ret tt (record (next_at t) { dev = d }, m))
        × (sent d ≡ with_start (sent t.dev))
  unfolding next_msg
  next_msg-restart t m more =
      let (d, e, out) =
        restart_lem dev_read dev_write next status received sent dev (next_at t) m in
      (d, rw (leb-false t.ch.msg_num (t.ch.msg_idx + 1) more) e, out)

  next_msg-end :
      (t : Twi D) (m : Machine)
      → t.ch.msg_num ≡ t.ch.msg_idx + 1
      → next_msg dev_read dev_write t.ch (t, m) ≡ wake (record t { ch = closed 0 (t.ch) }, m)
  unfolding next_msg twi_xfer_complete
  next_msg-end t m last = rw (leb-same t.ch.msg_num (t.ch.msg_idx + 1) last) refl

  -- The bytes of a message are all sent, and another message follows: a START is asked for.
  pub sent-Goes :
      (code byte : ℕ) (t : Twi D) (msg : TwiMsg) (m : Machine)
      → (code ≡ 0x18) ⊎ (code ≡ 0x28)
      → byte < 256
      → IsAt t msg
      → msg.len ≤ t.ch.msg_ptr
      → t.ch.msg_idx + 1 < t.ch.msg_num
      → asked (sent t.dev) ≡ false
      → Goes code byte t (next_at t) (ask_start ∷ []) m
  unfolding handle send_next
  sent-Goes code byte t msg m acked b8 at over more idle =
      let step : (d : D)
          → received d ≡ byte
          → sent d ≡ sent t.dev
          → (d' : D) × (send_next dev_read dev_write t.ch msg (record t { dev = d }, m)
              ≡ ret tt (record (next_at t) { dev = d' }, m))
            × (sent d' ≡ sent t.dev ++ ask_start ∷ []) =
        λ d got same.
          let (d', e, out) = next_msg-restart (record t { dev = d }) m more in
          (
            d',
            (λ i.
                  (if ge→ltb t.ch.msg_ptr msg.len over i
                      then put_next t msg
                      else next_msg dev_read dev_write t.ch)
                    (record t { dev = d }, m))
                ∙ e,
            out
                ∙ ap with_start same
                ∙ (λ i. if idle i then sent t.dev else sent t.dev ++ ask_start ∷ []),
          ) in
      by_code 0x18 0x28 code byte t (next_at t) (ask_start ∷ []) m acked
        (goes 0x18 byte t (next_at t) msg (ask_start ∷ []) m (omega arith) b8 at refl at.going step)
        (goes 0x28 byte t (next_at t) msg (ask_start ∷ []) m (omega arith) b8 at refl at.going step)

  -- All messages are sent.
  pub sent-Ends :
      (byte : ℕ) (t : Twi D) (msg : TwiMsg) (m : Machine)
      → byte < 256
      → IsAt t msg
      → msg.len ≤ t.ch.msg_ptr
      → t.ch.msg_num ≡ t.ch.msg_idx + 1
      → Ends 0x28 byte t t [] m
  unfolding handle send_next
  sent-Ends byte t msg m b8 at over last =
      ends 0x28 byte t t msg [] m (omega arith) b8 at refl λ d got same. (
        d,
        (λ i.
              (if ge→ltb t.ch.msg_ptr msg.len over i
                  then put_next t msg
                  else next_msg dev_read dev_write t.ch)
                (record t { dev = d }, m))
            ∙ next_msg-end (record t { dev = d }) m last,
        same ∙ sym (append-nil (sent t.dev)),
      )

  -- The address of a read is acknowledged.
  pub acked-Goes :
      (byte : ℕ) (t : Twi D) (msg : TwiMsg) (m : Machine)
      → byte < 256
      → IsAt t msg
      → Goes 0x40 byte t t [] m
  unfolding handle addr_acked
  acked-Goes byte t msg m b8 at =
      goes 0x40 byte t t msg [] m (omega arith) b8 at refl at.going λ d got same.
        let quiet : IsQuiet dev_read dev_write next status received sent dev
            (addr_acked dev_read dev_write msg) =
          IsQuiet-bind dev_read dev_write next status received sent dev _ _
            (IsQuiet-if dev_read dev_write next status received sent dev (ltb 1 msg.len) _ _
              (twi_set_ack-IsQuiet dev_read dev_write next status received sent dev)
              (IsQuiet-pure dev_read dev_write next status received sent dev tt))
            (λ _. twi_clear_irq_flag-IsQuiet dev_read dev_write next status received sent dev) in
        let (_, d', e, (s1, s2, s3)) = quiet.run (record t { dev = d }) m in
        (d', e, s3 ∙ same ∙ sym (append-nil (sent t.dev)))

  -- A byte has come in, which is not the last.
  abbrev pub with_byte : (p b : ℕ) → Twi D → Twi D
  with_byte p b t = record t { mem = λ q. if q == p then b else t.mem q }

  pub byte_in-Goes :
      (byte : ℕ) (t : Twi D) (msg : TwiMsg) (m : Machine)
      → byte < 256
      → IsAt t msg
      → t.ch.msg_ptr < msg.len
      → Goes 0x50 byte t
          (at_ptr (t.ch.msg_ptr + 1) (with_byte (msg.buf + t.ch.msg_ptr) byte t))
          []
          m
  unfolding handle receive_next twi_get_byte
  byte_in-Goes byte t msg m b8 at more =
      goes 0x50 byte t (at_ptr (t.ch.msg_ptr + 1) (with_byte (msg.buf + t.ch.msg_ptr) byte t)) msg
        [] m (omega arith) b8 at refl at.going
        λ d got same.
          let ack : Run (State D) (Unit {0}) =
            if t.ch.msg_ptr + 2 == msg.len
            then twi_clear_bits dev_read dev_write ack_bit
            else pure tt in
          let keep : ℕ → Run (State D) (Unit {0}) =
            λ b. store_byte (msg.buf + t.ch.msg_ptr) b >> step_ptr dev_read dev_write t.ch in
          let take : Run (State D) (Unit {0}) = twi_get_byte dev_read dev_write >>= keep in
          let quiet : IsQuiet dev_read dev_write next status received sent dev ack =
            IsQuiet-if dev_read dev_write next status received sent dev
              (t.ch.msg_ptr + 2 == msg.len) _ _
              (twi_clear_bits-IsQuiet dev_read dev_write next status received sent dev ack_bit)
              (IsQuiet-pure dev_read dev_write next status received sent dev tt) in
          let (_, d1, e1, (s1, s2, s3)) = quiet.run (record t { dev = d }) m in
          let (d2, e2, (r1, r2, r3)) =
            twi_get_byte_lem dev_read dev_write next status received sent dev
              (record t { dev = d1 }) m in
          (
            d2,
            (λ i.
                  (if lt→ltb t.ch.msg_ptr msg.len more i
                      then ack >> take
                      else twi_xfer_complete (negative 0x50))
                    (record t { dev = d }, m))
                ∙ (λ i. and_then (e1 i) (λ _. take))
                ∙ (λ i. and_then (e2 i) keep)
                ∙ (λ i. keep ((s2 ∙ got) i) (record t { dev = d2 }, m)),
            r3 ∙ s3 ∙ same ∙ sym (append-nil (sent t.dev)),
          )

  -- The last byte of the last message has come in.
  pub last_in-Ends :
      (byte : ℕ) (t : Twi D) (msg : TwiMsg) (m : Machine)
      → byte < 256
      → IsAt t msg
      → t.ch.msg_ptr + 1 ≡ msg.len
      → msg.len < u32_mod
      → t.ch.msg_num ≡ t.ch.msg_idx + 1
      → Ends 0x58 byte t (with_byte (msg.buf + t.ch.msg_ptr) byte t) [] m
  unfolding handle receive_last
  last_in-Ends byte t msg m b8 at final small last =
      ends 0x58 byte t (with_byte (msg.buf + t.ch.msg_ptr) byte t) msg [] m (omega arith) b8 at refl
        λ d got same.
          let keep : ℕ → Run (State D) (Unit {0}) =
            λ b. store_byte (msg.buf + t.ch.msg_ptr) b >> next_msg dev_read dev_write t.ch in
          let at_last : t.ch.msg_ptr ≡ (msg.len + u32_mod - 1) % u32_mod = omega arith in
          let (d2, e2, (r1, r2, r3)) =
            twi_get_last_byte_lem dev_read dev_write next status received sent dev
              (record t { dev = d }) m in
          (
            d2,
            (λ i.
                  (if eq→== t.ch.msg_ptr ((msg.len + u32_mod - 1) % u32_mod) at_last i
                      then twi_get_last_byte dev_read dev_write >>= keep
                      else twi_xfer_complete (negative 0x58))
                    (record t { dev = d }, m))
                ∙ (λ i. and_then (e2 i) keep)
                ∙ (λ i. keep (got i) (record t { dev = d2 }, m))
                ∙ next_msg-end (with_byte (msg.buf + t.ch.msg_ptr) byte (record t { dev = d2 })) m
                    last,
            r3 ∙ same ∙ sym (append-nil (sent t.dev)),
          )
