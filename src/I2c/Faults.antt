-- ===== src/I2c/Faults.antt =====
-- The statuses of src/i2c.rs that end a transfer before its last byte.
use f1c100s_rs.Base.{ℕ, ◌≡◌, ◌≢◌, ◌<◌, refl, sym, ◌∙◌, subst, some, List, arith}
use f1c100s_rs.Run.{and_then}
use f1c100s_rs.Thread.Types.{Thread, Machine}
use f1c100s_rs.I2c.{Twi, TwiMsg, State}
use f1c100s_rs.I2c.Core.{isr_end, wake, closed, process_msg, handle, twi_xfer_complete, negative}
use f1c100s_rs.I2c.Controller.{Issue, IsController}
use f1c100s_rs.I2c.Steps.{serve_one, serve_one-process, IsAt}

-- The statuses of a failure, but for the bus error.
pub data IsFault (code : ℕ) : Type 0 where
  addr_nak : code ≡ 0x20 → IsFault code
  addr2_nak : code ≡ 0xd8 → IsFault code
  data_nak : code ≡ 0x30 → IsFault code
  arb_lost : code ≡ 0x38 → IsFault code
  read_nak : code ≡ 0x48 → IsFault code
  idle_bus : code ≡ 0xf8 → IsFault code

module _ {D : Type 0} (dev_read : ℕ → D → ℕ × D) (dev_write : ℕ → ℕ → D → D) (next : ℕ → ℕ → D → D)
    (status received : D → ℕ) (sent : D → List Issue)
    (dev : IsController dev_read dev_write next status received sent) where
  -- The channel is closed with a code that is not 0, and the event set.
  abbrev pub Fails : (code byte : ℕ) → Twi D → Machine → Type 0
  Fails code byte t m =
      (reason : ℕ) × (d : D) × (serve_one dev_read dev_write next status received sent dev code byte
          (t, m)
        ≡ and_then (wake (record t { dev = d; ch = closed reason (t.ch) }, m))
            (λ _. isr_end dev_read dev_write))
      × ((closed reason (t.ch)).msg_idx ≢ (closed reason (t.ch)).msg_num)
      × (sent d ≡ sent t.dev)

  fails :
      (code reason byte : ℕ) (t : Twi D) (msg : TwiMsg) (m : Machine)
      → code < 256
      → byte < 256
      → IsAt dev_read dev_write next status received sent dev t msg
      → (closed (negative reason) (t.ch)).msg_idx ≢ 0
      → ((s : State D)
          → process_msg dev_read dev_write code (t.ch) (some msg) s
            ≡ twi_xfer_complete (negative reason) s)
      → Fails code byte t m
  unfolding twi_xfer_complete
  fails code reason byte t msg m c8 b8 at some_code step =
      let (d, e, got, same) =
        serve_one-process dev_read dev_write next status received sent dev code byte t msg m c8 b8
          at in
      (
        negative reason,
        d,
        e ∙ (λ i. and_then (step (record t { dev = d }, m) i) (λ _. isr_end dev_read dev_write)),
        some_code,
        same,
      )

  -- A transfer that meets a NAK, a lost arbitration or an idle bus is closed, and its event set;
  -- the index that it leaves is not the number of messages, by which the waiting thread sees that
  -- the transfer has failed.
  pub fault-Fails :
      (code byte : ℕ) (t : Twi D) (msg : TwiMsg) (m : Machine)
      → byte < 256
      → IsAt dev_read dev_write next status received sent dev t msg
      → IsFault code
      → Fails code byte t m
  unfolding process_msg handle
  fault-Fails code byte t msg m b8 at (addr_nak e) =
      subst (λ c. Fails c byte t m) (sym e)
        (fails 0x20 0x20 byte t msg m (omega arith) b8 at (omega arith) (λ s. refl))
  fault-Fails code byte t msg m b8 at (addr2_nak e) =
      subst (λ c. Fails c byte t m) (sym e)
        (fails 0xd8 0x20 byte t msg m (omega arith) b8 at (omega arith) (λ s. refl))
  fault-Fails code byte t msg m b8 at (data_nak e) =
      subst (λ c. Fails c byte t m) (sym e)
        (fails 0x30 0x30 byte t msg m (omega arith) b8 at (omega arith) (λ s. refl))
  fault-Fails code byte t msg m b8 at (arb_lost e) =
      subst (λ c. Fails c byte t m) (sym e)
        (fails 0x38 0x38 byte t msg m (omega arith) b8 at (omega arith) (λ s. refl))
  fault-Fails code byte t msg m b8 at (read_nak e) =
      subst (λ c. Fails c byte t m) (sym e)
        (fails 0x48 0x48 byte t msg m (omega arith) b8 at (omega arith) (λ s. refl))
  fault-Fails code byte t msg m b8 at (idle_bus e) =
      subst (λ c. Fails c byte t m) (sym e)
        (fails 0xf8 0xf8 byte t msg m (omega arith) b8 at (omega arith) (λ s. refl))
