-- ===== src/I2c/Transaction.antt =====
-- Whole transfers of src/i2c.rs, from START to the wake-up of the waiting thread.
use f1c100s_rs.Base.{ℕ, ◌≡◌, Option, none, some, List, ◌++◌, ◌==◌, if◌then◌else◌}
use f1c100s_rs.Run.{and_then}
use f1c100s_rs.Thread.Types.{Thread, Machine}
use f1c100s_rs.I2c.{Twi, TwiMsg}
use f1c100s_rs.I2c.Core.{isr_end, wake, closed}
use f1c100s_rs.I2c.Xfer.{Request, write_msg, read_msg}
use f1c100s_rs.I2c.Controller.{Issue, IsController}
use f1c100s_rs.I2c.Script.{Event}
use f1c100s_rs.I2c.Leads.{serve}

-- The messages of a request with both phases.
abbrev both : Request → (ℕ → Option TwiMsg) × ℕ
both q =
    ((λ i. if i == 0 then some (write_msg q) else if i == 1 then some (read_msg q) else none), 2)

module _ {D : Type 0} (dev_read : ℕ → D → ℕ × D) (dev_write : ℕ → ℕ → D → D) (next : ℕ → ℕ → D → D)
    (status received : D → ℕ) (sent : D → List Issue)
    (dev : IsController dev_read dev_write next status received sent) where
  -- What a transfer ends with: the channel is closed without an error, its event is set, and then
  -- the handler looks whether the interrupt is to be enabled again.
  abbrev Completes : List Event → Event → Twi D → (mem : ℕ → ℕ) → List Issue → Machine → Type 0
  Completes es final t mem bytes m =
      (d : D) × (serve dev_read dev_write next status received sent dev es final (t, m)
        ≡ and_then (wake (record t { dev = d; mem = mem; ch = closed 0 (t.ch) }, m))
            (λ _. isr_end dev_read dev_write))
      × (sent d ≡ sent t.dev ++ bytes)
