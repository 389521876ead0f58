-- ===== src/I2c/Closing.antt =====
-- How a transfer of src/i2c.rs is closed for the thread that waits for it.
use f1c100s_rs.Base.{ℕ, ◌≡◌, refl, sym, subst, List}
use f1c100s_rs.Run.{Outcome, ret, and_then}
use f1c100s_rs.Thread.Types.{Thread, Machine}
use f1c100s_rs.Ipc.EventFlags.Wakes.{IsAwaited, IsWoken, set_wakes}
use f1c100s_rs.I2c.{Twi, XferStatus, State}
use f1c100s_rs.I2c.Core.{isr_end, wake, closed, set_event}
use f1c100s_rs.I2c.Controller.{Issue}

-- The handler has returned, the channel is idle and its index is 0, the number of messages, which
-- the waiting thread takes for success; this thread is ready. The memory is `mem`, and `log` is what
-- was put on the bus.
pub record Succeeded {D : Type 0} (sent : D → List Issue) (w : ℕ) (mem : ℕ → ℕ) (log : List Issue)
    (out : Outcome (State D) (Unit {0})) : Type 0 where
  pub after : Twi D
  pub machine : Machine
  pub returns : out ≡ ret tt (after, machine)
  pub idle : after.ch.status ≡ XferStatus.idle
  pub at_zero : after.ch.msg_idx ≡ 0
  pub no_messages : after.ch.msg_num ≡ 0
  pub wakes : IsWoken w after.ch.event machine
  pub memory : after.mem ≡ mem
  pub issued : sent after.dev ≡ log

module _ {D : Type 0} (dev_read : ℕ → D → ℕ × D) (dev_write : ℕ → ℕ → D → D)
    (sent : D → List Issue) where
  closing :
      (w : ℕ) (th : Thread) (t : Twi D) (m : Machine)
      → IsAwaited w th t.ch.event m
      → Succeeded sent w t.mem
          (sent t.dev)
          (and_then (wake (record t { ch = closed 0 (t.ch) }, m)) (λ _. isr_end dev_read dev_write))
  unfolding wake isr_end
  closing w th t m h =
      let (o', m', ran, woke) = set_wakes w th t.ch.event m h in
      record {
        after = set_event (record t { ch = closed 0 (t.ch) }) o';
        machine = m';
        returns = rw ran refl;
        idle = refl;
        at_zero = refl;
        no_messages = refl;
        wakes = woke;
        memory = refl;
        issued = refl;
      }

  pub closed-Succeeded :
      (w : ℕ) (th : Thread) (t : Twi D) (m : Machine) (log : List Issue)
      (out : Outcome (State D) (Unit {0}))
      → IsAwaited w th t.ch.event m
      → sent t.dev ≡ log
      → out
        ≡ and_then (wake (record t { ch = closed 0 (t.ch) }, m)) (λ _. isr_end dev_read dev_write)
      → Succeeded sent w t.mem log out
  closed-Succeeded w th t m log out h same ran =
      subst (λ l. Succeeded sent w t.mem l out) same
        (subst (λ o. Succeeded sent w t.mem (sent t.dev) o) (sym ran) (closing w th t m h))
