-- ===== src/Ipc/EventFlags/Cleared.antt =====
-- What a woken thread of src/ipc/event.rs is told when it asked for the flags to be cleared.
use f1c100s_rs.Base.{ℕ, ◌<◌, ◌≡◌, refl, true, none, some, lt→ltb}
use f1c100s_rs.Bits.{u32_mod}
use f1c100s_rs.Bits.Lowest.{bit_and-away}
use f1c100s_rs.Run.{ret, and_then}
use f1c100s_rs.Thread.Types.{Machine, max_threads, with_sched}
use f1c100s_rs.Thread.Schedule.{interrupt_enable}
use f1c100s_rs.Thread.Wait.{unblock_thread, unblock}
use f1c100s_rs.Ipc.EventFlags.{
  EventFlags, Waiter, ok, condition_met, check_one, clear_if, set_params, without_waiter,
  event_waited,
}

-- The round of `check_waiters` that wakes a thread with `clear_on_exit` clears the flags that it
-- waits for, so that the thread, when it runs on, is told that none of them was set.
pub event_waited-zero :
    (id cpsr : ℕ) (w : Waiter) (o : EventFlags) (m : Machine)
    → id < max_threads
    → w.flags < u32_mod
    → o.wait_params id ≡ some w
    → w.clear_on_exit ≡ true
    → condition_met o.flags w.flags w.mode ≡ true
    → (o' : EventFlags) × (m' : Machine) × (and_then
          (check_one id (o, m))
          (λ _. event_waited id w.flags true true cpsr)
        ≡ ret (ok 0) (o', m'))
unfolding check_one unblock_thread event_waited
event_waited-zero id cpsr w o m low word e clears met =
    let left = without_waiter id (clear_if true w.flags o) in
    (
      set_params id none (clear_if true w.flags left),
      interrupt_enable cpsr (with_sched m (unblock id m.sched)),
      rw (e, met, clears, lt→ltb id max_threads low, bit_and-away o.flags w.flags word) refl,
    )
