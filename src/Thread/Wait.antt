-- ===== src/Thread/Wait.antt =====
-- What src/thread.rs gives the IPC objects: blocking, waking, and the result of a wait.
use f1c100s_rs.Base.{ℕ, ◌+◌, ◌%◌, true, false, ◌&&◌, Option, none, some, ℤ, if◌then◌else◌, ltb}
use f1c100s_rs.Run.{ret, panic, Run, and_then}
use f1c100s_rs.Thread.Types.{
  Thread, ThreadState, is_waiting, Scheduler, max_threads, Machine, with_sched, ipc_ok, ipc_error,
  ipc_wait_sentinel,
}
use f1c100s_rs.Thread.Ready.{set_ready, clear_ready_if_empty}
use f1c100s_rs.Thread.Schedule.{put, do_schedule}
use f1c100s_rs.Thread.Api.{at, when_some, u64_mod}

-- The thread that `block_current` leaves behind.
unfoldable pub waiting : (now : ℕ) → Option ℕ → Thread → Thread
waiting now none t = record t {
  ipc_result = ipc_wait_sentinel;
  is_ipc_wait = true;
  state = ThreadState.blocked;
}
waiting now (some ticks) t = record t {
  ipc_result = ipc_wait_sentinel;
  is_ipc_wait = true;
  sleep_until = (now + ticks) % u64_mod;
  state = ThreadState.blocked_timeout;
}

-- `block_current`.
unfoldable pub block_current : Option ℕ → Run Machine (Unit {0})
unfolding waiting clear_ready_if_empty do_schedule
block_current timeout m =
    and_then
      (when_some m.sched.current_id
        (λ t m.
          let s = put m.sched.current_id (waiting m.sched.tick_count timeout t) m.sched in
          ret tt (with_sched m (clear_ready_if_empty t.priority s)))
        m)
      (λ _. do_schedule)

-- The thread that `unblock_thread` wakes.
abbrev pub woken : Thread → Thread
woken t = record t { ipc_result = ipc_ok; is_ipc_wait = false; sleep_until = 0 }

-- `unblock_thread` on the scheduler, at an index in range.
unfoldable pub unblock : ℕ → Scheduler → Scheduler
unfolding set_ready
unblock id s = elim (s.threads id) [
  | none ↦ s
  | some t ↦
      if is_waiting t.state && t.is_ipc_wait
      then set_ready id t.priority (put id (woken t) s)
      else s
]

-- `unblock_thread`.
unfoldable pub unblock_thread : ℕ → Run Machine (Unit {0})
unfolding unblock
unblock_thread id m =
    if ltb id max_threads then ret tt (with_sched m (unblock id m.sched)) else panic

-- `current_ipc_error`.
unfoldable pub current_ipc_error : Run Machine ℤ
current_ipc_error m =
    at m.sched.current_id (λ o m. elim o [ none ↦ ret ipc_error m | some t ↦ ret t.ipc_result m ]) m

-- `current_id`, and `thread_current`.
abbrev pub current_id : Machine → ℕ
current_id m = m.sched.current_id
