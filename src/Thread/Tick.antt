-- ===== src/Thread/Tick.antt =====
-- `sched_tick` of src/thread.rs, called from the timer interrupt.
use f1c100s_rs.Base.{
  ℕ, zero, suc, ◌+◌, ◌-◌, ◌%◌, Bool, false, not, ◌&&◌, none, some, ltb, leb, ◌==◌, if◌then◌else◌,
  update,
}
use f1c100s_rs.Bits.{bit_and, bit_or, bit, not32, trailing_zeros}
use f1c100s_rs.Run.{ret, Run}
use f1c100s_rs.Thread.Types.{
  Thread, ThreadState, is_running, is_timed, Scheduler, max_threads, Machine, with_sched,
  ipc_timeout,
}
use f1c100s_rs.Thread.Ready.{set_ready}
use f1c100s_rs.Thread.Schedule.{put, with_state, do_schedule_from_isr}
use f1c100s_rs.Thread.Api.{at, u64_mod}

-- The thread whose time has come.
unfoldable pub timed_out : Thread → Thread
timed_out t =
    if t.is_ipc_wait
    then record t { ipc_result = ipc_timeout; is_ipc_wait = false; sleep_until = 0 }
    else record t { sleep_until = 0 }

-- `t` waits for a tick that is not after `now`.
unfoldable pub is_due : ℕ → Thread → Bool
is_due now t = is_timed t.state && (not (t.sleep_until == 0) && leb t.sleep_until now)

-- One round of the first loop.
unfoldable pub wake_one : ℕ → ℕ → Scheduler → Scheduler
unfolding timed_out is_due set_ready
wake_one now id s = elim (s.threads id) [
  | none ↦ s
  | some t ↦ if is_due now t then set_ready id t.priority (put id (timed_out t) s) else s
]

-- The first loop, from the slot `id` with `n` slots left.
unfoldable pub wake_from : ℕ → ℕ → ℕ → Scheduler → Scheduler
wake_from now zero id s = s
wake_from now (suc n) id s = wake_from now n (id + 1) (wake_one now id s)

-- The block on pending signals takes the deliverable ones out and puts them back.
unfoldable pub keep_signals : ℕ → Scheduler → Scheduler
keep_signals cur s =
    if ltb cur max_threads
    then elim (s.threads cur) [
      | none ↦ s
      | some t ↦
          let deliverable = bit_and t.sig_pending (not32 t.sig_mask) in
          if deliverable == 0
          then s
          else put cur
              (record t {
                sig_pending = bit_or (bit_and t.sig_pending (not32 deliverable)) deliverable;
              })
              s
    ]
    else s

-- The thread after a tick of its slice.
abbrev pub ticked : Thread → Thread
ticked t = record t { tick = if ltb 0 t.tick then t.tick - 1 else t.tick }

-- The thread whose slice is used up goes back to the ready ones.
abbrev pub expired : Thread → Thread
expired t = record t { tick = t.init_tick; state = ThreadState.ready }

-- The last block: a thread of higher priority takes over.
unfoldable pub preempt : Run Machine (Unit {0})
unfolding do_schedule_from_isr
preempt m =
    if m.sched.ready_bitmap == 0
    then ret tt m
    else at m.sched.current_id
        (λ o m.
          let cur_prio : ℕ = elim o [ none ↦ 31 | some t ↦ t.priority ] in
          if ltb (trailing_zeros m.sched.ready_bitmap) cur_prio
          then do_schedule_from_isr (
              with_sched m (elim o [
                | none ↦ m.sched
                | some t ↦
                    if is_running t.state
                    then record m.sched {
                      threads =
                          update m.sched.threads m.sched.current_id
                            (some (with_state t ThreadState.ready));
                      ready_bitmap = bit_or m.sched.ready_bitmap (bit t.priority);
                    }
                    else m.sched
              ]))
          else ret tt m)
        m

-- The block on the time slice, and what follows it.
unfoldable pub slice : Run Machine (Unit {0})
unfolding do_schedule_from_isr preempt
slice m =
    if ltb m.sched.current_id max_threads
    then elim (m.sched.threads m.sched.current_id) [
      | none ↦ preempt m
      | some t ↦
          if is_running t.state
          then (if (ticked t).tick == 0
              then do_schedule_from_isr (
                  with_sched m (record m.sched {
                    threads = update m.sched.threads m.sched.current_id (some (expired (ticked t)));
                    ready_bitmap = bit_or m.sched.ready_bitmap (bit t.priority);
                  }))
              else preempt (with_sched m (put m.sched.current_id (ticked t) m.sched)))
          else preempt m
    ]
    else preempt m

-- `sched_tick`.
unfoldable pub sched_tick : Run Machine (Unit {0})
unfolding wake_from wake_one keep_signals slice
sched_tick m =
    let now = (m.sched.tick_count + 1) % u64_mod in
    let s = wake_from now max_threads 0 (record m.sched { tick_count = now }) in
    slice (with_sched m (keep_signals s.current_id s))
