-- ===== src/Thread/TickKeeps.antt =====
-- The invariant of the scheduler of src/thread.rs under `sched_tick`.
use f1c100s_rs.Base.{
  ℕ, zero, suc, ◌+◌, ◌≤◌, ◌<◌, ◌≡◌, refl, true, false, some, arith, ltb, lt→ltb, ◌==◌, Bool-cases,
  Option-cases, inl, inr, update,
}
use f1c100s_rs.Bits.{bit, bit_or, bit_and, not32, trailing_zeros}
use f1c100s_rs.Run.{Stays}
use f1c100s_rs.Thread.Types.{
  Thread, ThreadState, is_ready, is_running, is_timed, Scheduler, max_threads, Machine, with_sched,
}
use f1c100s_rs.Thread.Ready.{pick_next}
use f1c100s_rs.Thread.Marked.{IsMarked-thread}
use f1c100s_rs.Thread.Pick.{pick_next-some-IsBest}
use f1c100s_rs.Thread.Schedule.{
  put, with_state, mark_running, do_schedule_from_isr, context_switch_interrupt,
}
use f1c100s_rs.Thread.Tick.{
  timed_out, is_due, wake_one, wake_from, keep_signals, ticked, expired, preempt, slice, sched_tick,
}
use f1c100s_rs.Thread.Sane.{IsSane, IsSaneMachine, write-IsMarked, write_set-IsMarked}
use f1c100s_rs.Thread.Preserve.{still_current, put-IsSane, mark_running-IsSane, slot-current}
use f1c100s_rs.Thread.Keeps.{current-thread, priority-lt, wake-IsSane}

is_timed-idle : (x : ThreadState) → is_timed x ≡ true → is_ready x ≡ false
is_timed-idle ThreadState.ready h = absurd (cc h)
is_timed-idle _ h = refl

timed_out_same :
    (t : Thread) → ((timed_out t).priority ≡ t.priority) × ((timed_out t).state ≡ t.state)
unfolding timed_out
timed_out_same t = elim (Bool-cases t.is_ipc_wait) [
  | inl e ↦ unfold timed_out in simp e (refl, refl)
  | inr e ↦ unfold timed_out in simp e (refl, refl)
]

wake_one-IsSane :
    (now id : ℕ) (s : Scheduler) → id < max_threads → IsSane s → IsSane (wake_one now id s)
wake_one-IsSane now id s hi h = elim (Option-cases (s.threads id)) [
  | inl e ↦ unfold wake_one in rw (e, wake_one) h
  | inr (t, e) ↦ elim (Bool-cases (is_due now t)) [
    | inr later ↦ unfold wake_one in rw (e, later, wake_one) h
    | inl due ↦
        let timed : is_timed t.state ≡ true = unfold is_due in ground arith in
        let (same, state) = timed_out_same t in
        unfold wake_one in
        rw (e, due, wake_one)
          (wake-IsSane s id t (timed_out t) e hi same (rw state (is_timed-idle t.state timed)) h)
  ]
]

pub wake_from-IsSane :
    (now n id : ℕ) (s : Scheduler) → id + n ≤ max_threads → IsSane s → IsSane (wake_from now n id s)
unfolding wake_from
wake_from-IsSane now zero id s hi h = h
wake_from-IsSane now (suc n) id s hi h =
    wake_from-IsSane now n (id + 1) (wake_one now id s) (omega arith)
      (wake_one-IsSane now id s (omega arith) h)

-- A thread is changed in neither its state nor its priority.
put_same-IsSane :
    (i : ℕ) (t u : Thread) (s : Scheduler)
    → i < max_threads
    → s.threads i ≡ some t
    → u.priority ≡ t.priority
    → u.state ≡ t.state
    → IsSane s
    → IsSane (put i u s)
put_same-IsSane i t u s hi e prio state h =
    let mark = IsMarked-thread s i t h.marked hi e in
    record {
      marked =
          write-IsMarked i (some u) s
            (record {
              in_range = rw prio mark.in_range;
              marked = λ r. rw prio (mark.marked (rw state at r));
            })
            h.marked;
      current_in = h.current_in;
      current_some = still_current s i u s.current_id h.current_some;
    }

keep_signals-IsSane : (s : Scheduler) → IsSane s → IsSane (keep_signals s.current_id s)
keep_signals-IsSane s h =
    let (t, e) = current-thread s h in
    let left = bit_and t.sig_pending (not32 t.sig_mask) in
    elim (Bool-cases (left == 0)) [
      | inl nothing ↦ unfold keep_signals in rw (lt→ltb _ _ h.current_in, e, nothing) h
      | inr pending ↦
          unfold keep_signals in
          rw (lt→ltb _ _ h.current_in, e, pending)
            (put_same-IsSane s.current_id t _ s h.current_in e refl refl h)
    ]

-- The current thread goes back to the ready ones, its bit set.
to_ready-IsSane :
    (s : Scheduler) (t u : Thread)
    → s.threads s.current_id ≡ some t
    → u.priority ≡ t.priority
    → IsSane s
    → IsSane (record s {
      threads = update s.threads s.current_id (some u);
      ready_bitmap = bit_or s.ready_bitmap (bit t.priority);
    })
to_ready-IsSane s t u e prio h = record {
  marked =
      write_set-IsMarked s.current_id t.priority u s prio
        (priority-lt s s.current_id t h h.current_in e) h.marked;
  current_in = h.current_in;
  current_some = still_current s s.current_id u s.current_id h.current_some;
}

-- A request for a switch leaves the scheduler alone.
kept_by_request :
    (from to : ℕ) (m : Machine) → IsSane m.sched → IsSane (context_switch_interrupt from to m).sched
kept_by_request from to m h = elim (Bool-cases (m.switch_interrupt_flag == 1)) [
  | inl e ↦ unfold context_switch_interrupt in simp e h
  | inr e ↦ unfold context_switch_interrupt in simp e h
]

pub do_schedule_from_isr-Stays :
    (m : Machine) → IsSane m.sched → Stays IsSaneMachine (do_schedule_from_isr m)
do_schedule_from_isr-Stays m h = elim (Option-cases (pick_next m.sched)) [
  | inl e ↦ unfold do_schedule_from_isr in rw (e, do_schedule_from_isr) h
  | inr (next, e) ↦
      let best = pick_next-some-IsBest m.sched next h.marked e in
      let t = best.thread in
      let hp = priority-lt m.sched next t h best.in_range best.here in
      elim (Bool-cases (next == m.sched.current_id)) [
        | inl same ↦
            unfold do_schedule_from_isr in
            rw (e, same, best.here, do_schedule_from_isr)
              (put-IsSane next (with_state t ThreadState.running) m.sched hp refl h)
        | inr other ↦
            let (c, found) = slot-current m.sched next t h in
            unfold do_schedule_from_isr in
            rw (e, other, best.here, found, do_schedule_from_isr)
              (kept_by_request m.sched.current_id next
                (with_sched m (record (mark_running next t m.sched) { current_id = next }))
                (mark_running-IsSane m.sched next t best.in_range hp h))
      ]
]

preempt-Stays : (m : Machine) → IsSane m.sched → Stays IsSaneMachine (preempt m)
preempt-Stays m h =
    let (t, e) = current-thread m.sched h in
    elim (Bool-cases (m.sched.ready_bitmap == 0)) [
      | inl empty ↦ unfold preempt in rw empty h
      | inr some_ready ↦ elim (Bool-cases (ltb (trailing_zeros m.sched.ready_bitmap) t.priority)) [
        | inr lower ↦ unfold preempt in rw (some_ready, lt→ltb _ _ h.current_in, e, lower) h
        | inl higher ↦ elim (Bool-cases (is_running t.state)) [
          | inl running ↦
              unfold preempt in
              rw (some_ready, lt→ltb _ _ h.current_in, e, higher, running)
                (do_schedule_from_isr-Stays _
                  (to_ready-IsSane m.sched t (with_state t ThreadState.ready) e refl h))
          | inr away ↦
              unfold preempt in
              rw (some_ready, lt→ltb _ _ h.current_in, e, higher, away)
                (do_schedule_from_isr-Stays _ h)
        ]
      ]
    ]

slice-Stays : (m : Machine) → IsSane m.sched → Stays IsSaneMachine (slice m)
slice-Stays m h =
    let (t, e) = current-thread m.sched h in
    elim (Bool-cases (is_running t.state)) [
      | inr away ↦ unfold slice in rw (lt→ltb _ _ h.current_in, e, away) (preempt-Stays m h)
      | inl running ↦ elim (Bool-cases ((ticked t).tick == 0)) [
        | inl over ↦
            unfold slice in
            rw (lt→ltb _ _ h.current_in, e, running, over)
              (do_schedule_from_isr-Stays _
                (to_ready-IsSane m.sched t (expired (ticked t)) e refl h))
        | inr left ↦
            unfold slice in
            rw (lt→ltb _ _ h.current_in, e, running, left)
              (preempt-Stays _ (
                put_same-IsSane m.sched.current_id t (ticked t) m.sched h.current_in e refl refl h))
      ]
    ]

-- `sched_tick` keeps the invariant, and does not panic.
pub sched_tick-Stays : (m : Machine) → IsSane m.sched → Stays IsSaneMachine (sched_tick m)
unfolding sched_tick
sched_tick-Stays m h = slice-Stays _ (
    keep_signals-IsSane _ (
      wake_from-IsSane _ max_threads 0 _ (omega arith) (record {
        marked = record { word = h.marked.word; each = h.marked.each };
        current_in = h.current_in;
        current_some = h.current_some;
      })))
