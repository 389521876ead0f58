-- ===== src/Thread/Preserve.antt =====
-- The invariant of the scheduler of src/thread.rs under the steps that its functions share.
use f1c100s_rs.Base.{
  ℕ, ◌<◌, ◌≡◌, refl, ap, true, false, none, some, arith, lt→ltb, ◌==◌, is_some, Bool-cases,
  Option-cases, inl, inr, update, update_self,
}
use f1c100s_rs.Run.{ret, switch, Stays}
use f1c100s_rs.Thread.Types.{
  Thread, ThreadState, is_ready, Scheduler, slot, max_threads, max_priority, Machine, with_sched,
}
use f1c100s_rs.Thread.Ready.{pick_next, any_ready, clear_ready_if_empty}
use f1c100s_rs.Thread.Marked.{IsMarked-thread}
use f1c100s_rs.Thread.Pick.{pick_next-some-IsBest}
use f1c100s_rs.Thread.Schedule.{put, with_state, mark_running, do_schedule, resumed}
use f1c100s_rs.Thread.Sane.{IsSane, IsSaneMachine, write-IsMarked, clear-IsMarked}

-- A slot other than the current thread's, or the current one if a thread stays there.
pub still_current :
    (s : Scheduler) (i : ℕ) (t : Thread) (j : ℕ)
    → is_some (s.threads j) ≡ true
    → is_some (update s.threads i (some t) j) ≡ true
still_current s i t j h = ground arith

-- A thread that is not ready is written.
pub put-IsSane :
    (i : ℕ) (t : Thread) (s : Scheduler)
    → t.priority < max_priority
    → is_ready t.state ≡ false
    → IsSane s
    → IsSane (put i t s)
put-IsSane i t s hp idle h = record {
  marked =
      write-IsMarked i (some t) s (record { in_range = hp; marked = λ r. absurd (cc (idle, r)) })
        h.marked;
  current_in = h.current_in;
  current_some = still_current s i t s.current_id h.current_some;
}

pub kept_by_clear :
    (p : ℕ) (s : Scheduler)
    → ((clear_ready_if_empty p s).current_id ≡ s.current_id)
      × ((clear_ready_if_empty p s).threads ≡ s.threads)
unfolding clear_ready_if_empty
kept_by_clear p s = elim (Bool-cases (any_ready max_threads s.threads p)) [
  | inl e ↦ rw e (refl, refl)
  | inr e ↦ rw e (refl, refl)
]

pub clear-IsSane :
    (p : ℕ) (s : Scheduler) → p < max_priority → IsSane s → IsSane (clear_ready_if_empty p s)
clear-IsSane p s hp h =
    let (cur, same) = kept_by_clear p s in
    record {
      marked = clear-IsMarked p s hp h.marked;
      current_in = rw cur h.current_in;
      current_some = rw (cur, same) h.current_some;
    }

-- The picked thread takes over.
pub mark_running-IsSane :
    (s : Scheduler) (next : ℕ) (t : Thread)
    → next < max_threads
    → t.priority < max_priority
    → IsSane s
    → IsSane (record (mark_running next t s) { current_id = next })
unfolding mark_running
mark_running-IsSane s next t hn hp h = record {
  marked = record {
    word = h.marked.word;
    each =
        (write-IsMarked next (some (with_state t ThreadState.running)) s
          (record { in_range = hp; marked = λ r. absurd (cc r) }) h.marked).each;
  };
  current_in = hn;
  current_some = rw (update_self s.threads next (some (with_state t ThreadState.running)));
}

-- Beside another thread that is put in place, the current thread still has its slot.
pub slot-current :
    (s : Scheduler) (next : ℕ) (t : Thread)
    → IsSane s
    → (c : Thread) × (slot (mark_running next t s) s.current_id ≡ some c)
unfolding mark_running
slot-current s next t h =
    let there =
      still_current s next (with_state t ThreadState.running) s.current_id h.current_some in
    rw (lt→ltb _ _ h.current_in)
      (elim (Option-cases
        (update s.threads next (some (with_state t ThreadState.running)) s.current_id)) [
          | inl gone ↦ absurd (cc (there, ap is_some gone))
          | inr found ↦ found
        ])

-- The three ways of `do_schedule`.
pub do_schedule-none : (m : Machine) → pick_next m.sched ≡ none → do_schedule m ≡ ret tt m
unfolding do_schedule
do_schedule-none m e = rw (e, do_schedule)

pub do_schedule_same :
    (m : Machine) (i : ℕ) (t : Thread)
    → pick_next m.sched ≡ some i
    → (i == m.sched.current_id) ≡ true
    → m.sched.threads i ≡ some t
    → do_schedule m ≡ ret tt (with_sched m (put i (with_state t ThreadState.running) m.sched))
unfolding do_schedule
do_schedule_same m i t e same here = rw (e, same, here, do_schedule)

pub do_schedule-switch :
    (m : Machine) (i : ℕ) (t c : Thread)
    → pick_next m.sched ≡ some i
    → (i == m.sched.current_id) ≡ false
    → m.sched.threads i ≡ some t
    → slot (mark_running i t m.sched) m.sched.current_id ≡ some c
    → do_schedule m
      ≡ switch m.sched.current_id i
          (with_sched m (record (mark_running i t m.sched) { current_id = i }))
          (λ m'. ret tt (resumed m.cpsr m'))
unfolding do_schedule
do_schedule-switch m i t c e other here found = rw (e, other, here, found, do_schedule)

-- `do_schedule` keeps the invariant, and neither `unwrap` panics.
pub do_schedule-Stays : (m : Machine) → IsSane m.sched → Stays IsSaneMachine (do_schedule m)
unfolding resumed
do_schedule-Stays m h = elim (Option-cases (pick_next m.sched)) [
  | inl e ↦ rw (do_schedule-none m e) h
  | inr (next, e) ↦
      let best = pick_next-some-IsBest m.sched next h.marked e in
      let t = best.thread in
      let hp = (IsMarked-thread m.sched next t h.marked best.in_range best.here).in_range in
      elim (Bool-cases (next == m.sched.current_id)) [
        | inl same ↦
            rw (do_schedule_same m next t e same best.here)
              (put-IsSane next (with_state t ThreadState.running) m.sched hp refl h)
        | inr other ↦
            let (c, found) = slot-current m.sched next t h in
            rw (do_schedule-switch m next t c e other best.here found)
              (mark_running-IsSane m.sched next t best.in_range hp h, λ m' h'. h')
      ]
]
