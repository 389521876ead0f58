-- ===== src/Thread/Keeps.antt =====
-- The invariant of the scheduler of src/thread.rs under its calls other than the tick.
use f1c100s_rs.Base.{
  ℕ, ◌<◌, ◌≡◌, ◌≢◌, refl, ap, true, false, not, ◌&&◌, ◌||◌, Option, none, some, arith, lt→ltb,
  if◌then◌else◌, is_some, Bool-cases, Option-cases, inl, inr, update_self, update_ne,
}
use f1c100s_rs.Run.{ret, Run, Stays, Stays-and_then}
use f1c100s_rs.Thread.Types.{
  Thread, ThreadState, is_ready, is_running, is_blocked, is_waiting, Scheduler, max_threads,
  max_priority, Machine, with_sched,
}
use f1c100s_rs.Thread.Ready.{set_ready, clear_ready_if_empty}
use f1c100s_rs.Thread.Marked.{IsMarked-thread}
use f1c100s_rs.Thread.Schedule.{put, with_state, do_schedule, interrupt_disable, interrupt_enable}
use f1c100s_rs.Thread.Api.{
  critical, thread_sleep, asleep, sleep_inner, suspend_inner, delete_inner, resume_inner,
  thread_suspend, thread_resume, remove, thread_delete,
}
use f1c100s_rs.Thread.Wait.{block_current, waiting, unblock, unblock_thread, woken}
use f1c100s_rs.Thread.Sane.{
  IsSane, IsSaneMachine, write-IsMarked, set_ready-some, set_ready-IsMarked,
}
use f1c100s_rs.Thread.Preserve.{still_current, put-IsSane, clear-IsSane, do_schedule-Stays}

pub current-thread : (s : Scheduler) → IsSane s → (t : Thread) × (s.threads s.current_id ≡ some t)
current-thread s h = elim (Option-cases (s.threads s.current_id)) [
  | inl gone ↦ absurd (cc (h.current_some, ap is_some gone))
  | inr found ↦ found
]

-- The priority of a thread in a slot is in range.
pub priority-lt :
    (s : Scheduler) (i : ℕ) (t : Thread)
    → IsSane s
    → i < max_threads
    → s.threads i ≡ some t
    → t.priority < max_priority
priority-lt s i t h hi e = (IsMarked-thread s i t h.marked hi e).in_range

-- The current thread stops being ready, and the bitmap is brought up to date.
pub leave-IsSane :
    (s : Scheduler) (i : ℕ) (t u : Thread)
    → IsSane s
    → i < max_threads
    → s.threads i ≡ some t
    → u.priority ≡ t.priority
    → is_ready u.state ≡ false
    → IsSane (clear_ready_if_empty t.priority (put i u s))
leave-IsSane s i t u h hi e same idle =
    let hp = priority-lt s i t h hi e in
    clear-IsSane t.priority (put i u s) hp (put-IsSane i u s (omega arith) idle h)

waiting-priority : (now : ℕ) (o : Option ℕ) (t : Thread) → (waiting now o t).priority ≡ t.priority
unfolding waiting
waiting-priority now none t = refl
waiting-priority now (some n) t = refl

waiting-idle : (now : ℕ) (o : Option ℕ) (t : Thread) → is_ready (waiting now o t).state ≡ false
unfolding waiting
waiting-idle now none t = refl
waiting-idle now (some n) t = refl

-- What `block_current` does before it leaves the thread.
pub block_current_lem :
    (timeout : Option ℕ) (m : Machine) (t : Thread)
    → m.sched.current_id < max_threads
    → m.sched.threads m.sched.current_id ≡ some t
    → block_current timeout m
      ≡ do_schedule (
          with_sched m (
            clear_ready_if_empty t.priority
              (put m.sched.current_id (waiting m.sched.tick_count timeout t) m.sched)))
unfolding block_current
block_current_lem timeout m t hi e = rw (lt→ltb _ _ hi, e, block_current)

pub block_current-Stays :
    (timeout : Option ℕ) (m : Machine)
    → IsSane m.sched
    → Stays IsSaneMachine (block_current timeout m)
block_current-Stays timeout m h =
    let (t, e) = current-thread m.sched h in
    rw (block_current_lem timeout m t h.current_in e) (
      do_schedule-Stays _ (
        leave-IsSane m.sched m.sched.current_id t (waiting m.sched.tick_count timeout t) h
          h.current_in e (waiting-priority _ timeout t) (waiting-idle _ timeout t)))

-- A critical section keeps what its body keeps.
pub critical-Stays :
    (A : Type 0) (body : Run Machine A) (m : Machine)
    → Stays IsSaneMachine (body (interrupt_disable m).1)
    → Stays IsSaneMachine (critical body m)
unfolding interrupt_enable
critical-Stays A body m keep =
    Stays-and_then IsSaneMachine (body (interrupt_disable m).1) _ keep (λ a m' h'. h')

sleep_inner-Stays :
    (ticks : ℕ) (m : Machine) → IsSane m.sched → Stays IsSaneMachine (sleep_inner ticks m)
sleep_inner-Stays ticks m h =
    let (t, e) = current-thread m.sched h in
    let step : sleep_inner ticks m
        ≡ do_schedule (
            with_sched m (
              clear_ready_if_empty t.priority
                (put m.sched.current_id (asleep m.sched.tick_count ticks t) m.sched))) =
      unfold sleep_inner in rw (lt→ltb _ _ h.current_in, e) in
    rw step (
      do_schedule-Stays _ (
        leave-IsSane m.sched m.sched.current_id t (asleep m.sched.tick_count ticks t) h h.current_in
          e refl refl))

-- `thread_sleep` keeps the invariant, up to its switch and after it.
pub thread_sleep-Stays :
    (ticks : ℕ) (m : Machine) → IsSane m.sched → Stays IsSaneMachine (thread_sleep ticks m)
unfolding thread_sleep
thread_sleep-Stays ticks m h =
    critical-Stays (Unit {0}) (sleep_inner ticks) m (sleep_inner-Stays ticks _ h)

suspend_inner-Stays :
    (id : ℕ) (m : Machine)
    → id < max_threads
    → IsSane m.sched
    → Stays IsSaneMachine (suspend_inner id m)
suspend_inner-Stays id m hi h = elim (Option-cases (m.sched.threads id)) [
  | inl e ↦ unfold suspend_inner in rw (lt→ltb _ _ hi, e) h
  | inr (t, e) ↦ elim (Bool-cases (is_ready t.state || is_running t.state)) [
    | inl up ↦
        unfold suspend_inner in
        rw (lt→ltb _ _ hi, e, up)
          (leave-IsSane m.sched id t (with_state t ThreadState.blocked) h hi e refl refl)
    | inr down ↦ unfold suspend_inner in rw (lt→ltb _ _ hi, e, down) h
  ]
]

-- `thread_suspend` keeps the invariant, of the current thread too.
pub thread_suspend-Stays :
    (id : ℕ) (m : Machine)
    → id < max_threads
    → IsSane m.sched
    → Stays IsSaneMachine (thread_suspend id m)
unfolding thread_suspend
thread_suspend-Stays id m hi h =
    critical-Stays (Unit {0}) (suspend_inner id) m (suspend_inner-Stays id _ hi h)

-- A thread becomes ready.
pub set_ready-IsSane :
    (s : Scheduler) (id : ℕ) (t : Thread)
    → s.threads id ≡ some t
    → t.priority < max_priority
    → IsSane s
    → IsSane (set_ready id t.priority s)
set_ready-IsSane s id t e hp h =
    let known = set_ready-some id t.priority t s e in
    record {
      marked = set_ready-IsMarked id t s e hp h.marked;
      current_in = rw known h.current_in;
      current_some =
          rw known
            (still_current s id (with_state t ThreadState.ready) s.current_id h.current_some);
    }

-- A waiting thread is changed, and made ready.
pub wake-IsSane :
    (s : Scheduler) (id : ℕ) (t u : Thread)
    → s.threads id ≡ some t
    → id < max_threads
    → u.priority ≡ t.priority
    → is_ready u.state ≡ false
    → IsSane s
    → IsSane (set_ready id t.priority (put id u s))
wake-IsSane s id t u e hi same idle h =
    let hp = priority-lt s id t h hi e in
    rw (← same) (
      set_ready-IsSane (put id u s) id u (update_self s.threads id (some u)) (omega arith)
        (put-IsSane id u s (omega arith) idle h))

is_waiting-idle : (x : ThreadState) → is_waiting x ≡ true → is_ready x ≡ false
is_waiting-idle ThreadState.ready h = absurd (cc h)
is_waiting-idle _ h = refl

pub unblock-IsSane : (id : ℕ) (s : Scheduler) → id < max_threads → IsSane s → IsSane (unblock id s)
unfolding unblock
unblock-IsSane id s hi h = elim (Option-cases (s.threads id)) [
  | inl e ↦ rw (e, unblock) h
  | inr (t, e) ↦ elim (Bool-cases (is_waiting t.state && t.is_ipc_wait)) [
    | inl waits ↦
        rw (e, waits, unblock)
          (wake-IsSane s id t (woken t) e hi refl (is_waiting-idle t.state (ground arith)) h)
    | inr not_waiting ↦ rw (e, not_waiting, unblock) h
  ]
]

resume_inner-Stays :
    (id : ℕ) (m : Machine)
    → id < max_threads
    → IsSane m.sched
    → Stays IsSaneMachine (resume_inner id m)
resume_inner-Stays id m hi h = elim (Option-cases (m.sched.threads id)) [
  | inl e ↦ unfold resume_inner in rw (lt→ltb _ _ hi, e) h
  | inr (t, e) ↦ elim (Bool-cases (is_blocked t.state && not t.is_ipc_wait)) [
    | inr other ↦ unfold resume_inner in rw (lt→ltb _ _ hi, e, other) h
    | inl paused ↦
        let woke = set_ready-IsSane m.sched id t e (priority-lt m.sched id t h hi e) h in
        let m' = with_sched m (set_ready id t.priority m.sched) in
        unfold resume_inner in
        rw (lt→ltb _ _ hi, e, paused)
          (elim m.sched.started
            as (λ b. Stays IsSaneMachine (if b then do_schedule m' else ret tt m')) [
              | true ↦ do_schedule-Stays m' woke
              | false ↦ woke
            ])
  ]
]

-- `thread_resume` keeps the invariant, up to its switch and after it.
pub thread_resume-Stays :
    (id : ℕ) (m : Machine)
    → id < max_threads
    → IsSane m.sched
    → Stays IsSaneMachine (thread_resume id m)
unfolding thread_resume
thread_resume-Stays id m hi h =
    critical-Stays (Unit {0}) (resume_inner id) m (resume_inner-Stays id _ hi h)

remove-IsSane :
    (id : ℕ) (t : Thread) (s : Scheduler)
    → id < max_threads
    → s.threads id ≡ some t
    → s.current_id ≢ id
    → IsSane s
    → IsSane (remove id t s)
unfolding remove
remove-IsSane id t s hi e other h = clear-IsSane t.priority _ (priority-lt s id t h hi e) (record {
  marked = record { word = h.marked.word; each = (write-IsMarked id none s tt h.marked).each };
  current_in = h.current_in;
  current_some = rw (update_ne s.threads id s.current_id none other) h.current_some;
})

delete_inner-Stays :
    (id : ℕ) (m : Machine)
    → id < max_threads
    → m.sched.current_id ≢ id
    → IsSane m.sched
    → Stays IsSaneMachine (delete_inner id m)
delete_inner-Stays id m hi other h = elim (Option-cases (m.sched.threads id)) [
  | inl e ↦ unfold delete_inner in rw (lt→ltb _ _ hi, e) h
  | inr (t, e) ↦
      unfold delete_inner in rw (lt→ltb _ _ hi, e) (remove-IsSane id t m.sched hi e other h)
]

-- `thread_delete` of another thread keeps the invariant.
pub thread_delete-Stays :
    (id : ℕ) (m : Machine)
    → id < max_threads
    → m.sched.current_id ≢ id
    → IsSane m.sched
    → Stays IsSaneMachine (thread_delete id m)
unfolding thread_delete
thread_delete-Stays id m hi other h =
    critical-Stays (Unit {0}) (delete_inner id) m (delete_inner-Stays id _ hi other h)

pub unblock_thread-Stays :
    (id : ℕ) (m : Machine)
    → id < max_threads
    → IsSane m.sched
    → Stays IsSaneMachine (unblock_thread id m)
unfolding unblock_thread
unblock_thread-Stays id m hi h = rw (lt→ltb _ _ hi) (unblock-IsSane id m.sched hi h)
