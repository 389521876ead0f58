-- ===== src/Thread/Lost.antt =====
-- What src/thread.rs does with the current thread at an exit and a yield.
use f1c100s_rs.Base.{
  ℕ, ◌<◌, ◌≡◌, ◌≢◌, refl, sym, ap, ◌∙◌, true, false, none, some, arith, lt→ltb, ne→==, eq→==,
  Option-cases, inl, inr, update, update_ne, update_self,
}
use f1c100s_rs.Bits.{test_bit, trailing_zeros, u32_mod}
use f1c100s_rs.Bits.Scan.{trailing_zeros-set}
use f1c100s_rs.Run.{ret, switch, panic, Outcome, and_then}
use f1c100s_rs.Thread.Types.{
  Thread, ThreadState, is_ready, is_running, Scheduler, slot, max_threads, Machine, with_sched,
}
use f1c100s_rs.Thread.Ready.{pick_next}
use f1c100s_rs.Thread.Pick.{pick_next-FirstReady, ready_at-thread}
use f1c100s_rs.Thread.Schedule.{
  put, with_state, mark_running, do_schedule, interrupt_disable, interrupt_enable,
}
use f1c100s_rs.Thread.Api.{remove, exit_inner, thread_exit, yield_inner, thread_yield}
use f1c100s_rs.Thread.Preserve.{kept_by_clear, do_schedule-none, do_schedule-switch}

-- A picked slot holds a ready thread.
pub picked-thread :
    (s : Scheduler) (i : ℕ)
    → pick_next s ≡ some i
    → (t : Thread) × (s.threads i ≡ some t) × (is_ready t.state ≡ true) × (i < max_threads)
picked-thread s i e =
    let first = pick_next-FirstReady s i e in
    let (t, here, prio, ready) = ready_at-thread s.threads _ i first.found in
    (t, here, ready, omega (arith, first.at))

empty_slot :
    (s : Scheduler) (i j : ℕ) (t : Thread)
    → s.threads j ≡ none
    → j ≢ i
    → slot (mark_running i t s) j ≡ none
unfolding mark_running
empty_slot s i j t gone ne = rw (ne→== j i ne, gone) (ground arith)

do_schedule-empty :
    (m : Machine) (i : ℕ)
    → pick_next m.sched ≡ some i
    → m.sched.threads m.sched.current_id ≡ none
    → do_schedule m ≡ panic
unfolding do_schedule
do_schedule-empty m i e gone =
    let (t, here, ready, hi) = picked-thread m.sched i e in
    let other : m.sched.current_id ≢ i = λ same. cc (gone, here, ap m.sched.threads same) in
    let other' : i ≢ m.sched.current_id = λ q. other (sym q) in
    rw
      (e, ne→== _ _ other', here, empty_slot m.sched i m.sched.current_id t gone other, do_schedule)

remove-threads :
    (id : ℕ) (t : Thread) (s : Scheduler)
    → ((remove id t s).threads ≡ update s.threads id none)
      × ((remove id t s).current_id ≡ s.current_id)
unfolding remove
remove-threads id t s = let (cur, same) = kept_by_clear t.priority _ in (same, cur)

-- A thread that exits while another is ready panics: its slot is emptied before `do_schedule` asks
-- for the place of its stack pointer.
pub thread_exit-panic :
    (m : Machine) (t : Thread) (i : ℕ)
    → m.sched.current_id < max_threads
    → m.sched.threads m.sched.current_id ≡ some t
    → pick_next (remove m.sched.current_id t m.sched) ≡ some i
    → thread_exit m ≡ panic
unfolding thread_exit
thread_exit-panic m t i hi e next =
    let (threads, cur) = remove-threads m.sched.current_id t m.sched in
    let off = (interrupt_disable m).1 in
    let left = with_sched off (remove m.sched.current_id t m.sched) in
    let gone : left.sched.threads left.sched.current_id ≡ none =
      rw (cur, threads) (update_self m.sched.threads m.sched.current_id none) in
    let step : exit_inner off ≡ do_schedule left =
      unfold exit_inner interrupt_disable in rw (lt→ltb _ _ hi, e) in
    rw (step, do_schedule-empty left i next gone)

-- Thread `i` is ready, and its bit is clear.
pub record IsForgotten (i : ℕ) (s : Scheduler) : Type 0 where
  pub thread : Thread
  pub here : s.threads i ≡ some thread
  pub ready : is_ready thread.state ≡ true
  pub unmarked : test_bit s.ready_bitmap thread.priority ≡ false

picked-ne_zero : (s : Scheduler) (i : ℕ) → pick_next s ≡ some i → s.ready_bitmap ≢ 0
unfolding pick_next
picked-ne_zero s i e zero = cc (e, pick_zero)
  where
    pick_zero : pick_next s ≡ none
    pick_zero = rw (eq→== s.ready_bitmap 0 zero)

-- `pick_next` never picks a ready thread whose bit is clear, though no other may be ready.
pub IsForgotten-ne_picked :
    (s : Scheduler) (i : ℕ) → s.ready_bitmap < u32_mod → IsForgotten i s → pick_next s ≢ some i
IsForgotten-ne_picked s i word f e =
    let first = pick_next-FirstReady s i e in
    let (t, here, prio, ready) = ready_at-thread s.threads _ i first.found in
    let same : t ≡ f.thread = cc (here, f.here) in
    let clear : test_bit s.ready_bitmap (trailing_zeros s.ready_bitmap) ≡ false =
      rw (← prio, same) f.unmarked in
    cc (clear, (trailing_zeros-set s.ready_bitmap (picked-ne_zero s i e) word).1)

-- The code hands the state on, at its return or its first switch, with `P`.
abbrev pub HandsOn : {A : Type 0} → (Machine → Type 0) → Outcome Machine A → Type 0
HandsOn P (ret a m) = P m
HandsOn P (switch from to m k) = P m
HandsOn P panic = ⊥

pub HandsOn-critical :
    {A : Type 0} (P : Machine → Type 0) (cpsr : ℕ) (o : Outcome Machine A)
    → ((m : Machine) → P m → P (interrupt_enable cpsr m))
    → HandsOn P o
    → HandsOn P (and_then o (λ a m. ret a (interrupt_enable cpsr m)))
HandsOn-critical P cpsr (ret a m) keep h = keep m h
HandsOn-critical P cpsr (switch f t m k) keep h = h
HandsOn-critical P cpsr panic keep h = h

pub slot_other :
    (s : Scheduler) (i j : ℕ) (t c : Thread)
    → s.threads j ≡ some c
    → j < max_threads
    → j ≢ i
    → slot (mark_running i t s) j ≡ some c
unfolding mark_running
slot_other s i j t c e hj ne = rw (ne→== j i ne, e, lt→ltb _ _ hj)

do_schedule-IsForgotten :
    (m : Machine)
    → m.sched.ready_bitmap < u32_mod
    → m.sched.current_id < max_threads
    → IsForgotten m.sched.current_id m.sched
    → HandsOn (λ m'. IsForgotten m.sched.current_id m'.sched) (do_schedule m)
unfolding mark_running
do_schedule-IsForgotten m word hi f = elim (Option-cases (pick_next m.sched)) [
  | inl e ↦ rw (do_schedule-none m e) f
  | inr (next, e) ↦
      let (t, here, ready, hn) = picked-thread m.sched next e in
      let other : m.sched.current_id ≢ next =
        λ q. IsForgotten-ne_picked m.sched next word (rw (← q) f) e in
      rw
        (do_schedule-switch m next t f.thread e (ne→== _ _ (λ q. other (sym q))) here
          (slot_other m.sched next m.sched.current_id t f.thread f.here hi other))
        (record {
          thread = f.thread;
          here =
              update_ne m.sched.threads next m.sched.current_id
                (some (with_state t ThreadState.running)) other
              ∙ f.here;
          ready = f.ready;
          unmarked = f.unmarked;
        })
]

-- A running thread whose bit is clear, as after another of its priority was suspended, is forgotten
-- when it yields.
pub thread_yield-IsForgotten :
    (m : Machine) (t : Thread)
    → m.sched.current_id < max_threads
    → m.sched.ready_bitmap < u32_mod
    → m.sched.threads m.sched.current_id ≡ some t
    → is_running t.state ≡ true
    → test_bit m.sched.ready_bitmap t.priority ≡ false
    → HandsOn (λ m'. IsForgotten m.sched.current_id m'.sched) (thread_yield m)
unfolding thread_yield
thread_yield-IsForgotten m t hi word e running clear =
    let off = (interrupt_disable m).1 in
    let ready = with_state t ThreadState.ready in
    let gone = with_sched off (put m.sched.current_id ready m.sched) in
    let step : yield_inner off ≡ do_schedule gone =
      unfold yield_inner interrupt_disable in rw (lt→ltb _ _ hi, e, running) in
    rw step (
      HandsOn-critical (λ m'. IsForgotten m.sched.current_id m'.sched) m.cpsr (do_schedule gone)
        (λ m' f. record {
          thread = f.thread;
          here = f.here;
          ready = f.ready;
          unmarked = f.unmarked;
        })
        (do_schedule-IsForgotten gone word hi (record {
          thread = ready;
          here = update_self m.sched.threads m.sched.current_id (some ready);
          ready = refl;
          unmarked = clear;
        })))
