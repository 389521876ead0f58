-- ===== src/Thread/Stranded.antt =====
-- What src/thread.rs does with the current thread where it resumes another.
use f1c100s_rs.Base.{
  ℕ, ◌<◌, ◌≡◌, ◌≢◌, refl, sym, ap, ◌∙◌, subst, true, false, some, lt→ltb, ne→==, update_ne,
}
use f1c100s_rs.Thread.Types.{
  Thread, ThreadState, is_ready, is_running, is_blocked, Scheduler, max_threads, Machine,
  with_sched,
}
use f1c100s_rs.Thread.Ready.{pick_next, set_ready}
use f1c100s_rs.Thread.Schedule.{with_state, mark_running, do_schedule, interrupt_disable}
use f1c100s_rs.Thread.Api.{resume_inner, thread_resume}
use f1c100s_rs.Thread.Preserve.{do_schedule-switch}
use f1c100s_rs.Thread.Lost.{HandsOn, HandsOn-critical, picked-thread, slot_other}

-- Thread `i` is no longer the current one, and its state says that it runs: `pick_next` takes ready
-- threads only, and a tick makes ready only the current thread and those that wait.
pub record IsStranded (i : ℕ) (s : Scheduler) : Type 0 where
  pub away : s.current_id ≢ i
  pub thread : Thread
  pub here : s.threads i ≡ some thread
  pub running : is_running thread.state ≡ true

running-ne_ready : (x : ThreadState) → is_running x ≡ true → is_ready x ≡ false
running-ne_ready ThreadState.ready h = absurd (cc h)
running-ne_ready _ h = refl

do_schedule-IsStranded :
    (m : Machine) (c : Thread) (next : ℕ)
    → m.sched.current_id < max_threads
    → m.sched.threads m.sched.current_id ≡ some c
    → is_running c.state ≡ true
    → pick_next m.sched ≡ some next
    → HandsOn (λ m'. IsStranded m.sched.current_id m'.sched) (do_schedule m)
unfolding mark_running
do_schedule-IsStranded m c next hi e running picked =
    let (t, here, ready, hn) = picked-thread m.sched next picked in
    let other : m.sched.current_id ≢ next = λ q.
      let same : c ≡ t = cc (e, here, ap m.sched.threads q) in
      cc (ready, same, running-ne_ready c.state running) in
    rw
      (do_schedule-switch m next t c picked (ne→== _ _ (λ q. other (sym q))) here
        (slot_other m.sched next m.sched.current_id t c e hi other))
      (record {
        away = λ q. other (sym q);
        thread = c;
        here =
            update_ne m.sched.threads next m.sched.current_id
              (some (with_state t ThreadState.running)) other
            ∙ e;
        running = running;
      })

set_ready-current_id : (id p : ℕ) (s : Scheduler) → (set_ready id p s).current_id ≡ s.current_id
unfolding set_ready
set_ready-current_id id p s = refl

set_ready-other :
    (id p : ℕ) (s : Scheduler) (t : Thread) (j : ℕ)
    → s.threads id ≡ some t
    → j ≢ id
    → (set_ready id p s).threads j ≡ s.threads j
unfolding set_ready
set_ready-other id p s t j e ne = rw e (update_ne s.threads id j _ ne)

-- When a running thread resumes a suspended one and a thread can then be picked, the code switches
-- to that thread and leaves the one that called in the running state.
pub thread_resume-IsStranded :
    (id : ℕ) (m : Machine) (t c : Thread) (next : ℕ)
    → id < max_threads
    → m.sched.threads id ≡ some t
    → is_blocked t.state ≡ true
    → t.is_ipc_wait ≡ false
    → m.sched.started ≡ true
    → m.sched.current_id < max_threads
    → m.sched.threads m.sched.current_id ≡ some c
    → is_running c.state ≡ true
    → id ≢ m.sched.current_id
    → pick_next (set_ready id t.priority m.sched) ≡ some next
    → HandsOn (λ m'. IsStranded m.sched.current_id m'.sched) (thread_resume id m)
unfolding thread_resume
thread_resume-IsStranded id m t c next hid e blocked free started hi ec running other picked =
    let off = (interrupt_disable m).1 in
    let woken = with_sched off (set_ready id t.priority m.sched) in
    let step : resume_inner id off ≡ do_schedule woken =
      unfold resume_inner interrupt_disable in rw (lt→ltb _ _ hid, e, blocked, free, started) in
    let cur = m.sched.current_id in
    let same : woken.sched.current_id ≡ cur = set_ready-current_id id t.priority m.sched in
    let stays : woken.sched.threads cur ≡ some c =
      set_ready-other id t.priority m.sched t cur e (λ q. other (sym q)) ∙ ec in
    let switches : HandsOn (λ m'. IsStranded cur m'.sched) (do_schedule woken) =
      subst (λ x. HandsOn (λ m'. IsStranded x m'.sched) (do_schedule woken)) same
        (do_schedule-IsStranded woken c next (subst (λ x. x < max_threads) (sym same) hi)
          (ap woken.sched.threads same ∙ stays) running picked) in
    rw step (
      HandsOn-critical (λ m'. IsStranded cur m'.sched) m.cpsr (do_schedule woken)
        (λ m' f. record { away = f.away; thread = f.thread; here = f.here; running = f.running })
        switches)
