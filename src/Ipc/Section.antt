-- ===== src/Ipc/Section.antt =====
-- What the methods of src/ipc/ share: the critical section (src/ipc/spinlock.rs writes it as a
-- guard), and the wait with the reading of its result.
use f1c100s_rs.Base.{
  ℕ, ◌<◌, ◌≡◌, Bool, true, false, Option, some, is_zero, lt→ltb, ltb, refl, none, update_self, ◌∙◌,
}
use f1c100s_rs.Run.{Outcome, ret, switch, panic, Run, and_then, beside, lift, Stays, Stays-and_then}
use f1c100s_rs.Thread.Types.{Machine, Thread, Scheduler, max_threads, with_sched}
use f1c100s_rs.Thread.Ready.{pick_next, clear_ready_if_empty}
use f1c100s_rs.Thread.Schedule.{put, interrupt_disable, interrupt_enable}
use f1c100s_rs.Thread.Wait.{waiting, block_current, current_ipc_error}
use f1c100s_rs.Thread.Sane.{IsSane}
use f1c100s_rs.Thread.Keeps.{current-thread, block_current_lem, block_current-Stays}
use f1c100s_rs.Thread.Preserve.{kept_by_clear, do_schedule-none}

module _ {O : Type 0} where
  -- The interrupts are masked; the old control byte is the first part.
  abbrev pub mask_off : O × Machine → ℕ × (O × Machine)
  mask_off (o, m) = let (cpsr, m') = interrupt_disable m in (cpsr, (o, m'))

  abbrev pub restore : ℕ → O × Machine → O × Machine
  restore cpsr (o, m) = (o, interrupt_enable cpsr m)

-- `SpinLock::with`, and `critical`: the closure runs with the interrupts masked.
unfoldable pub with_lock : {O A : Type 0} → Run (O × Machine) A → Run (O × Machine) A
with_lock body s =
    let (cpsr, s') = mask_off s in and_then (body s') (λ a s''. ret a (restore cpsr s''))

-- `block_current(timeout)`, then `interrupt_disable` and the result of the wait, of which the rest
-- is told: whether it is `IPC_OK`, and the control byte to restore.
unfoldable pub await :
    {O A : Type 0} → Option ℕ → (Bool → ℕ → Run (O × Machine) A) → Run (O × Machine) A
await timeout rest s = and_then (lift (block_current timeout) s) (λ _ s'.
    let (cpsr, s'') = mask_off s' in
    and_then (lift current_ipc_error s'') (λ err. rest (is_zero err) cpsr))

-- A predicate on the object beside the invariant of the scheduler.
abbrev pub Both : {O : Type 0} → (O → Type 0) → O × Machine → Type 0
Both P s = P s.0 × IsSane s.1.sched

pub Stays-beside :
    {O A : Type 0} (P : O → Type 0) (o : O) (r : Outcome Machine A)
    → P o
    → Stays (λ m. IsSane m.sched) r
    → Stays (Both P) (beside o r)
Stays-beside P o (ret a m) po h = (po, h)
Stays-beside P o (switch f t m k) po h =
    ((po, h.0), λ s (po', h'). Stays-beside P s.0 (k s.1) po' (h.1 s.1 h'))
Stays-beside P o panic po h = h

current_ipc_error-Stays :
    (m : Machine) → IsSane m.sched → Stays (λ m'. IsSane m'.sched) (current_ipc_error m)
current_ipc_error-Stays m h =
    let (t, e) = current-thread m.sched h in
    unfold current_ipc_error in rw (lt→ltb _ _ h.current_in, e) h

-- A wait keeps what its rest keeps.
pub await-Stays :
    {O A : Type 0} (P : O → Type 0) (timeout : Option ℕ) (rest : Bool → ℕ → Run (O × Machine) A)
    → ((done : Bool) (cpsr : ℕ) (s : O × Machine) → Both P s → Stays (Both P) (rest done cpsr s))
    → (s : O × Machine) → Both P s
    → Stays (Both P) (await timeout rest s)
unfolding await interrupt_disable
await-Stays P timeout rest keep s h =
    Stays-and_then (Both P) (lift (block_current timeout) s) _
      (Stays-beside P s.0 (block_current timeout s.1) h.0 (block_current-Stays timeout s.1 h.1))
      λ _ s' h'.
        Stays-and_then (Both P) (lift current_ipc_error (mask_off s').1) _
          (Stays-beside P s'.0 _ h'.0 (current_ipc_error-Stays _ h'.1))
          (λ err s'' h''. keep (is_zero err) _ s'' h'')

waiting-result :
    (now : ℕ) (limit : Option ℕ) (t : Thread) → is_zero (waiting now limit t).ipc_result ≡ false
unfolding waiting
waiting-result now none t = refl
waiting-result now (some n) t = refl

-- The scheduler when the current thread `t` has started to wait.
abbrev pub after_block : Option ℕ → Machine → Thread → Scheduler
after_block limit m t =
    clear_ready_if_empty t.priority
      (put m.sched.current_id (waiting m.sched.tick_count limit t) m.sched)

-- Where no other thread can be picked, a wait ends at once, and not with `IPC_OK`; its thread is
-- left in the blocked state.
pub await-alone :
    {O A : Type 0} (limit : Option ℕ) (rest : Bool → ℕ → Run (O × Machine) A) (o : O) (m : Machine)
    (t : Thread)
    → m.sched.current_id < max_threads
    → m.sched.threads m.sched.current_id ≡ some t
    → pick_next (after_block limit m t) ≡ none
    → await limit rest (o, m)
      ≡ rest false m.cpsr (o, (interrupt_disable (with_sched m (after_block limit m t))).1)
unfolding await interrupt_disable current_ipc_error clear_ready_if_empty
await-alone limit rest o m t hi e alone =
    let left = with_sched m (after_block limit m t) in
    let (cur, threads) =
      kept_by_clear t.priority
        (put m.sched.current_id (waiting m.sched.tick_count limit t) m.sched) in
    let here : left.sched.threads left.sched.current_id
        ≡ some (waiting m.sched.tick_count limit t) =
      rw (cur, threads) (update_self m.sched.threads m.sched.current_id _) in
    let low : ltb left.sched.current_id max_threads ≡ true = rw cur (lt→ltb _ _ hi) in
    let step : block_current limit m ≡ ret tt left =
      block_current_lem limit m t hi e ∙ do_schedule-none left alone in
    rw (step, current_ipc_error, low, here, waiting-result m.sched.tick_count limit t)
