-- ===== src/Thread/Wake.antt =====
-- Which threads `sched_tick` and `unblock_thread` of src/thread.rs wake, and what they find.
use f1c100s_rs.Base.{
  ℕ, Bool, zero, suc, ◌+◌, ◌≤◌, ◌<◌, ◌≡◌, ◌≢◌, refl, ap, ◌∙◌, ◌&&◌, Option, none, some, arith, ◌==◌,
  if◌then◌else◌, Bool-cases, Option-cases, inl, inr, ◌⊎◌, true, false, subst, sym, leb, negsuc,
  update_ne, update_self, ==_iff,
}
use f1c100s_rs.Thread.Types.{Thread, ThreadState, Scheduler, is_waiting, is_timed, ipc_timeout}
use f1c100s_rs.Thread.Ready.{set_ready}
use f1c100s_rs.Thread.Schedule.{put, with_state}
use f1c100s_rs.Thread.Wait.{unblock, woken}
use f1c100s_rs.Thread.Tick.{timed_out, is_due, wake_one, wake_from}
use f1c100s_rs.Thread.Sane.{set_ready-some}

-- The thread sleeps, or waits with a timeout.
abbrev pub Timed : ThreadState → Type 0
Timed state = (state ≡ ThreadState.sleeping) ⊎ (state ≡ ThreadState.blocked_timeout)

-- What the tick `now` makes of a slot. A thread whose wait ends in an IPC wait finds the result -1,
-- which is `IPC_TIMEOUT`.
pub data Ticked (now : ℕ) : Option Thread → Option Thread → Type 0 where
  empty : Ticked now none none
  untimed : (t : Thread) → ¬ Timed t.state → Ticked now (some t) (some t)
  endless : (t : Thread) → t.sleep_until ≡ 0 → Ticked now (some t) (some t)
  not_yet : (t : Thread) → now < t.sleep_until → Ticked now (some t) (some t)
  slept :
      (t : Thread)
      → Timed t.state
      → t.sleep_until ≢ 0
      → t.sleep_until ≤ now
      → t.is_ipc_wait ≡ false
      → Ticked now (some t) (some (record t { state = ThreadState.ready; sleep_until = 0 }))
  gave_up :
      (t : Thread)
      → Timed t.state
      → t.sleep_until ≢ 0
      → t.sleep_until ≤ now
      → t.is_ipc_wait ≡ true
      → Ticked now (some t) (
          some (record t {
            state = ThreadState.ready;
            sleep_until = 0;
            is_ipc_wait = false;
            ipc_result = negsuc 0;
          }))

untimed_of : (x : ThreadState) → is_timed x ≡ false → ¬ Timed x
untimed_of x e (inl h) = absurd (cc (e, ap is_timed h))
untimed_of x e (inr h) = absurd (cc (e, ap is_timed h))

is_timed-cases :
    (x : ThreadState) → ((is_timed x ≡ true) × Timed x) ⊎ ((is_timed x ≡ false) × ¬ Timed x)
is_timed-cases ThreadState.sleeping = inl (refl, inl refl)
is_timed-cases ThreadState.blocked_timeout = inl (refl, inr refl)
is_timed-cases ThreadState.dead = inr (refl, untimed_of ThreadState.dead refl)
is_timed-cases ThreadState.ready = inr (refl, untimed_of ThreadState.ready refl)
is_timed-cases ThreadState.running = inr (refl, untimed_of ThreadState.running refl)
is_timed-cases ThreadState.blocked = inr (refl, untimed_of ThreadState.blocked refl)

-- What the loop makes of a slot, by its own test.
abbrev passed : ℕ → Option Thread → Option Thread
passed now none = none
passed now (some t) =
    if is_due now t then some (with_state (timed_out t) ThreadState.ready) else some t

abbrev ended : Bool → Thread → Thread
ended ipc t =
    if ipc
    then record t { ipc_result = ipc_timeout; is_ipc_wait = false; sleep_until = 0 }
    else record t { sleep_until = 0 }

ended_Ticked :
    (now : ℕ) (t : Thread)
    → Timed t.state
    → t.sleep_until ≢ 0
    → t.sleep_until ≤ now
    → Ticked now (some t) (some (with_state (timed_out t) ThreadState.ready))
unfolding timed_out
ended_Ticked now t timed set due = elim (Bool-cases t.is_ipc_wait) [
  | inr plain ↦
      subst (λ (b : Bool). Ticked now (some t) (some (with_state (ended b t) ThreadState.ready)))
        (sym plain) (Ticked.slept t timed set due plain)
  | inl ipc ↦
      subst (λ (b : Bool). Ticked now (some t) (some (with_state (ended b t) ThreadState.ready)))
        (sym ipc) (Ticked.gave_up t timed set due ipc)
]

passed-Ticked : (now : ℕ) (slot : Option Thread) → Ticked now slot (passed now slot)
unfolding is_due
passed-Ticked now none = Ticked.empty
passed-Ticked now (some t) = elim (is_timed-cases t.state) [
  | inr (e, not_timed) ↦ rw e (Ticked.untimed t not_timed)
  | inl (e, timed) ↦ elim (Bool-cases (t.sleep_until == 0)) [
    | inl z ↦ rw (e, z) (Ticked.endless t ((==_iff t.sleep_until 0).0 z))
    | inr nz ↦ elim (Bool-cases (leb t.sleep_until now)) [
      | inr gt ↦ rw (e, nz, gt) (Ticked.not_yet t (ground (arith, gt)))
      | inl le ↦
          rw (e, nz, le)
            (ended_Ticked now t timed (λ z. absurd (ground (arith, nz, z))) (ground (arith, le)))
    ]
  ]
]

-- A thread that is written and then made ready.
made_ready :
    (id : ℕ) (u : Thread) (p : ℕ) (s : Scheduler)
    → (set_ready id p (put id u s)).threads id ≡ some (with_state u ThreadState.ready)
made_ready id u p s =
    rw (set_ready-some id p u (put id u s) (update_self s.threads id (some u)))
      (update_self (put id u s).threads id (some (with_state u ThreadState.ready)))

made_ready-away :
    (id : ℕ) (u : Thread) (p : ℕ) (s : Scheduler) (j : ℕ)
    → j ≢ id
    → (set_ready id p (put id u s)).threads j ≡ s.threads j
made_ready-away id u p s j ne =
    rw (set_ready-some id p u (put id u s) (update_self s.threads id (some u))) (
      update_ne (put id u s).threads id j (some (with_state u ThreadState.ready)) ne
      ∙ update_ne s.threads id j (some u) ne)

wake_one-here :
    (now id : ℕ) (s : Scheduler) → (wake_one now id s).threads id ≡ passed now (s.threads id)
unfolding wake_one
wake_one-here now id s = elim (Option-cases (s.threads id)) [
  | inl e ↦ rw (e, wake_one) e
  | inr (t, e) ↦ elim (Bool-cases (is_due now t)) [
    | inr later ↦ rw (e, later, wake_one) e
    | inl due ↦ rw (e, due, wake_one) (made_ready id (timed_out t) t.priority s)
  ]
]

wake_one-away :
    (now id : ℕ) (s : Scheduler) (j : ℕ) → j ≢ id → (wake_one now id s).threads j ≡ s.threads j
unfolding wake_one
wake_one-away now id s j ne = elim (Option-cases (s.threads id)) [
  | inl e ↦ rw (e, wake_one)
  | inr (t, e) ↦ elim (Bool-cases (is_due now t)) [
    | inr later ↦ rw (e, later, wake_one)
    | inl due ↦ rw (e, due, wake_one) (made_ready-away id (timed_out t) t.priority s j ne)
  ]
]

wake_from-away :
    (now n id : ℕ) (s : Scheduler) (j : ℕ) → j < id → (wake_from now n id s).threads j ≡ s.threads j
unfolding wake_from
wake_from-away now zero id s j h = refl
wake_from-away now (suc n) id s j h =
    wake_from-away now n (id + 1) (wake_one now id s) j (omega arith)
    ∙ wake_one-away now id s j (omega arith)

wake_from-passed :
    (now n id : ℕ) (s : Scheduler) (j : ℕ)
    → id ≤ j
    → j < id + n
    → (wake_from now n id s).threads j ≡ passed now (s.threads j)
unfolding wake_from
wake_from-passed now zero id s j lo hi = absurd (omega arith)
wake_from-passed now (suc n) id s j lo hi = elim (Bool-cases (j == id)) [
  | inl first ↦
      let e = (==_iff j id).0 first in
      rw e (
        wake_from-away now n (id + 1) (wake_one now id s) id (omega arith) ∙ wake_one-here now id s)
  | inr after ↦
      wake_from-passed now n (id + 1) (wake_one now id s) j (ground arith) (ground arith)
      ∙ ap (passed now) (wake_one-away now id s j (ground arith))
]

-- Of the slots from `id` to `id + n`, the loop of `sched_tick` makes exactly those threads ready
-- that sleep, or wait with a timeout, until a tick that is not 0 and not after `now`, and takes the
-- end of the wait away; a thread that waited for an IPC object finds the timeout, -1, as its result
-- and waits for the object no more. Every other slot, and every other field, stays as it is.
pub wake_from-threads :
    (now n id : ℕ) (s : Scheduler) (j : ℕ)
    → id ≤ j
    → j < id + n
    → Ticked now (s.threads j) ((wake_from now n id s).threads j)
wake_from-threads now n id s j lo hi =
    subst (λ slot. Ticked now (s.threads j) slot) (sym (wake_from-passed now n id s j lo hi))
      (passed-Ticked now (s.threads j))

-- `unblock_thread` of a thread that an IPC object holds makes it ready, with the result `IPC_OK`;
-- any other thread stays as it is: a wait that has ended by its timeout is not woken again.
pub unblock-threads :
    (id : ℕ) (s : Scheduler) (t : Thread)
    → s.threads id ≡ some t
    → (unblock id s).threads id ≡ (
        if is_waiting t.state && t.is_ipc_wait
        then some (with_state (woken t) ThreadState.ready)
        else some t)
unfolding unblock
unblock-threads id s t e = elim (Bool-cases (is_waiting t.state && t.is_ipc_wait)) [
  | inr other ↦ rw (e, other, unblock) e
  | inl waits ↦ rw (e, waits, unblock) (made_ready id (woken t) t.priority s)
]
