-- ===== src/Ipc/Mutex/Handover.antt =====
-- How the methods of src/ipc/mutex.rs pass the ownership on.
use f1c100s_rs.Base.{
  ℕ, ◌+◌, ◌-◌, ◌%◌, ◌<◌, ◌≡◌, ◌≢◌, ◌⊎◌, refl, sym, ap, ◌∙◌, true, false, some, arith, lt→ltb, ne→==,
  eq→==, inl, inr,
}
use f1c100s_rs.Bits.{trailing_zeros, u32_mod}
use f1c100s_rs.Bits.Scan.{trailing_zeros-set, trailing_zeros-le}
use f1c100s_rs.Run.{ret, and_then}
use f1c100s_rs.Thread.Types.{Thread, Machine, with_sched}
use f1c100s_rs.Thread.Schedule.{interrupt_disable, interrupt_enable}
use f1c100s_rs.Thread.Wait.{unblock, unblock_thread}
use f1c100s_rs.Ipc.Semaphore.Release.{IsLowest, unblock-ended}
use f1c100s_rs.Ipc.Mutex.{
  ok, timeout, no_owner, Mutex, acquired, without_waiter, lock_waited, try_lock, unlock, hand_over,
  handed_to,
}
use f1c100s_rs.Ipc.Mutex.Owned.{IsOwned}

abbrev fresh : ℕ → Mutex → Mutex
fresh id o = record o { locked = true; owner = id; nest = 1 }

abbrev deeper : Mutex → Mutex
deeper o = record o { nest = (o.nest + 1) % u32_mod }

unlock-fresh :
    (o : Mutex) (m : Machine)
    → o.waiters ≡ 0
    → unlock (fresh m.sched.current_id o, m)
      ≡ ret ok (record o { locked = false; owner = no_owner; nest = 0 }, m)
unfolding unlock hand_over
unlock-fresh o m e = rw (eq→== m.sched.current_id m.sched.current_id refl, eq→== o.waiters 0 e)

unlock-deeper :
    (o : Mutex) (m : Machine)
    → o.owner ≡ m.sched.current_id
    → 0 < o.nest
    → o.nest + 1 < u32_mod
    → unlock (deeper o, m) ≡ ret ok (o, m)
unfolding unlock
unlock-deeper o m own deep small =
    let back : ((o.nest + 1) % u32_mod + u32_mod - 1) % u32_mod ≡ o.nest = omega arith in
    rw (eq→== o.owner m.sched.current_id own, back, ne→== o.nest 0 (omega arith))

-- `unlock` undoes `try_lock`, for a free mutex and for one that the thread has already.
pub unlock-try_lock :
    (o : Mutex) (m : Machine)
    → IsOwned o
    → (o.locked ≡ false) ⊎ ((o.locked ≡ true) × (o.owner ≡ m.sched.current_id) × (0 < o.nest))
    → o.nest + 1 < u32_mod
    → and_then (try_lock (o, m)) (λ got s. unlock s) ≡ ret ok (o, m)
unfolding try_lock acquired
unlock-try_lock o m h (inl f) small =
    let (a, b, c) = h.free f in
    let first : acquired m.sched.current_id o ≡ some (fresh m.sched.current_id o) = rw f refl in
    let same : record o { locked = false; owner = no_owner; nest = 0 } ≡ o =
      λ i. record o { locked = sym f i; owner = sym a i; nest = sym b i } in
    rw first (unlock-fresh o m c ∙ ap (λ x. ret ok (x, m)) same)
unlock-try_lock o m h (inr (l, own, deep)) small =
    let first : acquired m.sched.current_id o ≡ some (deeper o) =
      rw (l, eq→== o.owner m.sched.current_id own) refl in
    rw first (unlock-deeper o m own deep small)

-- `unlock` of the last of the nested locks, where some wait: the mutex stays locked, and its owner
-- is the waiter with the lowest number, which is handed to `unblock_thread`.
pub unlock-waiter :
    (o : Mutex) (m : Machine)
    → o.owner ≡ m.sched.current_id
    → o.nest ≡ 1
    → o.waiters ≢ 0
    → o.waiters < u32_mod
    → (w : ℕ) × IsLowest w o.waiters
      × (unlock (o, m) ≡ ret ok (handed_to w o, with_sched m (unblock w m.sched)))
unfolding unlock hand_over unblock_thread
unlock-waiter o m own last ne word =
    let w = trailing_zeros o.waiters in
    let (low, set) = trailing_zeros-set o.waiters ne word in
    (
      w,
      record { in_range = low; waits = set; lowest = trailing_zeros-le o.waiters },
      rw (eq→== o.owner m.sched.current_id own, last, ne→== o.waiters 0 ne, lt→ltb w 32 low),
    )

-- If the wait of that waiter has already ended by its timeout, the mutex is given to it all the
-- same: it is not woken, its `lock` returns the timeout, and the mutex is then locked and owned by
-- a thread that was told that it does not have it.
pub unlock-orphan :
    (o : Mutex) (m : Machine) (t : Thread) (cpsr : ℕ)
    → o.owner ≡ m.sched.current_id
    → o.nest ≡ 1
    → o.waiters ≢ 0
    → o.waiters < u32_mod
    → m.sched.threads (trailing_zeros o.waiters) ≡ some t
    → t.is_ipc_wait ≡ false
    → (left : Mutex) × (and_then
          (unlock (o, m))
          (λ _. lock_waited (trailing_zeros o.waiters) false cpsr)
        ≡ ret timeout (left, interrupt_enable cpsr m))
      × (left.locked ≡ o.locked)
      × (left.owner ≡ trailing_zeros o.waiters)
unfolding unlock hand_over unblock_thread lock_waited
unlock-orphan o m t cpsr own last ne word e ended =
    let w = trailing_zeros o.waiters in
    (
      without_waiter w (handed_to w o),
      rw (
        eq→== o.owner m.sched.current_id own,
        last,
        ne→== o.waiters 0 ne,
        lt→ltb w 32 (trailing_zeros-set o.waiters ne word).0,
        unblock-ended w (interrupt_disable m).1 t e ended,
      ),
      refl,
      refl,
    )
