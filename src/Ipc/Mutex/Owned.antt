-- ===== src/Ipc/Mutex/Owned.antt =====
-- The owner and the waiters of a mutex of src/ipc/mutex.rs.
use f1c100s_rs.Base.{
  ℕ, ◌+◌, ◌-◌, ◌%◌, ◌<◌, ◌≡◌, ◌⊎◌, refl, Bool, true, false, Option, none, some, arith, ◌==◌, ==_iff,
  Bool-cases, inl, inr,
}
use f1c100s_rs.Bits.{bit, bit_or, trailing_zeros, u32_mod}
use f1c100s_rs.Bits.Masks.{set_bit-lt, bit_and-lt}
use f1c100s_rs.Bits.Scan.{trailing_zeros-set}
use f1c100s_rs.Bits.Step.{zero-bit_and}
use f1c100s_rs.Run.{lift, Stays, Stays-and_then}
use f1c100s_rs.Thread.Types.{Machine}
use f1c100s_rs.Thread.Schedule.{interrupt_disable}
use f1c100s_rs.Thread.Wait.{unblock_thread}
use f1c100s_rs.Thread.Keeps.{unblock_thread-Stays}
use f1c100s_rs.Ipc.Section.{Both, Stays-beside, await-Stays}
use f1c100s_rs.Ipc.Mutex.{
  Mutex, State, no_owner, acquired, without_waiter, lock, lock_waited, try_lock, unlock, hand_over,
  handed_to,
}

pub record IsOwned (o : Mutex) : Type 0 where
  pub waiters_word : o.waiters < u32_mod
  pub held : o.locked ≡ true → o.owner < 32
  pub free : o.locked ≡ false → (o.owner ≡ no_owner) × (o.nest ≡ 0) × (o.waiters ≡ 0)

without_waiter-IsOwned : (o : Mutex) (id : ℕ) → IsOwned o → IsOwned (without_waiter id o)
without_waiter-IsOwned o id h = record {
  waiters_word = bit_and-lt o.waiters _ u32_mod h.waiters_word;
  held = h.held;
  free = λ f. let (a, b, c) = h.free f in (a, b, rw c (zero-bit_and _));
}

nest-IsOwned : (o : Mutex) (n : ℕ) → o.locked ≡ true → IsOwned o → IsOwned (record o { nest = n })
nest-IsOwned o n l h = record {
  waiters_word = h.waiters_word;
  held = h.held;
  free = λ f. absurd (cc (f, l));
}

-- Either the thread gets the mutex at once, or the mutex is locked by another.
acquired-cases :
    (id : ℕ) (o : Mutex)
    → id < 32
    → IsOwned o
    → ((o' : Mutex) × (acquired id o ≡ some o') × IsOwned o')
      ⊎ ((acquired id o ≡ none) × (o.locked ≡ true))
unfolding acquired
acquired-cases id o low h = elim (Bool-cases o.locked) [
  | inl l ↦ elim (Bool-cases (o.owner == id)) [
    | inl own ↦ inl (record o { nest = (o.nest + 1) % u32_mod }, rw (l, own), nest-IsOwned o _ l h)
    | inr other ↦ inr (rw (l, other), l)
  ]
  | inr f ↦ inl (
    record o { locked = true; owner = id; nest = 1 },
    rw f,
    record { waiters_word = h.waiters_word; held = λ _. low; free = λ n. absurd (cc n) },
  )
]

add_waiter-IsOwned :
    (id : ℕ) (o : Mutex)
    → IsOwned o
    → o.locked ≡ true
    → IsOwned (record o { waiters = bit_or o.waiters (bit id) })
add_waiter-IsOwned id o h l = record {
  waiters_word = set_bit-lt o.waiters id h.waiters_word;
  held = h.held;
  free = λ f. absurd (cc (f, l));
}

lock_waited-Stays :
    (id : ℕ) (done : Bool) (cpsr : ℕ) (s : State)
    → Both IsOwned s
    → Stays (Both IsOwned) (lock_waited id done cpsr s)
unfolding lock_waited
lock_waited-Stays id true cpsr s h = h
lock_waited-Stays id false cpsr s h = (without_waiter-IsOwned s.0 id h.0, h.1)

-- `lock` keeps the invariant, up to its switch and after it, and does not panic.
lock-Stays :
    (limit : Option ℕ) (o : Mutex) (m : Machine)
    → Both IsOwned (o, m)
    → Stays (Both IsOwned) (lock limit (o, m))
unfolding lock
lock-Stays limit o m h =
    elim (acquired-cases m.sched.current_id o (omega (arith, h.1.current_in)) h.0) [
      | inl (o', e, h') ↦ rw e (h', h.1)
      | inr (e, l) ↦ rw e (
          await-Stays IsOwned limit (lock_waited m.sched.current_id)
            (lock_waited-Stays m.sched.current_id) _
            (add_waiter-IsOwned m.sched.current_id o h.0 l, h.1))
    ]

try_lock-Stays :
    (o : Mutex) (m : Machine) → Both IsOwned (o, m) → Stays (Both IsOwned) (try_lock (o, m))
unfolding try_lock
try_lock-Stays o m h =
    elim (acquired-cases m.sched.current_id o (omega (arith, h.1.current_in)) h.0) [
      | inl (o', e, h') ↦ rw e (h', h.1)
      | inr (e, _) ↦ rw e h
    ]

hand_over-Stays :
    (o : Mutex) (m : Machine)
    → o.locked ≡ true
    → Both IsOwned (o, m)
    → Stays (Both IsOwned) (hand_over (o, m))
unfolding hand_over
hand_over-Stays o m l h = elim (Bool-cases (o.waiters == 0)) [
  | inl none_waits ↦ rw none_waits (
    record {
      waiters_word = h.0.waiters_word;
      held = λ f. absurd (cc f);
      free = λ _. (refl, refl, (==_iff _ _).0 none_waits);
    },
    h.1,
  )
  | inr some_wait ↦
      let w = trailing_zeros o.waiters in
      let low = (trailing_zeros-set o.waiters (ground (arith, some_wait)) h.0.waiters_word).0 in
      let left = without_waiter-IsOwned o w h.0 in
      let next : IsOwned (handed_to w o) = record {
        waiters_word = left.waiters_word;
        held = λ _. low;
        free = λ f. absurd (cc (f, l));
      } in
      rw some_wait (
        Stays-and_then (Both IsOwned) (lift (unblock_thread w) (handed_to w o, m)) _
          (Stays-beside IsOwned (handed_to w o) (unblock_thread w m) next
            (unblock_thread-Stays w m low h.1))
          (λ _ s h'. h'))
]

-- A mutex with a thread for its owner is locked.
owner-locked : (o : Mutex) (id : ℕ) → id < 32 → IsOwned o → o.owner ≡ id → o.locked ≡ true
owner-locked o id low h e = elim (Bool-cases o.locked) [
  | inl y ↦ y
  | inr n ↦ let (a, _, _) = h.free n in absurd (omega arith)
]

-- `unlock` keeps the scheduler invariant and that a mutex is free exactly when it has no owner, and
-- does not panic.
unlock-Stays :
    (o : Mutex) (m : Machine) → Both IsOwned (o, m) → Stays (Both IsOwned) (unlock (o, m))
unfolding unlock
unlock-Stays o m h = elim (Bool-cases (o.owner == m.sched.current_id)) [
  | inr other ↦ rw other h
  | inl own ↦
      let n = (o.nest + u32_mod - 1) % u32_mod in
      let l =
        owner-locked o m.sched.current_id (omega (arith, h.1.current_in)) h.0
          ((==_iff _ _).0 own) in
      let o' = nest-IsOwned o n l h.0 in
      elim (Bool-cases (n == 0)) [
        | inl last ↦
            rw (own, last)
              (Stays-and_then (Both IsOwned)
                (hand_over (record o { nest = n }, (interrupt_disable m).1)) _
                (hand_over-Stays (record o { nest = n }) (interrupt_disable m).1 l (o', h.1))
                (λ _ s h'. h'))
        | inr more ↦ rw (own, more) (o', h.1)
      ]
]

-- `lock`, `try_lock` and `unlock` keep the scheduler invariant and that a mutex is free exactly when
-- it has no owner, over the switch of a lock that waits, and do not panic.
pub mutex_calls-Stays :
    (limit : Option ℕ) (o : Mutex) (m : Machine)
    → Both IsOwned (o, m)
    → Stays (Both IsOwned) (lock limit (o, m))
      × Stays (Both IsOwned) (try_lock (o, m))
      × Stays (Both IsOwned) (unlock (o, m))
mutex_calls-Stays limit o m h = (lock-Stays limit o m h, try_lock-Stays o m h, unlock-Stays o m h)
