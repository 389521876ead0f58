-- ===== src/Ipc/Semaphore/Release.antt =====
-- What a release of src/ipc/semaphore.rs does with its token.
use f1c100s_rs.Base.{
  ℕ, ◌+◌, ◌%◌, ◌<◌, ◌≤◌, ◌≡◌, ◌≢◌, refl, true, false, not, ◌&&◌, Option, none, some, lt→ltb, ◌==◌,
  ne→==, eq→==, Bool-cases, inl, inr,
}
use f1c100s_rs.Bits.{bit, bit_or, trailing_zeros, u32_mod, test_bit}
use f1c100s_rs.Bits.Scan.{trailing_zeros-set, trailing_zeros-le}
use f1c100s_rs.Bits.Masks.{test_bit-clear}
use f1c100s_rs.Run.{ret}
use f1c100s_rs.Thread.Types.{Thread, Machine, with_sched, is_waiting, noint, max_threads}
use f1c100s_rs.Thread.Ready.{pick_next}
use f1c100s_rs.Thread.Schedule.{interrupt_disable, interrupt_enable}
use f1c100s_rs.Ipc.Section.{after_block, await-alone}
use f1c100s_rs.Thread.Wait.{unblock, unblock_thread}
use f1c100s_rs.Ipc.Semaphore.{
  ok, timeout, Semaphore, is_positive, without_waiter, take, taken, release,
}

-- Where nobody waits, the count grows by one; the machine is as before.
pub release-count :
    (o : Semaphore) (m : Machine)
    → o.waiters ≡ 0
    → release (o, m) ≡ ret ok (record o { count = (o.count + 1) % u32_mod }, m)
unfolding release
release-count o m e = rw (eq→== o.waiters 0 e)

-- The waiter that a release serves.
pub record IsLowest (id waiters : ℕ) : Type 0 where
  pub in_range : id < 32
  pub waits : test_bit waiters id ≡ true
  pub lowest : (j : ℕ) → test_bit waiters j ≡ true → id ≤ j

-- Where some wait, the waiter with the lowest number, and no other, leaves the set of waiters and
-- is handed to `unblock_thread`; the count and the interrupt mask stay as they were.
pub release-waiter :
    (o : Semaphore) (m : Machine)
    → o.waiters ≢ 0
    → o.waiters < u32_mod
    → (w : ℕ) × IsLowest w o.waiters
      × (release (o, m) ≡ ret ok (without_waiter w o, with_sched m (unblock w m.sched)))
      × ((j : ℕ) → test_bit (without_waiter w o).waiters j ≡ (test_bit o.waiters j && not (j == w)))
unfolding release unblock_thread
release-waiter o m ne word =
    let w = trailing_zeros o.waiters in
    let (low, set) = trailing_zeros-set o.waiters ne word in
    (
      w,
      record { in_range = low; waits = set; lowest = trailing_zeros-le o.waiters },
      rw (ne→== o.waiters 0 ne, lt→ltb w 32 low),
      λ j. test_bit-clear o.waiters w j word low,
    )

pub unblock-ended :
    (id : ℕ) (m : Machine) (t : Thread)
    → m.sched.threads id ≡ some t
    → t.is_ipc_wait ≡ false
    → unblock id m.sched ≡ m.sched
unfolding unblock
unblock-ended id m t e ended = elim (Bool-cases (is_waiting t.state)) [
  | inl y ↦ rw (e, ended, y, unblock)
  | inr n ↦ rw (e, ended, n, unblock)
]

-- If the wait of the lowest waiter has already ended by its timeout, and it has not yet run to
-- take itself out of the set, a release gives the token to nobody: the count stays, no thread is
-- woken, and the release reports success.
pub release-lost :
    (o : Semaphore) (m : Machine) (t : Thread)
    → o.waiters ≢ 0
    → o.waiters < u32_mod
    → m.sched.threads (trailing_zeros o.waiters) ≡ some t
    → t.is_ipc_wait ≡ false
    → release (o, m) ≡ ret ok (without_waiter (trailing_zeros o.waiters) o, m)
unfolding release unblock_thread
release-lost o m t ne word e ended =
    let w = trailing_zeros o.waiters in
    rw (
      ne→== o.waiters 0 ne,
      lt→ltb w 32 (trailing_zeros-set o.waiters ne word).0,
      unblock-ended w (interrupt_disable m).1 t e ended,
    )

-- Where the semaphore is empty and no other thread can be picked, `take` returns a timeout at once,
-- whatever its limit, and the interrupts that were on before are masked from then on.
pub take-alone :
    (limit : Option ℕ) (o : Semaphore) (m : Machine) (t : Thread)
    → is_positive o.count ≡ false
    → m.sched.current_id < max_threads
    → m.sched.threads m.sched.current_id ≡ some t
    → pick_next (after_block limit m t) ≡ none
    → (o' : Semaphore) × (m' : Machine) × (take limit (o, m) ≡ ret timeout (o', m'))
      × (m'.cpsr ≡ bit_or m.cpsr noint)
unfolding take
take-alone limit o m t empty hi e alone =
    let id = m.sched.current_id in
    let off = (interrupt_disable m).1 in
    let o' = record o { waiters = bit_or o.waiters (bit id) } in
    (
      without_waiter id o',
      interrupt_enable off.cpsr (interrupt_disable (with_sched off (after_block limit m t))).1,
      rw empty (await-alone limit (taken id) o' off t hi e alone),
      refl,
    )
