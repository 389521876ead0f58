-- ===== src/Ipc/Semaphore/Quiet.antt =====
-- The tokens and the waiters of a semaphore of src/ipc/semaphore.rs.
use f1c100s_rs.Base.{
  ℕ, ◌<◌, ◌≡◌, Bool, true, false, Option, arith, ◌==◌, ==_iff, Bool-cases, inl, inr,
}
use f1c100s_rs.Bits.{bit, bit_or, trailing_zeros, u32_mod}
use f1c100s_rs.Bits.Masks.{set_bit-lt, bit_and-lt}
use f1c100s_rs.Bits.Step.{zero-bit_and}
use f1c100s_rs.Bits.Scan.{trailing_zeros-set}
use f1c100s_rs.Run.{lift, Stays, Stays-and_then}
use f1c100s_rs.Thread.Types.{Machine}
use f1c100s_rs.Thread.Wait.{unblock_thread}
use f1c100s_rs.Thread.Keeps.{unblock_thread-Stays}
use f1c100s_rs.Ipc.Section.{Both, Stays-beside, await-Stays}
use f1c100s_rs.Ipc.Semaphore.{
  Semaphore, State, is_positive, decrement, without_waiter, try_take, take, taken, release,
  release_locked,
}

pub record IsQuiet (o : Semaphore) : Type 0 where
  pub count_word : o.count < u32_mod
  pub waiters_word : o.waiters < u32_mod
  pub quiet : is_positive o.count ≡ true → o.waiters ≡ 0

decrement-IsQuiet : (o : Semaphore) → is_positive o.count ≡ true → IsQuiet o → IsQuiet (decrement o)
decrement-IsQuiet o some_left h = record {
  count_word = omega arith;
  waiters_word = h.waiters_word;
  quiet = λ _. h.quiet some_left;
}

without_waiter-IsQuiet : (o : Semaphore) (id : ℕ) → IsQuiet o → IsQuiet (without_waiter id o)
without_waiter-IsQuiet o id h = record {
  count_word = h.count_word;
  waiters_word = bit_and-lt o.waiters _ u32_mod h.waiters_word;
  quiet = λ left. rw (h.quiet left) (zero-bit_and _);
}

add_waiter-IsQuiet :
    (o : Semaphore) (id : ℕ)
    → is_positive o.count ≡ false
    → IsQuiet o
    → IsQuiet (record o { waiters = bit_or o.waiters (bit id) })
add_waiter-IsQuiet o id empty h = record {
  count_word = h.count_word;
  waiters_word = set_bit-lt o.waiters id h.waiters_word;
  quiet = λ left. absurd (cc (empty, left));
}

taken-Stays :
    (id : ℕ) (done : Bool) (cpsr : ℕ) (s : State)
    → Both IsQuiet s
    → Stays (Both IsQuiet) (taken id done cpsr s)
unfolding taken
taken-Stays id true cpsr s h = h
taken-Stays id false cpsr s h = (without_waiter-IsQuiet s.0 id h.0, h.1)

-- `take` keeps the invariant, up to its switch and after it.
take-Stays :
    (limit : Option ℕ) (o : Semaphore) (m : Machine)
    → Both IsQuiet (o, m)
    → Stays (Both IsQuiet) (take limit (o, m))
unfolding take
take-Stays limit o m h = elim (Bool-cases (is_positive o.count)) [
  | inl some_left ↦ rw some_left (decrement-IsQuiet o some_left h.0, h.1)
  | inr empty ↦ rw empty (
      await-Stays IsQuiet limit (taken m.sched.current_id) (taken-Stays m.sched.current_id) _
        (add_waiter-IsQuiet o m.sched.current_id empty h.0, h.1))
]

try_take-Stays :
    (o : Semaphore) (m : Machine) → Both IsQuiet (o, m) → Stays (Both IsQuiet) (try_take (o, m))
unfolding try_take
try_take-Stays o m h = elim (Bool-cases (is_positive o.count)) [
  | inl some_left ↦ rw some_left (decrement-IsQuiet o some_left h.0, h.1)
  | inr empty ↦ rw empty h
]

release_locked-Stays :
    (o : Semaphore) (m : Machine)
    → Both IsQuiet (o, m)
    → Stays (Both IsQuiet) (release_locked (o, m))
unfolding release_locked
release_locked-Stays o m h = elim (Bool-cases (o.waiters == 0)) [
  | inl none_waits ↦ rw none_waits (
    record {
      count_word = omega arith;
      waiters_word = h.0.waiters_word;
      quiet = λ _. (==_iff _ _).0 none_waits;
    },
    h.1,
  )
  | inr some_wait ↦
      let w = trailing_zeros o.waiters in
      let low = (trailing_zeros-set o.waiters (ground (arith, some_wait)) h.0.waiters_word).0 in
      rw some_wait (
        Stays-and_then (Both IsQuiet) (lift (unblock_thread w) (without_waiter w o, m)) _
          (Stays-beside IsQuiet (without_waiter w o) (unblock_thread w m)
            (without_waiter-IsQuiet o w h.0) (unblock_thread-Stays w m low h.1))
          (λ _ s h'. h'))
]

-- `release` keeps the scheduler invariant and that no thread waits while tokens are left, and does
-- not panic.
release-Stays :
    (o : Semaphore) (m : Machine) → Both IsQuiet (o, m) → Stays (Both IsQuiet) (release (o, m))
unfolding release
release-Stays o m h =
    Stays-and_then (Both IsQuiet) (release_locked _) _ (release_locked-Stays o _ h) (λ _ s h'. h')

-- `take`, `try_take` and `release` keep the scheduler invariant and that no thread waits while tokens
-- are left, over the switch of a take that waits, and do not panic.
pub semaphore_calls-Stays :
    (limit : Option ℕ) (o : Semaphore) (m : Machine)
    → Both IsQuiet (o, m)
    → Stays (Both IsQuiet) (take limit (o, m))
      × Stays (Both IsQuiet) (try_take (o, m))
      × Stays (Both IsQuiet) (release (o, m))
semaphore_calls-Stays limit o m h =
    (take-Stays limit o m h, try_take-Stays o m h, release-Stays o m h)
