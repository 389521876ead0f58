-- ===== src/Ipc/EventFlags/Words.antt =====
-- The words of src/ipc/event.rs under its operations, and the rounds of `check_waiters`.
use f1c100s_rs.Base.{
  ℕ, zero, suc, ◌-◌, ◌<◌, ◌≤◌, ◌≢◌, Bool, true, false, Option, Option-cases, Bool-cases, inl, inr,
  arith, ◌==◌, eq→==, lt→ltb,
}
use f1c100s_rs.Bits.{bit_or, bit_and, trailing_zeros, u32_mod}
use f1c100s_rs.Bits.Masks.{set_bit-lt, bit_and-lt, bit_or-lt}
use f1c100s_rs.Bits.Scan.{trailing_zeros-set}
use f1c100s_rs.Bits.Lowest.{drop_lowest-lt}
use f1c100s_rs.Run.{Stays, Stays-and_then}
use f1c100s_rs.Thread.Types.{Machine, max_threads}
use f1c100s_rs.Thread.Schedule.{interrupt_disable}
use f1c100s_rs.Thread.Wait.{unblock_thread}
use f1c100s_rs.Thread.Keeps.{unblock_thread-Stays}
use f1c100s_rs.Ipc.Section.{Both, Stays-beside, await-Stays}
use f1c100s_rs.Ipc.EventFlags.{
  EventMode, EventFlags, Waiter, State, condition_met, without_waiter, clear_if, set_params,
  check_one, check_from, check_waiters, set, wait, event_waited,
}

pub record IsWords (o : EventFlags) : Type 0 where
  pub flags_word : o.flags < u32_mod
  pub waiters_word : o.waiters < u32_mod

clear_if-IsWords :
    (b : Bool) (flags : ℕ) (o : EventFlags) → IsWords o → IsWords (clear_if b flags o)
clear_if-IsWords true flags o h = record {
  flags_word = bit_and-lt o.flags _ u32_mod h.flags_word;
  waiters_word = h.waiters_word;
}
clear_if-IsWords false flags o h = record {
  flags_word = h.flags_word;
  waiters_word = h.waiters_word;
}

without_waiter-IsWords : (id : ℕ) (o : EventFlags) → IsWords o → IsWords (without_waiter id o)
without_waiter-IsWords id o h = record {
  flags_word = h.flags_word;
  waiters_word = bit_and-lt o.waiters _ u32_mod h.waiters_word;
}

set_params-IsWords :
    (id : ℕ) (w : Option Waiter) (o : EventFlags) → IsWords o → IsWords (set_params id w o)
set_params-IsWords id w o h = record { flags_word = h.flags_word; waiters_word = h.waiters_word }

check_one-Stays :
    (id : ℕ) (o : EventFlags) (m : Machine)
    → id < max_threads
    → Both IsWords (o, m)
    → Stays (Both IsWords) (check_one id (o, m))
unfolding check_one
check_one-Stays id o m low h = elim (Option-cases (o.wait_params id)) [
  | inl e ↦ rw (e, check_one) h
  | inr (w, e) ↦ elim (Bool-cases (condition_met o.flags w.flags w.mode)) [
    | inl met ↦
        let o' = without_waiter id (clear_if w.clear_on_exit w.flags o) in
        let words =
          without_waiter-IsWords id (clear_if w.clear_on_exit w.flags o)
            (clear_if-IsWords w.clear_on_exit w.flags o h.0) in
        rw (e, met, check_one)
          (Stays-beside IsWords o' (unblock_thread id m) words (unblock_thread-Stays id m low h.1))
    | inr unmet ↦ rw (e, unmet, check_one) h
  ]
]

-- A number of rounds that is not less than the mask is enough.
check_from-Stays :
    (n mask : ℕ) (s : State)
    → mask ≤ n
    → mask < u32_mod
    → Both IsWords s
    → Stays (Both IsWords) (check_from n mask s)
unfolding check_from
check_from-Stays zero mask s le word h = rw (eq→== mask 0 (omega arith)) h
check_from-Stays (suc n) mask s le word h = elim (Bool-cases (mask == 0)) [
  | inl done ↦ rw done h
  | inr more ↦
      let ne : mask ≢ 0 = ground (arith, more) in
      rw more (
        Stays-and_then (Both IsWords) (check_one (trailing_zeros mask) s) _
          (check_one-Stays (trailing_zeros mask) s.0 s.1 (trailing_zeros-set mask ne word).0 h)
          (λ _ s' h'.
            check_from-Stays n (bit_and mask (mask - 1)) s' (omega (arith, drop_lowest-lt mask ne))
              (omega (arith, drop_lowest-lt mask ne)) h'))
]

-- `set` ends, does not panic, and keeps the scheduler invariant.
pub set-Stays :
    (flags : ℕ) (o : EventFlags) (m : Machine)
    → flags < u32_mod
    → Both IsWords (o, m)
    → Stays (Both IsWords) (set flags (o, m))
unfolding set check_waiters
set-Stays flags o m word h =
    let words : IsWords (record o { flags = bit_or o.flags flags }) = record {
      flags_word = bit_or-lt 32 o.flags flags h.0.flags_word word;
      waiters_word = h.0.waiters_word;
    } in
    Stays-and_then (Both IsWords) _ _
      (check_from-Stays o.waiters o.waiters
        (record o { flags = bit_or o.flags flags }, (interrupt_disable m).1) (omega arith)
        h.0.waiters_word (words, h.1))
      (λ _ s h'. h')

event_waited-Stays :
    (id flags : ℕ) (clears done : Bool) (cpsr : ℕ) (s : State)
    → Both IsWords s
    → Stays (Both IsWords) (event_waited id flags clears done cpsr s)
unfolding event_waited
event_waited-Stays id flags clears true cpsr s h =
    let w = clear_if-IsWords clears flags s.0 h.0 in
    (record { flags_word = w.flags_word; waiters_word = w.waiters_word }, h.1)
event_waited-Stays id flags clears false cpsr s h =
    let w = without_waiter-IsWords id s.0 h.0 in
    (record { flags_word = w.flags_word; waiters_word = w.waiters_word }, h.1)

-- `wait` keeps the same, up to its switch and after it.
pub wait-Stays :
    (flags : ℕ) (mode : EventMode) (clears : Bool) (limit : Option ℕ) (o : EventFlags) (m : Machine)
    → Both IsWords (o, m)
    → Stays (Both IsWords) (wait flags mode clears limit (o, m))
unfolding wait
wait-Stays flags mode clears limit o m h = elim (Bool-cases (condition_met o.flags flags mode)) [
  | inl met ↦ rw met (clear_if-IsWords clears flags o h.0, h.1)
  | inr unmet ↦
      let id = m.sched.current_id in
      rw (unmet, lt→ltb id max_threads h.1.current_in)
        (await-Stays IsWords limit (event_waited id flags clears)
          (event_waited-Stays id flags clears) _
          (
            record {
              flags_word = h.0.flags_word;
              waiters_word = set_bit-lt o.waiters id h.0.waiters_word;
            },
            h.1,
          ))
]
