-- ===== src/Ipc/EventFlags/Wakes.antt =====
-- Whom `set` of src/ipc/event.rs wakes if one thread waits.
use f1c100s_rs.Base.{
  ℕ, zero, suc, ◌-◌, ◌<◌, ◌≤◌, ◌≡◌, ◌≢◌, refl, sym, ap, ◌∙◌, true, false, ◌&&◌, some, inl, inr,
  arith, ◌==◌, if◌then◌else◌, ==_iff, eq→==, ne→==, lt→ltb, pos, Bool-cases,
}
use f1c100s_rs.Bits.{bit, bit_or, bit_and, not32, trailing_zeros, test_bit}
use f1c100s_rs.Bits.Laws.{
  test_bit-bit, test_bit-bit_or, test_bit-bit_and, test_bit-not32, zero-test_bit, eq_of_bits,
}
use f1c100s_rs.Bits.Shift.{bit-lt}
use f1c100s_rs.Bits.Scan.{trailing_zeros-set, ne_zero_of_test_bit}
use f1c100s_rs.Bits.Lowest.{test_bit-drop_lowest}
use f1c100s_rs.Run.{ret, and_then}
use f1c100s_rs.Thread.Types.{Thread, ThreadState, is_waiting, Machine, with_sched}
use f1c100s_rs.Thread.Schedule.{with_state, interrupt_disable, interrupt_enable}
use f1c100s_rs.Thread.Wait.{unblock_thread, unblock, woken}
use f1c100s_rs.Thread.Wake.{unblock-threads}
use f1c100s_rs.Ipc.Section.{restore}
use f1c100s_rs.Ipc.EventFlags.{
  any_of, EventFlags, condition_met, without_waiter, clear_if, check_one, check_from, check_waiters,
  set,
}

-- Thread `w` alone waits on the flags, for the flag 1, which the end of the wait clears.
pub record IsAwaited (w : ℕ) (th : Thread) (o : EventFlags) (m : Machine) : Type 0 where
  pub slot : w < 32
  pub only : o.waiters ≡ bit w
  pub wants : o.wait_params w ≡ some (record { flags = 1; mode = any_of; clear_on_exit = true })
  pub thread : m.sched.threads w ≡ some th
  pub waits : is_waiting th.state ≡ true
  pub on_ipc : th.is_ipc_wait ≡ true

-- The thread `w` is ready, its wait has succeeded, and no thread waits on the flags.
pub record IsWoken (w : ℕ) (o : EventFlags) (m : Machine) : Type 0 where
  pub none_left : o.waiters ≡ 0
  pub thread : Thread
  pub here : m.sched.threads w ≡ some thread
  pub ready : thread.state ≡ ThreadState.ready
  pub succeeds : thread.ipc_result ≡ pos 0
  pub waits_no_more : thread.is_ipc_wait ≡ false

bit-ne_zero : (w : ℕ) → w < 32 → bit w ≢ 0
bit-ne_zero w h = ne_zero_of_test_bit (bit w) w (test_bit-bit w w h ∙ eq→== w w refl)

trailing_zeros-bit : (w : ℕ) → w < 32 → trailing_zeros (bit w) ≡ w
trailing_zeros-bit w h =
    let p = trailing_zeros (bit w) in
    (==_iff p w).0
      (sym (test_bit-bit w p h) ∙ (trailing_zeros-set (bit w) (bit-ne_zero w h) (bit-lt w)).1)

drop_lowest-bit : (w : ℕ) → w < 32 → bit_and (bit w) (bit w - 1) ≡ 0
drop_lowest-bit w h =
    let x = bit_and (bit w) (bit w - 1) in
    eq_of_bits x x 0 (omega arith) (omega arith) λ i.
      rw
        (
          test_bit-drop_lowest (bit w) i (bit-ne_zero w h) (bit-lt w),
          test_bit-bit w i h,
          trailing_zeros-bit w h,
          zero-test_bit i,
        )
        (elim (Bool-cases (i == w)) [ inl e ↦ rw e refl | inr e ↦ rw e refl ])

clear-bit : (w : ℕ) → w < 32 → bit_and (bit w) (not32 (bit w)) ≡ 0
clear-bit w h =
    let x = bit_and (bit w) (not32 (bit w)) in
    eq_of_bits x x 0 (omega arith) (omega arith) λ i.
      rw
        (
          test_bit-bit_and (bit w) (not32 (bit w)) i,
          test_bit-not32 (bit w) i (bit-lt w),
          zero-test_bit i,
        )
        (elim (Bool-cases (test_bit (bit w) i)) [ inl e ↦ rw e (ground arith) | inr e ↦ rw e refl ])

-- The flag 1 is among the flags when it has been set.
flag_set : (flags : ℕ) → condition_met (bit_or flags 1) 1 any_of ≡ true
unfolding condition_met test_bit
flag_set flags =
    let x = bit_and (bit_or flags 1) 1 in
    let low : test_bit x 0 ≡ true =
      test_bit-bit_and (bit_or flags 1) 1 0
      ∙ ap (λ b. b && true) (test_bit-bit_or flags 1 0)
      ∙ ground arith in
    rw (ne→== x 0 (ne_zero_of_test_bit x 0 low)) refl

check_one_wakes :
    (w : ℕ) (th : Thread) (o : EventFlags) (m : Machine)
    → IsAwaited w th o m
    → condition_met o.flags 1 any_of ≡ true
    → (o' : EventFlags) × (m' : Machine) × (check_one w (o, m) ≡ ret tt (o', m')) × IsWoken w o' m'
unfolding check_one unblock_thread
check_one_wakes w th o m h met =
    let here : (unblock w m.sched).threads w ≡ some (with_state (woken th) ThreadState.ready) =
      rw (h.waits, h.on_ipc) at (unblock-threads w m.sched th h.thread) in
    (
      without_waiter w (clear_if true 1 o),
      with_sched m (unblock w m.sched),
      rw (h.wants, met, lt→ltb w 32 h.slot, check_one) refl,
      record {
        none_left = ap (λ x. bit_and x (not32 (bit w))) h.only ∙ clear-bit w h.slot;
        thread = with_state (woken th) ThreadState.ready;
        here = here;
        ready = refl;
        succeeds = refl;
        waits_no_more = refl;
      },
    )

check_from-done : (n : ℕ) (o : EventFlags) (m : Machine) → check_from n 0 (o, m) ≡ ret tt (o, m)
unfolding check_from
check_from-done zero o m = refl
check_from-done (suc n) o m = refl

-- One round is enough.
check_from_wakes :
    (n w : ℕ) (th : Thread) (o : EventFlags) (m : Machine)
    → bit w ≤ n
    → IsAwaited w th o m
    → condition_met o.flags 1 any_of ≡ true
    → (o' : EventFlags) × (m' : Machine) × (check_from n (bit w) (o, m) ≡ ret tt (o', m'))
      × IsWoken w o' m'
unfolding check_from
check_from_wakes zero w th o m enough h met = absurd (bit-ne_zero w h.slot (omega arith))
check_from_wakes (suc n) w th o m enough h met =
    let (o', m', ran, woke) = check_one_wakes w th o m h met in
    (
      o',
      m',
      (λ i.
            if ne→== (bit w) 0 (bit-ne_zero w h.slot) i
            then ret tt (o, m)
            else and_then (check_one (trailing_zeros-bit w h.slot i) (o, m))
                (λ _. check_from n (drop_lowest-bit w h.slot i)))
          ∙ (λ i. and_then (ran i) (λ _. check_from n 0))
          ∙ check_from-done n o' m',
      woke,
    )

-- `set` of the flag that the only registered thread waits for makes that thread ready, with the
-- result `IPC_OK`, and takes it out of the registered ones.
pub set_wakes :
    (w : ℕ) (th : Thread) (o : EventFlags) (m : Machine)
    → IsAwaited w th o m
    → (o' : EventFlags) × (m' : Machine) × (set 1 (o, m) ≡ ret tt (o', m')) × IsWoken w o' m'
unfolding set check_waiters
set_wakes w th o m h =
    let o1 = record o { flags = bit_or o.flags 1 } in
    let m1 = (interrupt_disable m).1 in
    let h1 : IsAwaited w th o1 m1 = record {
      slot = h.slot;
      only = h.only;
      wants = h.wants;
      thread = h.thread;
      waits = h.waits;
      on_ipc = h.on_ipc;
    } in
    let (o', m', ran, woke) =
      check_from_wakes (bit w) w th o1 m1 (omega arith) h1 (flag_set o.flags) in
    (
      o',
      interrupt_enable m.cpsr m',
      (λ i.
            and_then (check_from (h.only i) (h.only i) (o1, m1))
              (λ _ s'. ret tt (restore m.cpsr s')))
          ∙ (λ i. and_then (ran i) (λ _ s'. ret tt (restore m.cpsr s'))),
      record {
        none_left = woke.none_left;
        thread = woke.thread;
        here = woke.here;
        ready = woke.ready;
        succeeds = woke.succeeds;
        waits_no_more = woke.waits_no_more;
      },
    )
