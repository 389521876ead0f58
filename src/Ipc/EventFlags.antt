-- ===== src/Ipc/EventFlags.antt =====
-- src/ipc/event.rs.
pub mod Words
pub mod Settled
pub mod Cleared
pub mod Wakes
use f1c100s_rs.Base.{
  ℕ, zero, suc, ◌-◌, Bool, true, false, Option, none, some, ltb, ◌==◌, not, if◌then◌else◌, update,
}
use f1c100s_rs.Bits.{bit, bit_or, bit_and, not32, trailing_zeros}
use f1c100s_rs.Run.{ret, panic, Run, and_then, lift}
use f1c100s_rs.Thread.Types.{Machine, max_threads}
use f1c100s_rs.Thread.Schedule.{interrupt_disable, interrupt_enable}
use f1c100s_rs.Thread.Wait.{unblock_thread, current_id}
use f1c100s_rs.Ipc.Section.{mask_off, restore, await}

-- `EventMode`.
pub data EventMode : Type 0 where
  any_of all_of : EventMode

-- `Result<u32, EventError>`.
pub data Waited : Type 0 where
  ok : ℕ → Waited
  timeout : Waited

pub record Waiter : Type 0 where
  pub flags : ℕ
  pub mode : EventMode
  pub clear_on_exit : Bool

pub record EventFlags : Type 0 where
  pub flags : ℕ
  pub waiters : ℕ
  pub wait_params : ℕ → Option Waiter

abbrev pub State : Type 0
State = EventFlags × Machine

-- `EventFlags::new`.
abbrev pub new : EventFlags
new = record { flags = 0; waiters = 0; wait_params = λ _. none }

-- `condition_met` of the flags `have`.
unfoldable pub condition_met : (have flags : ℕ) → EventMode → Bool
condition_met have flags any_of = not (bit_and have flags == 0)
condition_met have flags all_of = bit_and have flags == flags

abbrev pub without_waiter : ℕ → EventFlags → EventFlags
without_waiter id o = record o { waiters = bit_and o.waiters (not32 (bit id)) }

abbrev pub set_params : ℕ → Option Waiter → EventFlags → EventFlags
set_params id w o = record o { wait_params = update o.wait_params id w }

-- `if clear { self.flags &= !flags; }`
abbrev pub clear_if : Bool → ℕ → EventFlags → EventFlags
clear_if clears flags o = record o {
  flags = if clears then bit_and o.flags (not32 flags) else o.flags;
}

-- One round of `check_waiters`.
unfoldable pub check_one : ℕ → Run State (Unit {0})
unfolding condition_met unblock_thread
check_one id (o, m) = elim (o.wait_params id) [
  | none ↦ ret tt (o, m)
  | some w ↦
      if condition_met o.flags w.flags w.mode
      then lift (unblock_thread id) (without_waiter id (clear_if w.clear_on_exit w.flags o), m)
      else ret tt (o, m)
]

-- The loop of `check_waiters`, with at most `n` rounds; running out of them is a `panic`.
unfoldable pub check_from : ℕ → ℕ → Run State (Unit {0})
unfolding check_one
check_from zero mask s = if mask == 0 then ret tt s else panic
check_from (suc n) mask s =
    let rest = check_from n (bit_and mask (mask - 1)) in
    if mask == 0 then ret tt s else and_then (check_one (trailing_zeros mask) s) (λ _. rest)

-- `check_waiters`: each round makes the mask smaller, so that it bounds the rounds.
unfoldable pub check_waiters : Run State (Unit {0})
unfolding check_from
check_waiters s = check_from s.0.waiters s.0.waiters s

-- `set`.
unfoldable pub set : ℕ → Run State (Unit {0})
unfolding check_waiters interrupt_disable interrupt_enable
set flags s =
    let (cpsr, (o, m)) = mask_off s in
    and_then (check_waiters (record o { flags = bit_or o.flags flags }, m))
      (λ _ s'. ret tt (restore cpsr s'))

-- `clear`.
unfoldable pub clear : ℕ → Run State (Unit {0})
unfolding interrupt_disable interrupt_enable
clear flags s =
    let (cpsr, (o, m)) = mask_off s in
    ret tt (restore cpsr (record o { flags = bit_and o.flags (not32 flags) }, m))

-- `get`.
abbrev pub get : EventFlags → ℕ
get o = o.flags

-- `wait`, after the wait.
unfoldable pub event_waited : (id flags : ℕ) → Bool → Bool → ℕ → Run State Waited
unfolding interrupt_enable
event_waited id flags clears true cpsr (o, m) =
    ret (ok (bit_and o.flags flags))
      (restore cpsr (set_params id none (clear_if clears flags o), m))
event_waited id flags clears false cpsr (o, m) =
    ret timeout (restore cpsr (set_params id none (without_waiter id o), m))

-- `wait`.
unfoldable pub wait : ℕ → EventMode → Bool → Option ℕ → Run State Waited
unfolding condition_met interrupt_disable interrupt_enable event_waited await
wait flags mode clears limit s =
    let (cpsr, (o, m)) = mask_off s in
    if condition_met o.flags flags mode
    then ret (ok (bit_and o.flags flags)) (restore cpsr (clear_if clears flags o, m))
    else (let id = current_id m in
        let w : Waiter = record { flags = flags; mode = mode; clear_on_exit = clears } in
        if ltb id max_threads
        then await limit (event_waited id flags clears)
            (set_params id (some w) (record o { waiters = bit_or o.waiters (bit id) }), m)
        else panic)
