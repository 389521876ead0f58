-- ===== src/Ipc/Mutex.antt =====
-- src/ipc/mutex.rs.
pub mod Owned
pub mod Handover
use f1c100s_rs.Base.{ℕ, ◌+◌, ◌-◌, ◌%◌, Bool, true, false, Option, none, some, ◌==◌, if◌then◌else◌}
use f1c100s_rs.Bits.{bit, bit_or, bit_and, not32, trailing_zeros, u32_mod}
use f1c100s_rs.Run.{ret, Run, and_then, lift}
use f1c100s_rs.Thread.Types.{Machine}
use f1c100s_rs.Thread.Schedule.{interrupt_disable, interrupt_enable}
use f1c100s_rs.Thread.Wait.{unblock_thread, current_id}
use f1c100s_rs.Ipc.Section.{mask_off, restore, await}

-- `MutexError`, and the `Ok(())` of the results.
pub data Locked : Type 0 where
  ok timeout not_owner already_locked : Locked

pub record Mutex : Type 0 where
  pub locked : Bool
  pub owner : ℕ
  pub nest : ℕ
  pub waiters : ℕ

abbrev pub no_owner : ℕ
no_owner = 0xff

abbrev pub State : Type 0
State = Mutex × Machine

-- `Mutex::new`.
abbrev pub new : Mutex
new = record { locked = false; owner = no_owner; nest = 0; waiters = 0 }

abbrev pub without_waiter : ℕ → Mutex → Mutex
without_waiter id o = record o { waiters = bit_and o.waiters (not32 (bit id)) }

-- The two branches of `try_lock` and `lock` that take the mutex at once.
unfoldable pub acquired : ℕ → Mutex → Option Mutex
acquired id o =
    if o.locked
    then (if o.owner == id then some (record o { nest = (o.nest + 1) % u32_mod }) else none)
    else some (record o { locked = true; owner = id; nest = 1 })

-- `try_lock`.
unfoldable pub try_lock : Run State Bool
unfolding interrupt_disable interrupt_enable acquired
try_lock s =
    let (cpsr, (o, m)) = mask_off s in
    elim (acquired (current_id m) o) [
      | some o' ↦ ret true (restore cpsr (o', m))
      | none ↦ ret false (restore cpsr (o, m))
    ]

-- `lock`, after the wait.
unfoldable pub lock_waited : ℕ → Bool → ℕ → Run State Locked
unfolding interrupt_enable
lock_waited id true cpsr s = ret ok (restore cpsr s)
lock_waited id false cpsr (o, m) = ret timeout (restore cpsr (without_waiter id o, m))

-- `lock`.
unfoldable pub lock : Option ℕ → Run State Locked
unfolding interrupt_disable interrupt_enable acquired lock_waited await
lock limit s =
    let (cpsr, (o, m)) = mask_off s in
    let id = current_id m in
    elim (acquired id o) [
      | some o' ↦ ret ok (restore cpsr (o', m))
      | none ↦ await limit (lock_waited id) (record o { waiters = bit_or o.waiters (bit id) }, m)
    ]

-- The mutex goes from its owner to the waiter `w`.
abbrev pub handed_to : ℕ → Mutex → Mutex
handed_to w o = record (without_waiter w o) { owner = w; nest = 1 }

-- The end of `unlock`, when the last of the nested locks is gone.
unfoldable pub hand_over : Run State Locked
hand_over (o, m) =
    if o.waiters == 0
    then ret ok (record o { locked = false; owner = no_owner; nest = 0 }, m)
    else (let w = trailing_zeros o.waiters in
        and_then (lift (unblock_thread w) (handed_to w o, m)) (λ _. ret ok))

-- `unlock`.
unfoldable pub unlock : Run State Locked
unfolding interrupt_disable interrupt_enable hand_over
unlock s =
    let (cpsr, (o, m)) = mask_off s in
    if o.owner == current_id m
    then (let nest' = (o.nest + u32_mod - 1) % u32_mod in
        if nest' == 0
        then and_then (hand_over (record o { nest = nest' }, m)) (λ r s'. ret r (restore cpsr s'))
        else ret ok (restore cpsr (record o { nest = nest' }, m)))
    else ret not_owner (restore cpsr (o, m))

-- `is_locked`.
abbrev pub is_locked : Mutex → Bool
is_locked o = o.locked

-- `owner`.
abbrev pub owner_of : Mutex → Option ℕ
owner_of o = if o.owner == no_owner then none else some o.owner
