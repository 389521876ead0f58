-- ===== src/Ipc/Semaphore.antt =====
-- src/ipc/semaphore.rs. `count` is the bit pattern of the `i32`.
pub mod Quiet
pub mod Release
use f1c100s_rs.Base.{
  ℕ, ◌+◌, ◌-◌, ◌%◌, ◌^◌, ◌≡◌, Bool, true, false, ◌&&◌, Option, ltb, ◌==◌, if◌then◌else◌,
}
use f1c100s_rs.Bits.{bit, bit_or, bit_and, not32, trailing_zeros, count_ones, u32_mod}
use f1c100s_rs.Run.{Outcome, ret, Run, and_then, lift}
use f1c100s_rs.Thread.Types.{Machine}
use f1c100s_rs.Thread.Schedule.{interrupt_disable, interrupt_enable}
use f1c100s_rs.Thread.Wait.{unblock_thread, current_id}
use f1c100s_rs.Ipc.Section.{mask_off, restore, await}

-- `SemError`, and the `Ok(())` of the results.
pub data Taken : Type 0 where
  ok timeout overflow : Taken

pub record Semaphore : Type 0 where
  pub count : ℕ
  pub waiters : ℕ

abbrev pub State : Type 0
State = Semaphore × Machine

-- `Semaphore::new`.
unfoldable pub new : ℕ → Semaphore
new initial = record { count = initial; waiters = 0 }

-- `self.count > 0`.
abbrev pub is_positive : ℕ → Bool
is_positive x = ltb 0 x && ltb x (2 ^ 31)

abbrev pub decrement : Semaphore → Semaphore
decrement o = record o { count = (o.count + u32_mod - 1) % u32_mod }

abbrev pub without_waiter : ℕ → Semaphore → Semaphore
without_waiter id o = record o { waiters = bit_and o.waiters (not32 (bit id)) }

-- `try_take`.
unfoldable pub try_take : Run State Bool
unfolding interrupt_disable interrupt_enable
try_take s =
    let (cpsr, (o, m)) = mask_off s in
    let got = is_positive o.count in ret got (restore cpsr (if got then decrement o else o, m))

-- `take`, after the wait.
unfoldable pub taken : ℕ → Bool → ℕ → Run State Taken
unfolding interrupt_enable
taken id true cpsr s = ret ok (restore cpsr s)
taken id false cpsr (o, m) = ret timeout (restore cpsr (without_waiter id o, m))

-- `take`.
unfoldable pub take : Option ℕ → Run State Taken
unfolding interrupt_disable interrupt_enable taken await
take limit s =
    let (cpsr, (o, m)) = mask_off s in
    if is_positive o.count
    then ret ok (restore cpsr (decrement o, m))
    else (let id = current_id m in
        await limit (taken id) (record o { waiters = bit_or o.waiters (bit id) }, m))

-- `release_locked`.
unfoldable pub release_locked : Run State Taken
release_locked (o, m) =
    if o.waiters == 0
    then ret ok (record o { count = (o.count + 1) % u32_mod }, m)
    else (let id = trailing_zeros o.waiters in
        and_then (lift (unblock_thread id) (without_waiter id o, m)) (λ _. ret ok))

-- `release`.
unfoldable pub release : Run State Taken
unfolding interrupt_disable interrupt_enable release_locked
release s =
    let (cpsr, s') = mask_off s in
    and_then (release_locked s') (λ result s''. ret result (restore cpsr s''))

-- `release_from_isr`.
unfoldable pub release_from_isr : Run State Bool
unfolding release_locked
release_from_isr s =
    and_then (release_locked s)
      (λ result. ret (elim result [ ok ↦ true | timeout ↦ false | overflow ↦ false ]))

-- `waiter_count`; `count` is the field.
unfoldable pub waiter_count : Semaphore → ℕ
unfolding count_ones
waiter_count o = count_ones o.waiters
