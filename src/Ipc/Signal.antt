-- ===== src/Ipc/Signal.antt =====
-- src/ipc/signal.rs. A handler is code of the user: `H` is the type of the handlers, and `call` what
-- one does with a signal.
pub mod Deliverable
use f1c100s_rs.Base.{
  ℕ, zero, suc, Bool, true, false, Option, none, some, ltb, ◌==◌, if◌then◌else◌, update,
}
use f1c100s_rs.Bits.{bit, bit_or, bit_and, not32, trailing_zeros}
use f1c100s_rs.Run.{ret, panic, Run, and_then, lift}
use f1c100s_rs.Thread.Types.{Thread, Machine, max_threads, with_sched}
use f1c100s_rs.Thread.Schedule.{put, interrupt_disable, interrupt_enable}
use f1c100s_rs.Thread.Wait.{unblock_thread, current_id}
use f1c100s_rs.Ipc.Section.{mask_off, restore, await}

abbrev pub max_signals : ℕ
max_signals = 32

-- `SignalError`, and the `Ok` of the results.
pub data Signalled : Type 0 where
  ok : ℕ → Signalled
  invalid_signal timeout : Signalled

-- `HANDLERS`, `SIG_WAIT_MASK` and `SIG_WAITERS`.
pub record Signals (H : Type 0) : Type 0 where
  pub handlers : ℕ → ℕ → Option H
  pub wait_masks : ℕ → ℕ
  pub waiters : ℕ

-- The deliverable signal of a thread with the lowest number among `wait_mask`, and the thread
-- without it.
unfoldable pub take_one : ℕ → Thread → Option (ℕ × Thread)
take_one wait_mask t =
    let deliverable = bit_and (bit_and t.sig_pending (not32 t.sig_mask)) wait_mask in
    let signo = trailing_zeros deliverable in
    if deliverable == 0
    then none
    else some (signo, record t { sig_pending = bit_and t.sig_pending (not32 (bit signo)) })

-- The same for the thread `id`, which is written back.
unfoldable pub take_signal : (wait_mask id : ℕ) → Run Machine (Option ℕ)
unfolding take_one
take_signal wait_mask id m =
    if ltb id max_threads
    then elim (m.sched.threads id) [
      | none ↦ ret none m
      | some t ↦ elim (take_one wait_mask t) [
        | none ↦ ret none m
        | some (signo, t') ↦ ret (some signo) (with_sched m (put id t' m.sched))
      ]
    ]
    else panic

-- The thread `id` with the signal pending.
abbrev pub with_pending : ℕ → Thread → Thread
with_pending signo t = record t { sig_pending = bit_or t.sig_pending (bit signo) }

module _ {H : Type 0} where
  -- Set the entry of the handler table.
  abbrev pub set_handler : (id signo : ℕ) → Option H → Signals H → Signals H
  set_handler id signo handler o = record o {
    handlers = update o.handlers id (update (o.handlers id) signo handler);
  }

  -- `signal_install`, and `signal_uninstall`.
  unfoldable pub signal_install : ℕ → Option H → Run (Signals H × Machine) Signalled
  unfolding interrupt_disable interrupt_enable
  signal_install signo handler s =
      if ltb signo max_signals
      then (let (cpsr, (o, m)) = mask_off s in
          if ltb (current_id m) max_threads
          then ret (ok 0) (restore cpsr (set_handler (current_id m) signo handler o, m))
          else panic)
      else ret invalid_signal s

  -- `signal_mask`: the old mask.
  unfoldable pub signal_mask : ℕ → Run (Signals H × Machine) ℕ
  unfolding interrupt_disable interrupt_enable
  signal_mask mask s =
      let (cpsr, (o, m)) = mask_off s in
      let id = current_id m in
      if ltb id max_threads
      then elim (m.sched.threads id) [
        | none ↦ ret 0 (restore cpsr (o, m))
        | some t ↦
            ret t.sig_mask
              (restore cpsr (o, with_sched m (put id (record t { sig_mask = mask }) m.sched)))
      ]
      else panic

  -- The wake-up in `signal_send`, for a thread whose signal is pending: whether it was woken.
  unfoldable pub wake_for : ℕ → Thread → Run (Signals H × Machine) Bool
  unfolding unblock_thread
  wake_for id t (o, m) =
      if bit_and o.waiters (bit id) == 0
      then ret false (o, m)
      else (if bit_and (bit_and t.sig_pending (not32 t.sig_mask)) (o.wait_masks id) == 0
          then ret false (o, m)
          else and_then
              (lift (unblock_thread id)
                (record o { waiters = bit_and o.waiters (not32 (bit id)) }, m))
              (λ _. ret true))

  -- The body of `signal_send`, which is that of `signal_send_from_isr`.
  unfoldable pub send_inner : (id signo : ℕ) → Run (Signals H × Machine) Bool
  unfolding wake_for
  send_inner id signo (o, m) =
      if ltb id max_threads
      then elim (m.sched.threads id) [
        | none ↦ ret false (o, m)
        | some t ↦
            wake_for id (with_pending signo t)
              (o, with_sched m (put id (with_pending signo t) m.sched))
      ]
      else panic

  -- `signal_send`.
  unfoldable pub signal_send : (target signo : ℕ) → Run (Signals H × Machine) Signalled
  unfolding send_inner interrupt_disable interrupt_enable
  signal_send target signo s =
      if ltb signo max_signals
      then (let (cpsr, s') = mask_off s in
          and_then (send_inner target signo s') (λ _ s''. ret (ok 0) (restore cpsr s'')))
      else ret invalid_signal s

  -- `signal_send_from_isr`.
  unfoldable pub signal_send_from_isr : (target signo : ℕ) → Run (Signals H × Machine) Bool
  unfolding send_inner
  signal_send_from_isr target signo s =
      if ltb signo max_signals then send_inner target signo s else ret false s

  module _ (call : H → ℕ → Run (Signals H × Machine) (Unit {0})) where
    -- `deliver_one`.
    unfoldable pub deliver_one : (id signo : ℕ) → Run (Signals H × Machine) (Unit {0})
    deliver_one id signo (o, m) =
        if ltb id max_threads
        then elim (o.handlers id signo) [
          | none ↦ ret tt (o, m)
          | some handler ↦ call handler signo (o, m)
        ]
        else panic

    -- `signal_wait`, after the wait.
    unfoldable pub wait_over : (wait_mask id : ℕ) → Bool → ℕ → Run (Signals H × Machine) Signalled
    unfolding take_signal deliver_one interrupt_enable
    wait_over wait_mask id true cpsr s = and_then (lift (take_signal wait_mask id) s) (λ got s'.
        let signo : ℕ = elim got [ none ↦ 0 | some x ↦ x ] in
        and_then (deliver_one id signo (restore cpsr s')) (λ _. ret (ok signo)))
    wait_over wait_mask id false cpsr (o, m) =
        ret timeout (restore cpsr (record o { waiters = bit_and o.waiters (not32 (bit id)) }, m))

    -- `signal_wait`.
    unfoldable pub signal_wait : ℕ → Option ℕ → Run (Signals H × Machine) Signalled
    unfolding take_signal deliver_one wait_over interrupt_disable interrupt_enable await
    signal_wait wait_mask limit s =
        let (cpsr, s') = mask_off s in
        let id = current_id s'.1 in
        and_then (lift (take_signal wait_mask id) s') (λ got s''. elim got [
          | some signo ↦ and_then (deliver_one id signo (restore cpsr s'')) (λ _. ret (ok signo))
          | none ↦
              let (o, m) = s'' in
              await limit (wait_over wait_mask id) (
                record o {
                  wait_masks = update o.wait_masks id wait_mask;
                  waiters = bit_or o.waiters (bit id);
                },
                m,
              )
        ])

    -- `signal_check`, with at most `n` rounds; `none` when they do not suffice.
    unfoldable pub signal_check : ℕ → ℕ → Run (Signals H × Machine) (Option (Unit {0}))
    unfolding take_signal deliver_one interrupt_disable interrupt_enable
    signal_check zero id s = ret none s
    signal_check (suc n) id s =
        let rest = signal_check n id in
        let (cpsr, s') = mask_off s in
        and_then (lift (take_signal 0xffff_ffff id) s') (λ got s''. elim got [
          | none ↦ ret (some tt) (restore cpsr s'')
          | some signo ↦ and_then (deliver_one id signo (restore cpsr s'')) (λ _. rest)
        ])
