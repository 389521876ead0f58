-- ===== src/Tests/Ipc.antt =====
-- A semaphore and a mutex of src/ipc/ on the threads of Tests/Scheduler.antt.
use f1c100s_rs.Base.{◌≡◌, none, some, refl, true, false, arith}
use f1c100s_rs.Bits.{trailing_zeros}
use f1c100s_rs.Run.{ret, Stays, and_then}
use f1c100s_rs.Thread.Types.{Machine, with_sched}
use f1c100s_rs.Thread.Schedule.{interrupt_enable}
use f1c100s_rs.Ipc.Section.{Both}
use f1c100s_rs.Ipc.Semaphore.{Semaphore, Taken, without_waiter, take, try_take, release}
use f1c100s_rs.Ipc.Semaphore.Quiet.{IsQuiet, semaphore_calls-Stays}
use f1c100s_rs.Ipc.Semaphore.Release.{release-lost}
use f1c100s_rs.Ipc.Mutex.{Mutex, Locked, lock, try_lock, unlock, lock_waited}
use f1c100s_rs.Ipc.Mutex.Owned.{IsOwned, mutex_calls-Stays}
use f1c100s_rs.Ipc.Mutex.Handover.{unlock-orphan}
use f1c100s_rs.Tests.Scheduler.{off, worker, machine, alone, up-IsSane}

-- No token, and thread 1 waits.
abbrev wanted : Semaphore
wanted = record { count = 0; waiters = 2 }

wanted-IsQuiet : IsQuiet wanted
wanted-IsQuiet = record {
  count_word = omega arith;
  waiters_word = omega arith;
  quiet = λ e. absurd (cc e);
}

semaphore_calls-Stays_example :
    Stays (Both IsQuiet) (take (some 7) (wanted, machine))
    × Stays (Both IsQuiet) (try_take (wanted, machine))
    × Stays (Both IsQuiet) (release (wanted, machine))
semaphore_calls-Stays_example =
    semaphore_calls-Stays (some 7) wanted machine (wanted-IsQuiet, up-IsSane)

-- Thread 1 is ready again, since its wait timed out.
release-lost_example :
    release (wanted, machine) ≡ ret Taken.ok (without_waiter (trailing_zeros 2) wanted, machine)
unfolding trailing_zeros
release-lost_example =
    release-lost wanted machine (worker 1) (λ e. absurd (omega arith)) (omega arith) refl refl

abbrev alone_machine : Machine
alone_machine = with_sched off (record alone { current_id = 0 })

-- Thread 0 has the mutex, and thread 1 waits.
abbrev contended : Mutex
contended = record { locked = true; owner = 0; nest = 1; waiters = 2 }

contended-IsOwned : IsOwned contended
contended-IsOwned = record {
  waiters_word = omega arith;
  held = λ _. omega arith;
  free = λ e. absurd (cc e);
}

mutex_calls-Stays_example :
    Stays (Both IsOwned) (lock none (contended, machine))
    × Stays (Both IsOwned) (try_lock (contended, machine))
    × Stays (Both IsOwned) (unlock (contended, machine))
mutex_calls-Stays_example = mutex_calls-Stays none contended machine (contended-IsOwned, up-IsSane)

unlock-orphan_example :
    (left : Mutex) × (and_then
        (unlock (contended, machine))
        (λ _. lock_waited (trailing_zeros 2) false 0x13)
      ≡ ret Locked.timeout (left, interrupt_enable 0x13 machine))
    × (left.locked ≡ true)
    × (left.owner ≡ trailing_zeros 2)
unfolding trailing_zeros
unlock-orphan_example =
    unlock-orphan contended machine (worker 1) 0x13 refl refl (λ e. absurd (omega arith))
      (omega arith) refl refl
