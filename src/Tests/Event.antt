-- ===== src/Tests/Event.antt =====
-- Event flags of src/ipc/event.rs: thread 1 waits for the flags 0 and 1, and has them cleared.
use f1c100s_rs.Base.{◌≡◌, true, some, arith, update}
use f1c100s_rs.Run.{ret, Stays}
use f1c100s_rs.Thread.Types.{Machine}
use f1c100s_rs.Ipc.Section.{Both}
use f1c100s_rs.Ipc.EventFlags.{EventFlags, EventMode, Waiter, new, set}
use f1c100s_rs.Ipc.EventFlags.Words.{IsWords, set-Stays}
use f1c100s_rs.Ipc.EventFlags.Settled.{IsSettled, set-settles}
use f1c100s_rs.Tests.Scheduler.{machine, up-IsSane}

abbrev waiter : Waiter
waiter = record { flags = 3; mode = EventMode.all_of; clear_on_exit = true }

abbrev awaited : EventFlags
awaited = record new {
  flags = 1;
  waiters = 2;
  wait_params = update new.wait_params 1 (some waiter);
}

awaited-IsWords : IsWords awaited
awaited-IsWords = record { flags_word = omega arith; waiters_word = omega arith }

set-Stays_example : Stays (Both IsWords) (set 2 (awaited, machine))
set-Stays_example = set-Stays 2 awaited machine (omega arith) (awaited-IsWords, up-IsSane)

set-settles_example :
    (o' : EventFlags) × (m' : Machine) × (set 2 (awaited, machine) ≡ ret tt (o', m')) × IsSettled o'
set-settles_example = set-settles 2 awaited machine (omega arith)

abbrev have_both : EventFlags
have_both = record awaited { flags = 3 }
