-- ===== src/Tests/Scheduler.antt =====
-- Three threads of the scheduler of src/thread.rs: two of priority 5 and the idle one.
use f1c100s_rs.Base.{
  ℕ, ◌<◌, ◌≡◌, ◌⊎◌, refl, true, none, some, arith, is_some, update, ==_iff, sym, ◌∙◌,
}
use f1c100s_rs.Bits.{bit, bit_or, not32, test_bit, trailing_zeros}
use f1c100s_rs.Bits.Laws.{zero-test_bit, test_bit-bit}
use f1c100s_rs.Run.{ret, Stays}
use f1c100s_rs.Thread.Types.{Thread, ThreadState, Scheduler, Machine, new, max_threads, with_sched}
use f1c100s_rs.Thread.Ready.{ready_at, set_ready, pick_next, clear_ready_if_empty}
use f1c100s_rs.Thread.Marked.{IsMarked, IsTight}
use f1c100s_rs.Thread.Pick.{IsBest, NoneReady, pick_next-IsBest}
use f1c100s_rs.Thread.Schedule.{with_state}
use f1c100s_rs.Thread.Api.{new_thread, thread_suspend, thread_resume, thread_yield, thread_create}
use f1c100s_rs.Thread.Tick.{wake_from, sched_tick}
use f1c100s_rs.Thread.Sane.{IsSane, IsSaneMachine, write_set-IsMarked, write-IsMarked}
use f1c100s_rs.Thread.TickKeeps.{sched_tick-Stays}
use f1c100s_rs.Thread.Create.{thread_create_lem, Created}
use f1c100s_rs.Thread.Wake.{Ticked, wake_from-threads}
use f1c100s_rs.Thread.Stranded.{IsStranded, thread_resume-IsStranded}
use f1c100s_rs.Thread.Lost.{thread_yield-IsForgotten, IsForgotten, HandsOn}

abbrev pub off : Machine
off = record {
  sched = new;
  mem = λ _. 0;
  cpsr = 0x13;
  switch_interrupt_flag = 0;
  interrupt_from_thread = 0;
  interrupt_to_thread = 0;
}

abbrev pub worker : ℕ → Thread
worker id = new_thread id 0x8000 "worker" 0x8000 1024 5 10

abbrev idle : Thread
idle = new_thread 2 0x9000 "idle" 0x9000 1024 31 10

-- Thread 0 runs, thread 1 has the same priority and is ready, thread 2 is ready.
abbrev one : Scheduler
one = record new {
  threads = update new.threads 0 (some (with_state (worker 0) ThreadState.running));
  ready_bitmap = bit_or new.ready_bitmap (bit 5);
}

abbrev two : Scheduler
two = record one {
  threads = update one.threads 1 (some (worker 1));
  ready_bitmap = bit_or one.ready_bitmap (bit 5);
}

abbrev three : Scheduler
three = record two {
  threads = update two.threads 2 (some idle);
  ready_bitmap = bit_or two.ready_bitmap (bit 31);
}

abbrev up : Scheduler
up = record three {
  count = 3;
  current_id = 0;
  rr_cursor = update three.rr_cursor 5 0;
  started = true;
  initialized = true;
}

abbrev pub machine : Machine
machine = with_sched off up

empty-IsMarked : IsMarked new
empty-IsMarked = record { word = omega arith; each = λ i h. tt }

three-IsMarked : IsMarked three
three-IsMarked = write_set-IsMarked 2 31 idle two refl (omega arith) (
    write_set-IsMarked 1 5 (worker 1) one refl (omega arith) (
      write_set-IsMarked 0 5 (with_state (worker 0) ThreadState.running) new refl (omega arith)
        empty-IsMarked))

up-IsMarked : IsMarked up
up-IsMarked = record { word = three-IsMarked.word; each = three-IsMarked.each }

pub up-IsSane : IsSane up
up-IsSane = record { marked = up-IsMarked; current_in = omega arith; current_some = refl }

-- Round robin: thread 1 is next after thread 0.
pick_next_runs : pick_next up ≡ some 1
unfolding pick_next ready_at trailing_zeros bit
pick_next_runs = refl

sched_tick-Stays_example : Stays IsSaneMachine (sched_tick machine)
sched_tick-Stays_example = sched_tick-Stays machine up-IsSane

-- The only thread runs, and the bitmap is empty.
abbrev pub alone : Scheduler
alone = record new {
  threads = update new.threads 0 (some (with_state (worker 0) ThreadState.running));
}

alone-IsMarked : IsMarked alone
alone-IsMarked =
    let w =
      write-IsMarked 0 (some (with_state (worker 0) ThreadState.running)) new
        (record { in_range = omega arith; marked = λ r. absurd (cc r) }) empty-IsMarked in
    record { word = w.word; each = w.each }

alone-IsTight : IsTight alone
alone-IsTight p h = absurd (cc (h, zero-test_bit p))

-- Only thread 1 is ready at its priority, and it ran last.
abbrev turn : Scheduler
turn = record new {
  threads = update new.threads 1 (some (worker 1));
  ready_bitmap = bit 5;
  rr_cursor = update new.rr_cursor 5 1;
}

turn-IsMarked : IsMarked turn
unfolding bit
turn-IsMarked =
    let w = write_set-IsMarked 1 5 (worker 1) new refl (omega arith) empty-IsMarked in
    record { word = w.word; each = w.each }

turn-IsTight : IsTight turn
unfolding ready_at
turn-IsTight p h =
    let at : p ≡ 5 = (==_iff p 5).0 (sym (test_bit-bit 5 p (omega arith)) ∙ h) in
    (1, omega arith, rw at refl)

pick_next-IsBest_example :
    ((i : ℕ) × (pick_next turn ≡ some i) × IsBest turn i)
    ⊎ ((pick_next turn ≡ none) × NoneReady turn)
pick_next-IsBest_example = pick_next-IsBest turn turn-IsMarked turn-IsTight

-- The third tick ends the sleep of thread 1 until tick 3.
abbrev sleeper : Thread
sleeper = record (worker 1) { state = ThreadState.sleeping; sleep_until = 3 }

abbrev asleep : Scheduler
asleep = record up { threads = update up.threads 1 (some sleeper) }

wake_from-threads_example :
    Ticked 3 (asleep.threads 1) ((wake_from 3 max_threads 0 asleep).threads 1)
wake_from-threads_example = wake_from-threads 3 max_threads 0 asleep 1 (omega arith) (omega arith)

thread_create_lem_example :
    ((id : ℕ) × (m' : Machine) × (thread_create 4 "new" 8 12 0x8000 512 40 10 machine
        ≡ ret (some id) m')
      × Created "new" 0x8000 512 40 10 machine m' id)
    ⊎ ((m' : Machine) × (thread_create 4 "new" 8 12 0x8000 512 40 10 machine ≡ ret none m')
        × (m'.sched ≡ machine.sched)
        × ((j : ℕ) → j < max_threads → is_some (machine.sched.threads j) ≡ true))
thread_create_lem_example = thread_create_lem 4 "new" 8 12 0x8000 512 40 10 machine

-- Thread 1 is suspended, which clears the bit of priority 5; then thread 0 yields.
abbrev after_suspend : Scheduler
after_suspend = record up {
  threads = update up.threads 1 (some (with_state (worker 1) ThreadState.blocked));
  ready_bitmap = bit 31;
}

suspend_runs : thread_suspend 1 machine ≡ ret tt (with_sched machine after_suspend)
unfolding thread_suspend clear_ready_if_empty ready_at bit not32
suspend_runs = refl

thread_yield-IsForgotten_example :
    HandsOn (λ m'. IsForgotten 0 m'.sched) (thread_yield (with_sched machine after_suspend))
unfolding bit test_bit
thread_yield-IsForgotten_example =
    thread_yield-IsForgotten (with_sched machine after_suspend)
      (with_state (worker 0) ThreadState.running) (omega arith) (omega arith) refl refl refl

-- Thread 0 resumes thread 1.
thread_resume-IsStranded_example :
    HandsOn (λ m'. IsStranded 0 m'.sched) (thread_resume 1 (with_sched machine after_suspend))
unfolding pick_next set_ready ready_at trailing_zeros bit
thread_resume-IsStranded_example =
    thread_resume-IsStranded 1 (with_sched machine after_suspend)
      (with_state (worker 1) ThreadState.blocked) (with_state (worker 0) ThreadState.running) 1
      (omega arith) refl refl refl refl (omega arith) refl refl (λ q. absurd (omega arith)) refl
