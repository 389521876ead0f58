-- ===== src/Thread/Api.antt =====
-- The public functions of src/thread.rs, but for the tick.
use f1c100s_rs.Base.{
  ℕ, zero, suc, ◌+◌, ◌-◌, ◌%◌, ◌^◌, true, false, not, ◌&&◌, ◌||◌, Option, none, some, ltb,
  if◌then◌else◌, update, min, pos, is_some, List, [], ◌∷◌,
}
use Prim.Native.String.{String}
use f1c100s_rs.Bits.{bit_and, bit_or, bit, not32, u32_mod}
use f1c100s_rs.Run.{ret, panic, Run, and_then}
use f1c100s_rs.Thread.Types.{
  Thread, ThreadState, is_ready, is_running, is_blocked, Scheduler, new, max_threads, Machine,
  with_sched,
}
use f1c100s_rs.Thread.Ready.{set_ready, clear_ready_if_empty, pick_next}
use f1c100s_rs.Thread.Schedule.{
  interrupt_disable, interrupt_enable, put, with_state, mark_running, do_schedule,
}

-- `sched.threads[id]`: an index out of range panics.
abbrev pub at : {A : Type 0} → ℕ → (Option Thread → Run Machine A) → Run Machine A
at id k m = if ltb id max_threads then k (m.sched.threads id) m else panic

-- `if let Some(t) = &mut sched.threads[id] { k(t) }`.
abbrev pub when_some : ℕ → (Thread → Run Machine (Unit {0})) → Run Machine (Unit {0})
when_some id k = at id λ o m. elim o [ none ↦ ret tt m | some t ↦ k t m ]

-- What stands between `interrupt_disable` and the `interrupt_enable` of its result.
abbrev pub critical : {A : Type 0} → Run Machine A → Run Machine A
critical body m =
    let (cpsr, m') = interrupt_disable m in
    and_then (body m') (λ a m''. ret a (interrupt_enable cpsr m''))

-- `sched_init`.
unfoldable pub sched_init : Machine → Machine
sched_init m = with_sched m (record new { initialized = true })

-- Consecutive words from the address `a` on.
unfoldable pub write_words : ℕ → List ℕ → (ℕ → ℕ) → ℕ → ℕ
write_words a [] mem = mem
write_words a (w ∷ ws) mem = write_words (a + 4) ws (update mem a w)

-- The frame of `stack_init`: cpsr, r0 to r12, lr and pc.
abbrev pub initial_frame : (entry parameter exit_fn : ℕ) → List ℕ
initial_frame entry parameter exit_fn =
    0x13 ∷ parameter ∷ 0 ∷ 0 ∷ 0 ∷ 0 ∷ 0 ∷ 0 ∷ 0 ∷ 0 ∷ 0 ∷ 0 ∷ 0 ∷ 0 ∷ exit_fn ∷ entry ∷ []

-- The address of the frame in a stack of `size` bytes from `base` on.
unfoldable pub frame_at : (base size : ℕ) → ℕ
frame_at base size = (bit_and ((base + size) % u32_mod) (not32 7) + u32_mod - 64) % u32_mod

-- `stack_init`: the stack pointer, and the memory with the frame in it.
unfoldable pub stack_init : (entry parameter exit_fn base size : ℕ) → (ℕ → ℕ) → ℕ × (ℕ → ℕ)
unfolding write_words frame_at
stack_init entry parameter exit_fn base size mem =
    let frame = frame_at base size in
    (frame, write_words frame (initial_frame entry parameter exit_fn) mem)

-- `sched.threads.iter().position(|t| t.is_none())`, from the slot `i` with `n` slots left.
unfoldable pub free_slot : ℕ → ℕ → (ℕ → Option Thread) → Option ℕ
free_slot zero i threads = none
free_slot (suc n) i threads =
    let rest = free_slot n (i + 1) threads in if is_some (threads i) then rest else some i

-- The thread that `thread_create_inner` puts into the slot `id`.
abbrev pub new_thread : (id sp : ℕ) → String → (base size priority tick : ℕ) → Thread
new_thread id sp name base size priority tick = record {
  sp = sp;
  state = ThreadState.ready;
  priority = priority;
  id = id % 256;
  tick = tick;
  init_tick = tick;
  sleep_until = 0;
  stack_base = base;
  stack_size = size;
  name = name;
  wait_flags = 0;
  wait_mode = 0;
  ipc_result = pos 0;
  is_ipc_wait = false;
  sig_pending = 0;
  sig_mask = 0;
}

-- The machine once the new thread has the slot `id`; `exit_fn` is the address of
-- `thread_exit_stub`.
unfoldable pub with_thread :
    (exit_fn : ℕ) → String → (entry parameter base size priority tick id : ℕ) → Machine → Machine
unfolding stack_init
with_thread exit_fn name entry parameter base size priority tick id m =
    let (sp, mem) = stack_init entry parameter exit_fn base size m.mem in
    let p = min priority 31 in
    record m {
      sched = record m.sched {
        threads = update m.sched.threads id (some (new_thread id sp name base size p tick));
        count = (m.sched.count + 1) % u32_mod;
        ready_bitmap = bit_or m.sched.ready_bitmap (bit p);
      };
      mem = mem;
    }

-- `thread_create_inner`.
unfoldable pub thread_create_inner :
    (exit_fn : ℕ) → String → (entry parameter base size priority tick : ℕ) → Run Machine (Option ℕ)
unfolding free_slot with_thread
thread_create_inner exit_fn name entry parameter base size priority tick m =
    elim (free_slot max_threads 0 m.sched.threads) [
      | none ↦ ret none m
      | some id ↦
          ret (some id) (with_thread exit_fn name entry parameter base size priority tick id m)
    ]

-- `thread_create`.
unfoldable pub thread_create :
    (exit_fn : ℕ) → String → (entry parameter base size priority tick : ℕ) → Run Machine (Option ℕ)
unfolding thread_create_inner interrupt_disable interrupt_enable
thread_create exit_fn name entry parameter base size priority tick =
    critical (thread_create_inner exit_fn name entry parameter base size priority tick)

-- `sched_start`; what it returns is the thread to which `context_switch_to` hands the processor.
unfoldable pub sched_start : Run Machine ℕ
unfolding mark_running
sched_start m = if not m.sched.initialized then panic else elim (pick_next m.sched) [
  | none ↦ panic
  | some next ↦ elim (m.sched.threads next) [
    | none ↦ panic
    | some t ↦
        ret next (
          with_sched m (record (mark_running next t m.sched) { current_id = next; started = true }))
  ]
]

-- `thread_yield`, between its change of the interrupt mask and the restoring of it; so for the
-- others below that are named `.._inner`.
unfoldable pub yield_inner : Run Machine (Unit {0})
yield_inner m =
    and_then
      (when_some m.sched.current_id
        (λ t m. ret tt (
          if is_running t.state
          then with_sched m (put m.sched.current_id (with_state t ThreadState.ready) m.sched)
          else m))
        m)
      (λ _. do_schedule)

unfoldable pub thread_yield : Run Machine (Unit {0})
unfolding yield_inner interrupt_disable interrupt_enable
thread_yield = critical yield_inner

abbrev pub u64_mod : ℕ
u64_mod = 2 ^ 64

-- The thread that `thread_sleep` leaves behind.
abbrev pub asleep : (now ticks : ℕ) → Thread → Thread
asleep now ticks t = record t {
  state = ThreadState.sleeping;
  is_ipc_wait = false;
  sleep_until = (now + ticks) % u64_mod;
}

-- `thread_sleep`.
unfoldable pub sleep_inner : ℕ → Run Machine (Unit {0})
sleep_inner ticks m =
    and_then
      (when_some m.sched.current_id
        (λ t m.
          let s = put m.sched.current_id (asleep m.sched.tick_count ticks t) m.sched in
          ret tt (with_sched m (clear_ready_if_empty t.priority s)))
        m)
      (λ _. do_schedule)

unfoldable pub thread_sleep : ℕ → Run Machine (Unit {0})
unfolding sleep_inner interrupt_disable interrupt_enable
thread_sleep ticks = critical (sleep_inner ticks)

-- A thread leaves its slot: what `thread_delete` and `thread_exit_stub` share.
unfoldable pub remove : ℕ → Thread → Scheduler → Scheduler
unfolding clear_ready_if_empty
remove id t s =
    clear_ready_if_empty t.priority
      (record s { threads = update s.threads id none; count = (s.count + u32_mod - 1) % u32_mod })

-- `thread_delete`.
unfoldable pub delete_inner : ℕ → Run Machine (Unit {0})
delete_inner id = when_some id (λ t m. ret tt (with_sched m (remove id t m.sched)))

unfoldable pub thread_delete : ℕ → Run Machine (Unit {0})
unfolding delete_inner interrupt_disable interrupt_enable
thread_delete id = critical (delete_inner id)

-- `thread_suspend`.
unfoldable pub suspend_inner : ℕ → Run Machine (Unit {0})
suspend_inner id = when_some id (λ t m. ret tt (
    if is_ready t.state || is_running t.state
    then with_sched m
        (clear_ready_if_empty t.priority (put id (with_state t ThreadState.blocked) m.sched))
    else m))

unfoldable pub thread_suspend : ℕ → Run Machine (Unit {0})
unfolding suspend_inner interrupt_disable interrupt_enable
thread_suspend id = critical (suspend_inner id)

-- `thread_resume`.
unfoldable pub resume_inner : ℕ → Run Machine (Unit {0})
resume_inner id = when_some id (λ t m.
    if is_blocked t.state && not t.is_ipc_wait
    then (let m' = with_sched m (set_ready id t.priority m.sched) in
        if m.sched.started then do_schedule m' else ret tt m')
    else ret tt m)

unfoldable pub thread_resume : ℕ → Run Machine (Unit {0})
unfolding resume_inner interrupt_disable interrupt_enable
thread_resume id = critical (resume_inner id)

-- `thread_exit_stub`; after the last line the thread only waits for interrupts.
unfoldable pub exit_inner : Run Machine (Unit {0})
exit_inner m =
    and_then
      (when_some m.sched.current_id
        (λ t m. ret tt (with_sched m (remove m.sched.current_id t m.sched))) m)
      (λ _. do_schedule)

unfoldable pub thread_exit : Run Machine (Unit {0})
unfolding exit_inner interrupt_disable interrupt_enable
thread_exit = critical exit_inner
