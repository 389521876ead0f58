-- ===== src/Thread/Schedule.antt =====
-- Leaving the current thread, of src/thread.rs, and the interrupt mask of src/cpu.rs.
use f1c100s_rs.Base.{ℕ, none, some, ◌==◌, if◌then◌else◌, update}
use f1c100s_rs.Bits.{bit_and, bit_or, not32}
use f1c100s_rs.Run.{ret, switch, panic, Run}
use f1c100s_rs.Thread.Types.{
  Thread, ThreadState, Scheduler, slot, Machine, with_sched, noint, i_bit,
}
use f1c100s_rs.Thread.Ready.{pick_next}

-- `cpu::interrupt_disable`: the old control byte, and both interrupt bits set.
unfoldable pub interrupt_disable : Machine → ℕ × Machine
interrupt_disable m = (m.cpsr, record m { cpsr = bit_or m.cpsr noint })

-- `cpu::interrupt_enable`.
unfoldable pub interrupt_enable : ℕ → Machine → Machine
interrupt_enable cpsr m = record m { cpsr = cpsr }

-- Put a thread into the slot `i`.
abbrev pub put : ℕ → Thread → Scheduler → Scheduler
put i t s = record s { threads = update s.threads i (some t) }

abbrev pub with_state : Thread → ThreadState → Thread
with_state t x = record t { state = x }

-- `sched.threads[next_id]` becomes the running thread, and the cursor of its priority.
unfoldable pub mark_running : ℕ → Thread → Scheduler → Scheduler
mark_running next t s = record s {
  threads = update s.threads next (some (with_state t ThreadState.running));
  rr_cursor = update s.rr_cursor t.priority next;
}

-- `context_switch` saves the caller's CPSR with the I bit cleared, and this is what the thread
-- finds when it is resumed.
unfoldable pub resumed : ℕ → Machine → Machine
resumed cpsr m = record m { cpsr = bit_and cpsr (not32 i_bit) }

-- `do_schedule`.
unfoldable pub do_schedule : Run Machine (Unit {0})
unfolding mark_running resumed
do_schedule m = elim (pick_next m.sched) [
  | none ↦ ret tt m
  | some next ↦
      if next == m.sched.current_id
      then elim (m.sched.threads next) [
        | none ↦ ret tt m
        | some t ↦ ret tt (with_sched m (put next (with_state t ThreadState.running) m.sched))
      ]
      else elim (m.sched.threads next) [
        | none ↦ panic
        | some t ↦
            let s = mark_running next t m.sched in
            elim (slot s m.sched.current_id) [
              | none ↦ panic
              | some _ ↦
                  switch m.sched.current_id next (with_sched m (record s { current_id = next }))
                    (λ m'. ret tt (resumed m.cpsr m'))
            ]
      ]
]

-- `context_switch_interrupt` of asm/context.s, with a thread's id for the address of its `sp`.
unfoldable pub context_switch_interrupt : ℕ → ℕ → Machine → Machine
context_switch_interrupt from to m =
    if m.switch_interrupt_flag == 1 then record m { interrupt_to_thread = to } else record m {
      switch_interrupt_flag = 1;
      interrupt_from_thread = from;
      interrupt_to_thread = to;
    }

-- `do_schedule_from_isr`: the switch itself is left to the end of the interrupt.
unfoldable pub do_schedule_from_isr : Run Machine (Unit {0})
unfolding mark_running context_switch_interrupt
do_schedule_from_isr m = elim (pick_next m.sched) [
  | none ↦ ret tt m
  | some next ↦
      if next == m.sched.current_id
      then elim (m.sched.threads next) [
        | none ↦ ret tt m
        | some t ↦ ret tt (with_sched m (put next (with_state t ThreadState.running) m.sched))
      ]
      else elim (m.sched.threads next) [
        | none ↦ panic
        | some t ↦
            let s = mark_running next t m.sched in
            elim (slot s m.sched.current_id) [
              | none ↦ panic
              | some _ ↦ ret tt (
                  context_switch_interrupt m.sched.current_id next
                    (with_sched m (record s { current_id = next })))
            ]
      ]
]
