-- ===== src/Thread/Types.antt =====
-- The data of src/thread.rs and the machine that it runs on.
use f1c100s_rs.Base.{ℕ, Bool, true, false, Option, none, ℤ, pos, negsuc, ltb, if◌then◌else◌}
use Prim.Native.String.{String}

abbrev pub max_threads : ℕ
max_threads = 32

abbrev pub max_priority : ℕ
max_priority = 32

abbrev pub null_id : ℕ
null_id = 0xff

abbrev pub ipc_ok : ℤ
ipc_ok = pos 0

abbrev pub ipc_timeout : ℤ
ipc_timeout = negsuc 0

abbrev pub ipc_error : ℤ
ipc_error = negsuc 1

abbrev pub ipc_wait_sentinel : ℤ
ipc_wait_sentinel = pos 0x7fff_ffff

pub data ThreadState : Type 0 where
  dead ready running sleeping blocked blocked_timeout : ThreadState

abbrev pub is_ready : ThreadState → Bool
is_ready ThreadState.ready = true
is_ready _ = false

abbrev pub is_running : ThreadState → Bool
is_running ThreadState.running = true
is_running _ = false

abbrev pub is_blocked : ThreadState → Bool
is_blocked ThreadState.blocked = true
is_blocked _ = false

-- `Sleeping | BlockedTimeout`, the states that a tick may end.
abbrev pub is_timed : ThreadState → Bool
is_timed ThreadState.sleeping = true
is_timed ThreadState.blocked_timeout = true
is_timed _ = false

-- `Blocked | BlockedTimeout | Sleeping`, the states that an IPC object may end.
abbrev pub is_waiting : ThreadState → Bool
is_waiting ThreadState.sleeping = true
is_waiting ThreadState.blocked = true
is_waiting ThreadState.blocked_timeout = true
is_waiting _ = false

-- `Thread`; pointers are their addresses.
pub record Thread : Type 0 where
  pub sp : ℕ
  pub state : ThreadState
  pub priority : ℕ
  pub id : ℕ
  pub tick : ℕ
  pub init_tick : ℕ
  pub sleep_until : ℕ
  pub stack_base : ℕ
  pub stack_size : ℕ
  pub name : String
  pub wait_flags : ℕ
  pub wait_mode : ℕ
  pub ipc_result : ℤ
  pub is_ipc_wait : Bool
  pub sig_pending : ℕ
  pub sig_mask : ℕ

-- `Scheduler`. Only the indices below `max_threads` of `threads`, and those below `max_priority`
-- of `rr_cursor`, stand for entries of the arrays.
pub record Scheduler : Type 0 where
  pub threads : ℕ → Option Thread
  pub count : ℕ
  pub current_id : ℕ
  pub ready_bitmap : ℕ
  pub rr_cursor : ℕ → ℕ
  pub tick_count : ℕ
  pub initialized : Bool
  pub started : Bool

-- `Scheduler::new`.
abbrev pub new : Scheduler
new = record {
  threads = λ _. none;
  count = 0;
  current_id = null_id;
  ready_bitmap = 0;
  rr_cursor = λ _. null_id;
  tick_count = 0;
  initialized = false;
  started = false;
}

-- The entry of the thread array; `none` also stands for an index out of range, where the caller
-- has to say what happens.
abbrev pub slot : Scheduler → ℕ → Option Thread
slot s i = if ltb i max_threads then s.threads i else none

-- The scheduler with the state around it: the memory words that `stack_init` fills, the control
-- byte of the CPSR, and the variables of `context_switch_interrupt` in asm/context.s.
pub record Machine : Type 0 where
  pub sched : Scheduler
  pub mem : ℕ → ℕ
  pub cpsr : ℕ
  pub switch_interrupt_flag : ℕ
  pub interrupt_from_thread : ℕ
  pub interrupt_to_thread : ℕ

abbrev pub noint : ℕ
noint = 0xc0

abbrev pub i_bit : ℕ
i_bit = 0x80

abbrev pub with_sched : Machine → Scheduler → Machine
with_sched m s = record m { sched = s }
