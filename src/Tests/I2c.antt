-- ===== src/Tests/I2c.antt =====
-- A controller of src/i2c.rs whose device register file is two words and the list of the bytes and
-- STARTs that were put on the bus.
use f1c100s_rs.Base.{
  ℕ, ◌≡◌, refl, ◌∙◌, true, none, some, List, [], ◌∷◌, ◌++◌, ◌==◌, if◌then◌else◌, arith, ◌&&◌,
  update, ◌<◌,
}
use native.Mathlib.Nat.{mod-eq_of_lt}
use f1c100s_rs.Bits.{bit_and, bit, test_bit}
use f1c100s_rs.Mmio.Fields.{bit_and-ones}
use f1c100s_rs.Ipc.EventFlags
use f1c100s_rs.I2c.{Twi, TwiMsg, XferStatus}
use f1c100s_rs.I2c.Xfer.{Request}
use f1c100s_rs.I2c.Controller.{Issue, put, with_start, IsController}
use f1c100s_rs.I2c.Steps.{IsAt}
use f1c100s_rs.Ipc.EventFlags.{EventFlags, EventMode}
use f1c100s_rs.Thread.Types.{Thread, ThreadState, Machine, with_sched}
use f1c100s_rs.Thread.Api.{new_thread}
use f1c100s_rs.I2c.Faults.{IsFault, Fails, fault-Fails}
use f1c100s_rs.Tests.Scheduler.{machine}

record Wire : Type 0 where
  code : ℕ
  byte : ℕ
  log : List Issue

-- A byte of the wire.
low : ℕ → ℕ
low v = bit_and v 0xff

wire_read : ℕ → Wire → ℕ × Wire
wire_read off d = (
  if off == 0x10 then d.code else if off == 0x08 then d.byte else if off == 0x0c then 0x88 else 0,
  d,
)

wire_write : ℕ → ℕ → Wire → Wire
wire_write off v d = record d {
  log =
      if off == 0x08
      then d.log ++ put v ∷ []
      else if off == 0x0c && test_bit v 5
      then with_start d.log
      else d.log;
}

wire_next : ℕ → ℕ → Wire → Wire
wire_next code byte d = record d { code = code; byte = byte }

low-byte : (v : ℕ) → v < 256 → low v ≡ v
unfolding low
low-byte v h = bit_and-ones v 8 ∙ mod-eq_of_lt h

wire-IsController :
    IsController wire_read wire_write wire_next (λ d. low d.code) (λ d. low d.byte) (λ d. d.log)
unfolding wire_read wire_write wire_next low test_bit
wire-IsController = record {
  reads_status = λ d. refl;
  reads_data = λ d. refl;
  reads_start = λ d h. absurd (cc h);
  read_keeps = λ off d. (refl, refl, refl);
  write_keeps = λ off v d. (refl, refl, refl);
  next_event = λ code byte d c8 b8. (low-byte code c8, low-byte byte b8, refl, refl);
}

-- The register 2 of the device 0x15 is read, three bytes of it.
abbrev request : Request
request = record { addr = 0x15; out = 2 ∷ []; write_buf = 100; read_buf = 200; read_len = 3 }

abbrev quiet_wire : Wire
quiet_wire = record { code = 0xf8; byte = 0; log = [] }

abbrev bus : Twi Wire
bus = record {
  dev = quiet_wire;
  ch = record {
    event = EventFlags.new;
    msgs = λ _. none;
    msg_idx = 0;
    msg_ptr = 0;
    msg_num = 0;
    status = XferStatus.idle;
  };
  mem = λ p. if p == 100 then 2 else 0;
}

abbrev log_of : Wire → List Issue
log_of d = d.log

abbrev code_of : Wire → ℕ
code_of d = low d.code

abbrev byte_of : Wire → ℕ
byte_of d = low d.byte

-- Thread 3 waits for the end of the transfer.
abbrev reader : Thread
reader = record (new_thread 3 0x8000 "reader" 0x8000 1024 5 10) {
  state = ThreadState.blocked_timeout;
  sleep_until = 10000;
  is_ipc_wait = true;
}

abbrev waiting_machine : Machine
waiting_machine =
    with_sched machine
      (record (machine.sched) { threads = update machine.sched.threads 3 (some reader) })

abbrev awaited_event : EventFlags
awaited_event = record {
  flags = 0;
  waiters = bit 3;
  wait_params =
      update (λ _. none) 3
        (some (record { flags = 1; mode = EventMode.any_of; clear_on_exit = true }));
}

abbrev awaited_bus : Twi Wire
awaited_bus = record bus { ch = record (bus.ch) { event = awaited_event } }

abbrev reading : TwiMsg
reading = record { addr = 0x15; read = true; buf = 200; len = 3 }

abbrev busy_bus : Twi Wire
busy_bus = record bus {
  ch = record (bus.ch) { msgs = λ _. some reading; msg_num = 1; status = XferStatus.running };
}

busy_bus-IsAt :
    IsAt wire_read wire_write wire_next code_of byte_of log_of wire-IsController busy_bus reading
busy_bus-IsAt = record { going = refl; here = refl; left = omega arith }

fault-Fails_example :
    Fails wire_read wire_write wire_next code_of byte_of log_of wire-IsController 0x48 0 busy_bus
      machine
fault-Fails_example =
    fault-Fails wire_read wire_write wire_next code_of byte_of log_of wire-IsController 0x48 0
      busy_bus reading machine (omega arith) busy_bus-IsAt (IsFault.read_nak refl)

abbrev awaited_busy : Twi Wire
awaited_busy = record busy_bus { ch = record (busy_bus.ch) { event = awaited_event } }
