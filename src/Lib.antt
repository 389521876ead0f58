-- ===== src/Lib.antt =====
-- Verification of f1c100s, the bare-metal hardware library and thread runtime for the Allwinner
-- F1C100s (ARM926EJ-S, one core, 32 bits).
--
-- The runtime is a preemptive scheduler (src/thread.rs). A timer interrupt calls `sched_tick`;
-- the IPC objects block and wake threads through `block_current` and `unblock_thread`. Every
-- entry point masks interrupts, so that the code between two switches runs alone.
--
-- Which file models what:
--   Bits             u32 operators bit by bit, `trailing_zeros`, `count_ones`
--   Run              code that may be switched out: an `Outcome` is a return, a panic, or a switch
--                    with the rest of the suspended call, which goes on from the state that it finds
--   Thread           src/thread.rs. Types, Ready (bitmap and choice), Schedule (the switch, and the
--                    interrupt mask of src/cpu.rs), Api, Wait (for the IPC objects) and Tick hold
--                    the definitions; Marked, Pick, Sane, Preserve, Keeps, TickKeeps, Create, Wake,
--                    Lost and Stranded the proofs
--   Ipc.Section      src/ipc/spinlock.rs, and the wait that the IPC objects share
--   Ipc.Semaphore    src/ipc/semaphore.rs; Quiet holds the invariant, Release what a release does
--   Ipc.Mutex        src/ipc/mutex.rs; Owned holds the invariant, Handover who owns it next
--   Ipc.MsgQueue     src/ipc/msgqueue.rs; Slots holds the lemmas on the buffer, Fifo the queue that the
--                    ring stands for, Woken what happens after a wait
--   Ipc.EventFlags   src/ipc/event.rs; Words holds the invariant, Settled what a set does for the
--                    waiters, Cleared what a woken waiter is told, Wakes whom it wakes
--   Ipc.Signal       src/ipc/signal.rs; Deliverable says which signal a thread takes. A handler is
--                    a parameter
--   Heap             src/allocator.rs; Chain, Take and Insert hold the lemmas on the free list,
--                    FirstFit and Free the refinements, Dead and Shifted where the coalescing and
--                    the pointers go wrong
--   Mmio             registers, and bit fields that are read and written back
--   Interrupt        src/interrupt.rs; Sources says which sources are masked, Nesting what a dispatch
--                    leaves behind. A handler is a parameter
--   Dram             src/dram.rs, on a device as in Spi that is the memory too; Pipe, Size and Start
--                    hold the rest, Refresh and Size.Mirror the proofs
--   Gpio             src/gpio.rs; Irq and Reset hold the rest of its functions, Pins the proofs
--   Mmu              the page table of src/mmu.rs; Overlay says which descriptor maps a section
--   Clock            src/clock.rs: the frequency queries; Gates and Config hold the rest, Fields and
--                    Default the proofs
--   Io               fallible code on a state: a result, an error, a poll that is out of its rounds,
--                    or a panic
--   Timer            src/timer.rs, on a device as in Spi; Halted says what a running channel does,
--                    Ticks holds the handlers and the delays, Interval and Systick the other proofs
--   Uart             src/uart.rs, on a device as in Spi; Latch holds the configuration, Sends the
--                    bytes sent
--   Spi              src/spi.rs, on a device that answers the reads of its registers; Transfer holds
--                    the transfers, Rate the clock, Ends that every call ends
--   SoftSpi          src/soft_spi.rs, on the calls of src/gpio.rs; Slave is the reference slave at
--                    the other end of the wires, Byte, Transfer and ThreeWire hold the proofs
--   SpiFlash         src/spi_flash.rs, on a record of the calls of a `Spi`; Chip is what the theorem
--                    takes a flash chip to be, Write the proof that goes over its pages
--   Pwm              src/pwm.rs; Calculate holds the search for a prescaler, Config the round trip
--   I2c              src/i2c.rs: the registers; Core holds the interrupt handler, Xfer a transfer
--                    and the probe; Controller says what the controller and the slave do, Script
--                    which events a transfer meets, Steps what one interrupt does, Leads what those
--                    of a message do, Closing how the waiting thread finds a transfer, Transaction,
--                    Faults and Clock hold the theorems
--   Touch            src/touch.rs and src/cst8xx.rs; Range and Report hold the proofs
--   Tests            runs on small inputs, and the theorems at inputs that meet their hypotheses
--
-- Numbers are natural numbers; a `u32` wraps by `% 2 ^ 32` as in a release build, in which `<<`
-- takes its count modulo 32. An array with a fixed bound is a function from the index, and an
-- index out of range is the outcome `panic`, as is a failed `unwrap`. Pointers are addresses, and
-- where only the thread matters, its id.
--
-- The hardware behind a register is a parameter where its answers matter: for I2c, two functions
-- on the state of the controller (`IsController` in I2c.Controller says what a theorem takes of
-- them), for SpiFlash the calls of the bus, for Touch the two calls of a `Twi`. Elsewhere a register
-- holds what was written. A poll without a bound has a number of rounds, and `spins` when they are
-- used up; the theorem on SpiFlash says for which number that does not happen. Waits that only
-- take time are left out.
--
-- Not modelled: the display (src/lcd.rs, src/panels.rs), the exception handlers that report a fault
-- over the UART (src/interrupt.rs), the control of the MMU, the caches and the coprocessor (src/mmu.rs,
-- src/cpu.rs), which is single instructions, the copies of `alloc_zeroed` and `realloc`, and `init`
-- and `deinit` of src/i2c.rs.
--
-- The assembly is not modelled but for its effects: a switch saves the CPSR with the I bit cleared
-- (`context_switch` in src/asm/context.s), and `context_switch_interrupt` sets its three variables.
-- The CPSR is its control byte. Loops have the bounds that the code gives them; the loops over the
-- free list and over the waiters of the event flags run on fuel, the length of the list and the mask,
-- which the theorems show to be enough.
pub mod Base
pub mod Bits
pub mod Run
pub mod Thread
pub mod Ipc
pub mod Heap
pub mod Mmio
pub mod Interrupt
pub mod Dram
pub mod Gpio
pub mod Mmu
pub mod Clock
pub mod Tests
pub mod Io
pub mod SoftSpi
pub mod Spi
pub mod SpiFlash
pub mod Pwm
pub mod I2c
pub mod Timer
pub mod Touch
pub mod Uart
