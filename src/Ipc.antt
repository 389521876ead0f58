-- ===== src/Ipc.antt =====
-- src/ipc/: objects by which threads wait for one another.
pub mod Section
pub mod Semaphore
pub mod Mutex
pub mod MsgQueue
pub mod EventFlags
pub mod Signal
