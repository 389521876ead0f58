-- ===== src/Thread.antt =====
-- src/thread.rs, the priority scheduler.
pub mod Types
pub mod Ready
pub mod Marked
pub mod Pick
pub mod Schedule
pub mod Api
pub mod Wait
pub mod Tick
pub mod Sane
pub mod Preserve
pub mod Keeps
pub mod TickKeeps
pub mod Create
pub mod Wake
pub mod Lost
pub mod Stranded
