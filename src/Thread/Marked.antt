-- ===== src/Thread/Marked.antt =====
-- What the ready bitmap of src/thread.rs says of the threads.
use f1c100s_rs.Base.{ℕ, ◌<◌, ◌≡◌, true, Option, none, some}
use f1c100s_rs.Bits.{u32_mod, test_bit}
use f1c100s_rs.Thread.Types.{Thread, is_ready, Scheduler, max_threads, max_priority}
use f1c100s_rs.Thread.Ready.{ready_at}

-- Thread `t` has a priority, and its bit is set if it is ready.
pub record IsMarkedThread (bitmap : ℕ) (t : Thread) : Type 0 where
  pub in_range : t.priority < max_priority
  pub marked : is_ready t.state ≡ true → test_bit bitmap t.priority ≡ true

abbrev pub IsMarkedSlot : ℕ → Option Thread → Type 0
IsMarkedSlot bitmap none = Unit
IsMarkedSlot bitmap (some t) = IsMarkedThread bitmap t

-- No ready thread is missing from the bitmap.
pub record IsMarked (s : Scheduler) : Type 0 where
  pub word : s.ready_bitmap < u32_mod
  pub each : (i : ℕ) → i < max_threads → IsMarkedSlot s.ready_bitmap (s.threads i)

pub IsMarked-thread :
    (s : Scheduler) (i : ℕ) (t : Thread)
    → IsMarked s
    → i < max_threads
    → s.threads i ≡ some t
    → IsMarkedThread s.ready_bitmap t
IsMarked-thread s i t m h e = rw e at (m.each i h)

-- The bitmap has no priority at which no thread is ready.
abbrev pub IsTight : Scheduler → Type 0
IsTight s =
    (p : ℕ)
    → test_bit s.ready_bitmap p ≡ true
    → (i : ℕ) × (i < max_threads) × (ready_at s.threads p i ≡ true)
