-- ===== src/Tests/Signal.antt =====
-- Signals of src/ipc/signal.rs: 1, 4 and 6 are pending, 1 is masked, and 4 and above are waited for.
use f1c100s_rs.Base.{ℕ, ◌<◌, ◌≤◌, ◌≡◌, ◌⊎◌, true, false, not, ◌&&◌, none, some, ◌==◌, arith}
use f1c100s_rs.Bits.{test_bit}
use f1c100s_rs.Thread.Types.{Thread}
use f1c100s_rs.Ipc.Signal.{take_one}
use f1c100s_rs.Ipc.Signal.Deliverable.{can_take, take_one_lem}
use f1c100s_rs.Tests.Scheduler.{worker}

abbrev signalled : Thread
signalled = record (worker 1) { sig_pending = 0x52; sig_mask = 2 }

take_one_lem_example :
    ((take_one 0xf0 signalled ≡ none) × ((i : ℕ) → i < 32 → can_take 0xf0 signalled i ≡ false))
    ⊎ ((signo : ℕ) × (t' : Thread) × (take_one 0xf0 signalled ≡ some (signo, t'))
        × (signo < 32)
        × (can_take 0xf0 signalled signo ≡ true)
        × ((i : ℕ) → i < 32 → can_take 0xf0 signalled i ≡ true → signo ≤ i)
        × ((i : ℕ) → test_bit t'.sig_pending i ≡ (test_bit 0x52 i && not (i == signo))))
take_one_lem_example = take_one_lem 0xf0 signalled (omega arith) (omega arith)
