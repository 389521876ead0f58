-- ===== src/Thread/Ready.antt =====
-- The ready bitmap and the choice of the next thread, of src/thread.rs.
use f1c100s_rs.Base.{
  ℕ, zero, suc, ◌+◌, ◌%◌, Bool, false, ◌&&◌, ◌||◌, Option, none, some, ◌==◌, if◌then◌else◌, update,
}
use f1c100s_rs.Bits.{bit_and, bit_or, bit, not32, trailing_zeros}
use f1c100s_rs.Thread.Types.{Thread, ThreadState, is_ready, Scheduler, max_threads, null_id}

-- `slot.priority == p && slot.state == Ready`, and false for an empty slot.
unfoldable pub ready_at : (ℕ → Option Thread) → ℕ → ℕ → Bool
ready_at threads p i = elim (threads i) [
  | none ↦ false
  | some t ↦ (t.priority == p) && is_ready t.state
]

-- `set_ready`.
unfoldable pub set_ready : ℕ → ℕ → Scheduler → Scheduler
set_ready id p s = record s {
  threads = elim (s.threads id) [
    | none ↦ s.threads
    | some t ↦ update s.threads id (some (record t { state = ThreadState.ready }))
  ];
  ready_bitmap = bit_or s.ready_bitmap (bit p);
}

-- `sched.threads.iter().any(..)` over the first `n` slots.
unfoldable pub any_ready : ℕ → (ℕ → Option Thread) → ℕ → Bool
any_ready zero threads p = false
any_ready (suc n) threads p = any_ready n threads p || ready_at threads p n

-- `clear_ready_if_empty`.
unfoldable pub clear_ready_if_empty : ℕ → Scheduler → Scheduler
unfolding any_ready
clear_ready_if_empty p s =
    if any_ready max_threads s.threads p
    then s
    else record s { ready_bitmap = bit_and s.ready_bitmap (not32 (bit p)) }

-- The `for` loop of `pick_next`, with the rounds that are left.
unfoldable pub find_ready : ℕ → (ℕ → Option Thread) → ℕ → ℕ → Option ℕ
find_ready zero threads p idx = none
find_ready (suc n) threads p idx =
    let rest = find_ready n threads p ((idx + 1) % max_threads) in
    if ready_at threads p idx then some idx else rest

-- Where the search of `pick_next` starts.
unfoldable pub start_after : ℕ → ℕ
start_after cursor = if cursor == null_id then 0 else (cursor + 1) % max_threads

-- `pick_next`.
unfoldable pub pick_next : Scheduler → Option ℕ
unfolding find_ready start_after
pick_next s =
    if s.ready_bitmap == 0
    then none
    else (let p = trailing_zeros s.ready_bitmap in
        find_ready max_threads s.threads p (start_after (s.rr_cursor p)))
