-- ===== src/Thread/Sane.antt =====
-- The invariant of the scheduler of src/thread.rs, and the steps from which its functions are made.
use f1c100s_rs.Base.{
  ℕ, zero, suc, ◌<◌, ◌≡◌, refl, true, false, ◌&&◌, Option, none, some, arith, ◌==◌, if◌then◌else◌,
  is_some, Bool-cases, inl, inr, update, ==_iff,
}
use f1c100s_rs.Bits.{u32_mod, bit, bit_or, bit_and, not32}
use f1c100s_rs.Bits.Masks.{test_bit-set, test_bit-clear, set_bit-lt, bit_and-lt}
use f1c100s_rs.Thread.Types.{
  Thread, ThreadState, is_ready, Scheduler, max_threads, max_priority, Machine,
}
use f1c100s_rs.Thread.Ready.{ready_at, set_ready, any_ready, clear_ready_if_empty}
use f1c100s_rs.Thread.Marked.{IsMarkedThread, IsMarkedSlot, IsMarked}
use f1c100s_rs.Thread.Schedule.{with_state}

-- Once threads run: the bitmap misses no ready thread, and the current thread exists.
pub record IsSane (s : Scheduler) : Type 0 where
  pub marked : IsMarked s
  pub current_in : s.current_id < max_threads
  pub current_some : is_some (s.threads s.current_id) ≡ true

abbrev pub IsSaneMachine : Machine → Type 0
IsSaneMachine m = IsSane m.sched

-- Setting another bit keeps a thread's mark.
pub IsMarkedThread-set :
    (b p : ℕ) (t : Thread) → p < 32 → IsMarkedThread b t → IsMarkedThread (bit_or b (bit p)) t
IsMarkedThread-set b p t hp h = record {
  in_range = h.in_range;
  marked = λ r. rw (test_bit-set b p t.priority hp, h.marked r) (ground arith);
}

pub IsMarkedSlot-set :
    (b p : ℕ) (o : Option Thread) → p < 32 → IsMarkedSlot b o → IsMarkedSlot (bit_or b (bit p)) o
IsMarkedSlot-set b p none hp h = tt
IsMarkedSlot-set b p (some t) hp h = IsMarkedThread-set b p t hp h

-- One slot is written.
pub write-IsMarked :
    (i : ℕ) (o : Option Thread) (s : Scheduler)
    → IsMarkedSlot s.ready_bitmap o
    → IsMarked s
    → IsMarked (record s { threads = update s.threads i o })
write-IsMarked i o s ho m = record {
  word = m.word;
  each = λ j hj.
      elim (j == i) as (λ b. IsMarkedSlot s.ready_bitmap (if b then o else s.threads j)) [
        | true ↦ ho
        | false ↦ m.each j hj
      ];
}

-- One slot is written, and the bit of the thread's priority set.
pub write_set-IsMarked :
    (i p : ℕ) (t : Thread) (s : Scheduler)
    → t.priority ≡ p
    → p < max_priority
    → IsMarked s
    → IsMarked (record s {
      threads = update s.threads i (some t);
      ready_bitmap = bit_or s.ready_bitmap (bit p);
    })
write_set-IsMarked i p t s e hp m = record {
  word = set_bit-lt s.ready_bitmap p m.word;
  each = λ j hj.
      elim (j == i)
        as (λ b. IsMarkedSlot (bit_or s.ready_bitmap (bit p)) (if b then some t else s.threads j)) [
          | true ↦ record {
            in_range = omega arith;
            marked = λ r. rw (test_bit-set s.ready_bitmap p t.priority hp) (ground arith);
          }
          | false ↦ IsMarkedSlot-set s.ready_bitmap p (s.threads j) hp (m.each j hj)
        ];
}

pub set_ready-some :
    (id p : ℕ) (t : Thread) (s : Scheduler)
    → s.threads id ≡ some t
    → set_ready id p s ≡ record s {
      threads = update s.threads id (some (with_state t ThreadState.ready));
      ready_bitmap = bit_or s.ready_bitmap (bit p);
    }
unfolding set_ready
set_ready-some id p t s e = rw e

pub set_ready-IsMarked :
    (id : ℕ) (t : Thread) (s : Scheduler)
    → s.threads id ≡ some t
    → t.priority < max_priority
    → IsMarked s
    → IsMarked (set_ready id t.priority s)
set_ready-IsMarked id t s e hp m =
    rw (set_ready-some id t.priority t s e)
      (write_set-IsMarked id t.priority (with_state t ThreadState.ready) s refl hp m)

any_ready-false :
    (n : ℕ) (threads : ℕ → Option Thread) (p i : ℕ)
    → any_ready n threads p ≡ false
    → i < n
    → ready_at threads p i ≡ false
unfolding any_ready
any_ready-false zero threads p i h lt = absurd (omega arith)
any_ready-false (suc n) threads p i h lt = elim (Bool-cases (i == n)) [
  | inl last ↦ rw ((==_iff i n).0 last) (ground arith)
  | inr before ↦ any_ready-false n threads p i (ground arith) (ground arith)
]

-- Clearing the bit of another priority, or of one at which the thread is not ready.
IsMarkedThread-clear :
    (b p : ℕ) (t : Thread)
    → b < u32_mod
    → p < 32
    → ((t.priority == p) && is_ready t.state) ≡ false
    → IsMarkedThread b t
    → IsMarkedThread (bit_and b (not32 (bit p))) t
IsMarkedThread-clear b p t hb hp away h = record {
  in_range = h.in_range;
  marked = λ r. rw (test_bit-clear b p t.priority hb hp, h.marked r) (ground arith);
}

IsMarkedSlot-clear :
    (b p : ℕ) (o : Option Thread)
    → b < u32_mod
    → p < 32
    → (elim o [ none ↦ false | some t ↦ (t.priority == p) && is_ready t.state ]) ≡ false
    → IsMarkedSlot b o
    → IsMarkedSlot (bit_and b (not32 (bit p))) o
IsMarkedSlot-clear b p none hb hp away h = tt
IsMarkedSlot-clear b p (some t) hb hp away h = IsMarkedThread-clear b p t hb hp away h

-- `clear_ready_if_empty` clears no bit that a ready thread needs.
pub clear-IsMarked :
    (p : ℕ) (s : Scheduler) → p < max_priority → IsMarked s → IsMarked (clear_ready_if_empty p s)
unfolding clear_ready_if_empty
clear-IsMarked p s hp m = elim (Bool-cases (any_ready max_threads s.threads p)) [
  | inl some_left ↦ rw some_left m
  | inr none_left ↦ rw none_left (record {
    word = bit_and-lt s.ready_bitmap _ u32_mod m.word;
    each = λ i hi.
        IsMarkedSlot-clear s.ready_bitmap p (s.threads i) m.word hp
          (unfold ready_at in any_ready-false max_threads s.threads p i none_left hi) (m.each i hi);
  })
]
