-- ===== src/Thread/Pick.antt =====
-- `pick_next` of src/thread.rs: the thread that it picks, and when it picks none.
use f1c100s_rs.Base.{
  ℕ, zero, suc, ◌+◌, ◌-◌, ◌%◌, ◌≤◌, ◌<◌, ◌≡◌, ◌≢◌, true, false, Option, none, some, arith,
  Bool-cases, ◌⊎◌, ne→==, Option-cases, inl, inr,
}
use f1c100s_rs.Bits.{trailing_zeros}
use f1c100s_rs.Bits.Scan.{ne_zero_of_test_bit, trailing_zeros-le, trailing_zeros-set}
use f1c100s_rs.Thread.Types.{Thread, is_ready, Scheduler, max_threads}
use f1c100s_rs.Thread.Ready.{ready_at, find_ready, start_after, pick_next}
use f1c100s_rs.Thread.Marked.{IsMarked, IsMarked-thread, IsTight}

-- A slot that `ready_at` accepts holds a ready thread of that priority.
pub ready_at-thread :
    (threads : ℕ → Option Thread) (p i : ℕ)
    → ready_at threads p i ≡ true
    → (t : Thread) × (threads i ≡ some t) × (t.priority ≡ p) × (is_ready t.state ≡ true)
unfolding ready_at
ready_at-thread threads p i h = elim (Option-cases (threads i)) [
  | inl e ↦ absurd (ground arith)
  | inr (t, e) ↦ (t, e, ground arith, ground arith)
]

-- The search stops at the first ready slot, going round from `idx`.
pub record FirstReady (threads : ℕ → Option Thread) (p idx n i : ℕ) : Type 0 where
  pub steps : ℕ
  pub within : steps < n
  pub at : i ≡ (idx + steps) % max_threads
  pub found : ready_at threads p i ≡ true
  pub none_before : (j : ℕ) → j < steps → ready_at threads p ((idx + j) % max_threads) ≡ false

module _ (threads : ℕ → Option Thread) (p : ℕ) where
  -- One more slot in front of those that are known not to be ready.
  none_round :
      (idx n : ℕ)
      → idx < max_threads
      → ready_at threads p idx ≡ false
      → ((j : ℕ) → j < n → ready_at threads p (((idx + 1) % max_threads + j) % max_threads) ≡ false)
      → (j : ℕ) → j < suc n
      → ready_at threads p ((idx + j) % max_threads) ≡ false
  none_round idx n h away before zero lt =
      let e : (idx + 0) % max_threads ≡ idx = omega arith in rw e away
  none_round idx n h away before (suc j) lt =
      let e : (idx + suc j) % max_threads ≡ ((idx + 1) % max_threads + j) % max_threads =
        omega arith in
      rw e (before j (omega arith))

  find_ready-FirstReady :
      (n idx i : ℕ)
      → idx < max_threads
      → find_ready n threads p idx ≡ some i
      → FirstReady threads p idx n i
  unfolding find_ready
  find_ready-FirstReady zero idx i h e = absurd (cc)
  find_ready-FirstReady (suc n) idx i h e = elim (Bool-cases (ready_at threads p idx)) [
    | inl here ↦
        let same : idx ≡ i = ground arith in
        record {
          steps = 0;
          within = omega arith;
          at = omega arith;
          found = rw (← same) here;
          none_before = λ j lt. absurd (omega arith);
        }
    | inr away ↦
        let rest =
          find_ready-FirstReady n ((idx + 1) % max_threads) i (omega arith) (ground arith) in
        record {
          steps = suc rest.steps;
          within = omega arith;
          at = omega arith;
          found = rest.found;
          none_before = none_round idx rest.steps h away rest.none_before;
        }
  ]

  find_ready-none :
      (n idx : ℕ)
      → idx < max_threads
      → find_ready n threads p idx ≡ none
      → (k : ℕ) → k < n
      → ready_at threads p ((idx + k) % max_threads) ≡ false
  unfolding find_ready
  find_ready-none zero idx h e = λ k lt. absurd (omega arith)
  find_ready-none (suc n) idx h e =
      none_round idx n h (ground arith)
        (find_ready-none n ((idx + 1) % max_threads) (omega arith) (ground arith))

  -- A whole round that finds nothing has seen every slot.
  find_ready-none_all :
      (idx i : ℕ)
      → idx < max_threads
      → i < max_threads
      → find_ready max_threads threads p idx ≡ none
      → ready_at threads p i ≡ false
  find_ready-none_all idx i h hi e =
      let k = (i + max_threads - idx) % max_threads in
      let at : (idx + k) % max_threads ≡ i = omega arith in
      rw at at (find_ready-none max_threads idx h e k (omega arith))

start_after-lt : (c : ℕ) → start_after c < max_threads
unfolding start_after
start_after-lt c = ground arith

start_after_lem : (c : ℕ) → c < max_threads → start_after c ≡ (c + 1) % max_threads
unfolding start_after
start_after_lem c h = ground arith

-- The priority that `pick_next` serves.
abbrev pub top_priority : Scheduler → ℕ
top_priority s = trailing_zeros s.ready_bitmap

-- `pick_next` picks the first ready thread of the lowest priority number in the bitmap, going
-- round the slots from the one after the cursor of that priority.
pub pick_next-FirstReady :
    (s : Scheduler) (i : ℕ)
    → pick_next s ≡ some i
    → FirstReady s.threads
        (top_priority s)
        (start_after (s.rr_cursor (top_priority s)))
        max_threads
        i
unfolding pick_next
pick_next-FirstReady s i e =
    find_ready-FirstReady s.threads (top_priority s) max_threads _ i (start_after-lt _)
      (ground arith)

-- A ready thread that no other ready thread should precede.
pub record IsBest (s : Scheduler) (i : ℕ) : Type 0 where
  pub in_range : i < max_threads
  pub thread : Thread
  pub here : s.threads i ≡ some thread
  pub ready : is_ready thread.state ≡ true
  pub highest :
      (j : ℕ) (t : Thread)
      → j < max_threads
      → s.threads j ≡ some t
      → is_ready t.state ≡ true
      → thread.priority ≤ t.priority

-- No slot holds a ready thread.
abbrev pub NoneReady : Scheduler → Type 0
NoneReady s =
    (j : ℕ) (t : Thread) → j < max_threads → s.threads j ≡ some t → is_ready t.state ≡ false

-- Where the bitmap misses no ready thread, what is picked is ready, and no ready thread has a
-- higher priority.
pub pick_next-some-IsBest : (s : Scheduler) (i : ℕ) → IsMarked s → pick_next s ≡ some i → IsBest s i
pick_next-some-IsBest s i m e =
    let first = pick_next-FirstReady s i e in
    let (t, here, prio, ready) = ready_at-thread s.threads (top_priority s) i first.found in
    record {
      in_range = omega (arith, first.at);
      thread = t;
      here = here;
      ready = ready;
      highest = λ j u hj hu r.
          rw prio (
            trailing_zeros-le s.ready_bitmap u.priority ((IsMarked-thread s j u m hj hu).marked r));
    }

-- Where besides every bit stands for a ready thread, `pick_next` picks none only if no thread is
-- ready.
pub pick_next-none : (s : Scheduler) → IsMarked s → IsTight s → pick_next s ≡ none → NoneReady s
unfolding pick_next
pick_next-none s m tight e j t hj ht = elim (Bool-cases (is_ready t.state)) [
  | inr idle ↦ idle
  | inl ready ↦
      let nonzero : s.ready_bitmap ≢ 0 =
        ne_zero_of_test_bit s.ready_bitmap t.priority
          ((IsMarked-thread s j t m hj ht).marked ready) in
      let top = trailing_zeros-set s.ready_bitmap nonzero m.word in
      let (i, hi, found) = tight (top_priority s) top.1 in
      let searched : find_ready max_threads s.threads (top_priority s)
            (start_after (s.rr_cursor (top_priority s)))
          ≡ none =
        rw (ne→== _ _ nonzero) at e in
      absurd (
        cc (
          found,
          find_ready-none_all s.threads (top_priority s) _ i (start_after-lt _) hi searched,
        ))
]

-- Where the bitmap misses no ready thread and every bit of it stands for one, `pick_next` picks
-- none exactly if no thread is ready, and otherwise a ready thread such that no ready thread has a
-- higher priority (a lower number).
pub pick_next-IsBest :
    (s : Scheduler)
    → IsMarked s
    → IsTight s
    → ((i : ℕ) × (pick_next s ≡ some i) × IsBest s i) ⊎ ((pick_next s ≡ none) × NoneReady s)
pick_next-IsBest s m tight = elim (Option-cases (pick_next s)) [
  | inl e ↦ inr (e, pick_next-none s m tight e)
  | inr (i, e) ↦ inl (i, e, pick_next-some-IsBest s i m e)
]

-- The thread that ran last at the served priority is picked again only if no other thread of that
-- priority is ready.
pub pick_next-last_turn :
    (s : Scheduler) (i : ℕ)
    → i < max_threads
    → s.rr_cursor (top_priority s) ≡ i
    → pick_next s ≡ some i
    → (j : ℕ) → j < max_threads
    → j ≢ i
    → ready_at s.threads (top_priority s) j ≡ false
pick_next-last_turn s i hi cur e j hj ne =
    let first = pick_next-FirstReady s i e in
    let begin = start_after (s.rr_cursor (top_priority s)) in
    let from : begin ≡ (i + 1) % max_threads = rw cur (start_after_lem i hi) in
    let k = (j + max_threads - begin) % max_threads in
    let at : (begin + k) % max_threads ≡ j =
      omega (arith, start_after-lt (s.rr_cursor (top_priority s))) in
    rw at at (first.none_before k (omega (arith, first.at, first.within, from)))
