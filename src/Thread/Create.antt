-- ===== src/Thread/Create.antt =====
-- `thread_create` of src/thread.rs: which slot it takes, and what it leaves alone.
use f1c100s_rs.Base.{
  ℕ, zero, suc, ◌+◌, ◌≤◌, ◌<◌, ◌≡◌, ◌≢◌, ◌⊎◌, refl, ap, true, Option, none, some, arith, ◌==◌,
  is_some, Bool-cases, Option-cases, inl, inr, update_ne, update_self, min, ==_iff,
}
use Prim.Native.String.{String}
use f1c100s_rs.Run.{ret}
use f1c100s_rs.Thread.Types.{Thread, max_threads, Machine}
use f1c100s_rs.Thread.Marked.{IsMarked}
use f1c100s_rs.Thread.Sane.{write_set-IsMarked}
use f1c100s_rs.Thread.Api.{
  free_slot, new_thread, frame_at, thread_create_inner, with_thread, thread_create,
}
use f1c100s_rs.Thread.Schedule.{interrupt_disable, interrupt_enable}

-- The search for a free slot stops at the first one.
pub free_slot-some :
    (n i : ℕ) (threads : ℕ → Option Thread) (id : ℕ)
    → free_slot n i threads ≡ some id
    → (i ≤ id)
      × (id < i + n)
      × (threads id ≡ none)
      × ((j : ℕ) → i ≤ j → j < id → is_some (threads j) ≡ true)
unfolding free_slot
free_slot-some zero i threads id h = absurd (cc h)
free_slot-some (suc n) i threads id h = elim (Option-cases (threads i)) [
  | inl free ↦
      let same : i ≡ id = ground (arith, ap is_some free) in
      (omega arith, omega arith, rw (← same) free, λ j lo hi. absurd (omega arith))
  | inr (t, taken) ↦
      let busy : is_some (threads i) ≡ true = rw taken in
      let rest : free_slot n (i + 1) threads ≡ some id = (rw busy at h) in
      let (lo, hi, free, before) = free_slot-some n (i + 1) threads id rest in
      (
        omega arith,
        omega arith,
        free,
        λ j jlo jhi. elim (Bool-cases (j == i)) [
          | inl first ↦ rw ((==_iff j i).0 first) busy
          | inr after ↦ before j (ground arith) jhi
        ],
      )
]

pub free_slot-none :
    (n i : ℕ) (threads : ℕ → Option Thread)
    → free_slot n i threads ≡ none
    → (j : ℕ) → i ≤ j
    → j < i + n
    → is_some (threads j) ≡ true
unfolding free_slot
free_slot-none zero i threads h j lo hi = absurd (omega arith)
free_slot-none (suc n) i threads h j lo hi = elim (Bool-cases (is_some (threads i))) [
  | inr free ↦ absurd (cc (rw free at h))
  | inl busy ↦ elim (Bool-cases (j == i)) [
    | inl first ↦ rw ((==_iff j i).0 first) busy
    | inr after ↦ free_slot-none n (i + 1) threads (rw busy at h) j (ground arith) (ground arith)
  ]
]

-- What a call that succeeds has done.
pub record Created (name : String) (base size priority tick : ℕ) (m m' : Machine) (id : ℕ)
    : Type 0 where
  pub in_range : id < max_threads
  pub was_free : m.sched.threads id ≡ none
  pub lowest : (j : ℕ) → j < id → is_some (m.sched.threads j) ≡ true
  pub placed :
      m'.sched.threads id
      ≡ some (new_thread id (frame_at base size) name base size (min priority 31) tick)
  pub others : (j : ℕ) → j ≢ id → m'.sched.threads j ≡ m.sched.threads j
  pub marks : IsMarked m.sched → IsMarked m'.sched
  pub mask : m'.cpsr ≡ m.cpsr

-- `thread_create` puts a ready thread into the lowest free slot, with the priority cut to 31; the
-- other slots and the interrupt mask stay, and the bitmap still misses no ready thread. If it
-- fails, no slot is free and the scheduler is unchanged.
pub thread_create_lem :
    (exit_fn : ℕ) (name : String) (entry parameter base size priority tick : ℕ) (m : Machine)
    → ((id : ℕ) × (m' : Machine) × (thread_create exit_fn name entry parameter base size priority
            tick m
          ≡ ret (some id) m')
        × Created name base size priority tick m m' id)
      ⊎ ((m' : Machine) × (thread_create exit_fn name entry parameter base size priority tick m
            ≡ ret none m')
          × (m'.sched ≡ m.sched)
          × ((j : ℕ) → j < max_threads → is_some (m.sched.threads j) ≡ true))
unfolding thread_create
thread_create_lem exit_fn name entry parameter base size priority tick m =
    let off = (interrupt_disable m).1 in
    elim (Option-cases (free_slot max_threads 0 m.sched.threads)) [
      | inl full ↦ inr (
        interrupt_enable m.cpsr off,
        rw (full, thread_create_inner),
        refl,
        λ j h. free_slot-none max_threads 0 m.sched.threads full j (omega arith) (omega arith),
      )
      | inr (id, e) ↦
          let (lo, hi, free, before) = free_slot-some max_threads 0 m.sched.threads id e in
          let placed = with_thread exit_fn name entry parameter base size priority tick id off in
          inl (
            id,
            interrupt_enable m.cpsr placed,
            rw (e, thread_create_inner),
            record {
              in_range = omega arith;
              was_free = free;
              lowest = λ j h. before j (omega arith) h;
              placed = update_self m.sched.threads id _;
              others = λ j ne. update_ne m.sched.threads id j _ ne;
              marks = λ k.
                  let p = min priority 31 in
                  let t = new_thread id (frame_at base size) name base size p tick in
                  let w = write_set-IsMarked id p t m.sched refl (omega arith) k in
                  record { word = w.word; each = w.each };
              mask = refl;
            },
          )
    ]
