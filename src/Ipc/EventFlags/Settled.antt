-- ===== src/Ipc/EventFlags/Settled.antt =====
-- What `set` of src/ipc/event.rs leaves the registered threads to wait for.
use f1c100s_rs.Base.{
  ℕ, zero, suc, ◌+◌, ◌-◌, ◌<◌, ◌≤◌, ◌≡◌, ◌≢◌, ◌⊎◌, refl, sym, ap, ◌∙◌, Bool, true, false, not, ◌&&◌,
  some, Option-cases, Bool-cases, inl, inr, arith, ◌==◌, ==_iff, eq→==, ne→==, lt→ltb,
}
use f1c100s_rs.Bits.{bit_or, bit_and, not32, trailing_zeros, u32_mod, test_bit}
use f1c100s_rs.Bits.Laws.{test_bit-bit_and, zero-test_bit, eq_of_bits}
use f1c100s_rs.Bits.Masks.{test_bit-clear, bit_and-lt}
use f1c100s_rs.Bits.Scan.{trailing_zeros-set}
use f1c100s_rs.Bits.Lowest.{drop_lowest-lt, test_bit-drop_lowest}
use f1c100s_rs.Run.{ret}
use f1c100s_rs.Thread.Types.{Machine, with_sched}
use f1c100s_rs.Thread.Schedule.{interrupt_disable, interrupt_enable}
use f1c100s_rs.Thread.Wait.{unblock_thread, unblock}
use f1c100s_rs.Ipc.EventFlags.{
  EventMode, any_of, all_of, EventFlags, Waiter, condition_met, without_waiter, clear_if, check_one,
  check_from, check_waiters, set,
}

masked-away : (f k g : ℕ) → bit_and f g ≡ 0 → bit_and (bit_and f k) g ≡ 0
masked-away f k g e =
    let x = bit_and (bit_and f k) g in
    eq_of_bits x x 0 (omega arith) (omega arith) (λ i.
      let b : (test_bit f i && test_bit g i) ≡ false =
        sym (test_bit-bit_and f g i) ∙ ap (λ y. test_bit y i) e ∙ zero-test_bit i in
      rw (test_bit-bit_and (bit_and f k) g i, test_bit-bit_and f k i, zero-test_bit i)
        (away (test_bit f i) (test_bit k i) (test_bit g i) b))
  where
    away : (p q r : Bool) → (p && r) ≡ false → ((p && q) && r) ≡ false
    away true true r h = h
    away true false r h = refl
    away false q r h = refl

masked-all : (f k g : ℕ) → bit_and (bit_and f k) g ≡ g → bit_and f g ≡ g
masked-all f k g e = eq_of_bits (bit_and f g + g) (bit_and f g) g (omega arith) (omega arith) (λ i.
    let b : ((test_bit f i && test_bit k i) && test_bit g i) ≡ test_bit g i =
      sym
        (test_bit-bit_and (bit_and f k) g i ∙ ap (λ y. y && test_bit g i) (test_bit-bit_and f k i))
      ∙ ap (λ y. test_bit y i) e in
    rw (test_bit-bit_and f g i) (all (test_bit f i) (test_bit k i) (test_bit g i) b))
  where
    all : (p q r : Bool) → ((p && q) && r) ≡ r → (p && r) ≡ r
    all true q r h = refl
    all false q r h = h

-- A condition that is not met is not met by fewer flags.
condition_met-masked :
    (f k g : ℕ) (mode : EventMode)
    → condition_met f g mode ≡ false
    → condition_met (bit_and f k) g mode ≡ false
unfolding condition_met
condition_met-masked f k g any_of h =
    let e : bit_and f g ≡ 0 = ground (arith, h) in rw (masked-away f k g e) refl
condition_met-masked f k g all_of h =
    ne→== (bit_and (bit_and f k) g) g (λ e. cc (h, eq→== (bit_and f g) g (masked-all f k g e)))

condition_met-clear_if :
    (clears : Bool) (flags : ℕ) (o : EventFlags) (g : ℕ) (mode : EventMode)
    → condition_met o.flags g mode ≡ false
    → condition_met (clear_if clears flags o).flags g mode ≡ false
condition_met-clear_if true flags o g mode h = condition_met-masked o.flags (not32 flags) g mode h
condition_met-clear_if false flags o g mode h = h

-- The registered threads outside of `mask` wait for what the flags do not have.
pub IsSettledBut : ℕ → EventFlags → Type 0
IsSettledBut mask o =
    (j : ℕ) (w : Waiter)
    → test_bit o.waiters j ≡ true
    → o.wait_params j ≡ some w
    → test_bit mask j ≡ false
    → condition_met o.flags w.flags w.mode ≡ false

pub record IsSettled (o : EventFlags) : Type 0 where
  pub settled :
      (j : ℕ) (w : Waiter)
      → test_bit o.waiters j ≡ true
      → o.wait_params j ≡ some w
      → condition_met o.flags w.flags w.mode ≡ false

outside-or-same : (b : Bool) (j id : ℕ) → (b && not (j == id)) ≡ false → (b ≡ false) ⊎ (j ≡ id)
outside-or-same false j id h = inl refl
outside-or-same true j id h = inr (ground (arith, h))

both-true : (a b : Bool) → (a && not b) ≡ true → (a ≡ true) × (b ≡ false)
both-true true false h = (refl, refl)
both-true true true h = absurd (cc h)
both-true false b h = absurd (cc h)

-- After a round for the thread `id`, that thread is settled too.
check_one-settles :
    (mask id : ℕ) (o : EventFlags) (m : Machine)
    → id < 32
    → o.waiters < u32_mod
    → IsSettledBut mask o
    → (o' : EventFlags) × (m' : Machine) × (check_one id (o, m) ≡ ret tt (o', m'))
      × (o'.waiters < u32_mod)
      × ((j : ℕ) (w : Waiter)
          → test_bit o'.waiters j ≡ true
          → o'.wait_params j ≡ some w
          → (test_bit mask j && not (j == id)) ≡ false
          → condition_met o'.flags w.flags w.mode ≡ false)
unfolding check_one unblock_thread IsSettledBut
check_one-settles mask id o m low word h = elim (Option-cases (o.wait_params id)) [
  | inl e ↦ (
    o,
    m,
    rw (e, check_one) refl,
    word,
    λ j w waits here left. elim (outside-or-same (test_bit mask j) j id left) [
      | inl out ↦ h j w waits here out
      | inr same ↦ absurd (cc (e, same, here))
    ],
  )
  | inr (w0, e) ↦ elim (Bool-cases (condition_met o.flags w0.flags w0.mode)) [
    | inl met ↦
        let o' = without_waiter id (clear_if w0.clear_on_exit w0.flags o) in
        (
          o',
          with_sched m (unblock id m.sched),
          rw (e, met, lt→ltb id 32 low, check_one) refl,
          bit_and-lt o.waiters _ u32_mod word,
          λ j w waits here left.
              let (was, other) =
                both-true (test_bit o.waiters j) (j == id)
                  (sym (test_bit-clear o.waiters id j word low) ∙ waits) in
              elim (outside-or-same (test_bit mask j) j id left) [
                | inl out ↦
                    condition_met-clear_if w0.clear_on_exit w0.flags o w.flags w.mode
                      (h j w was here out)
                | inr same ↦ absurd (cc (other, eq→== j id same))
              ],
        )
    | inr unmet ↦ (
      o,
      m,
      rw (e, unmet, check_one) refl,
      word,
      λ j w waits here left. elim (outside-or-same (test_bit mask j) j id left) [
        | inl out ↦ h j w waits here out
        | inr same ↦ let same_w : w0 ≡ w = cc (e, same, here) in cc (unmet, same_w)
      ],
    )
  ]
]

check_from-settles :
    (n mask : ℕ) (o : EventFlags) (m : Machine)
    → mask ≤ n
    → mask < u32_mod
    → o.waiters < u32_mod
    → IsSettledBut mask o
    → (o' : EventFlags) × (m' : Machine) × (check_from n mask (o, m) ≡ ret tt (o', m'))
      × IsSettled o'
unfolding check_from IsSettledBut
check_from-settles zero mask o m le small word h =
    let z : mask ≡ 0 = omega arith in
    (
      o,
      m,
      rw (eq→== mask 0 z) refl,
      record { settled = λ j w a b. h j w a b (ap (λ x. test_bit x j) z ∙ zero-test_bit j) },
    )
check_from-settles (suc n) mask o m le small word h = elim (Bool-cases (mask == 0)) [
  | inl done ↦
      let z : mask ≡ 0 = (==_iff mask 0).0 done in
      (
        o,
        m,
        rw done refl,
        record { settled = λ j w a b. h j w a b (ap (λ x. test_bit x j) z ∙ zero-test_bit j) },
      )
  | inr more ↦
      let ne : mask ≢ 0 = ground (arith, more) in
      let id = trailing_zeros mask in
      let smaller = drop_lowest-lt mask ne in
      let (o1, m1, e1, word1, next) =
        check_one-settles mask id o m (trailing_zeros-set mask ne small).0 word h in
      let (o2, m2, e2, done) =
        check_from-settles n (bit_and mask (mask - 1)) o1 m1 (omega (arith, smaller))
          (omega (arith, smaller)) word1
          (λ j w a b out. next j w a b (sym (test_bit-drop_lowest mask j ne small) ∙ out)) in
      (o2, m2, rw (more, e1) e2, done)
]

-- `set` ends without a switch, and no thread that is then registered waits for what the flags
-- have.
pub set-settles :
    (flags : ℕ) (o : EventFlags) (m : Machine)
    → o.waiters < u32_mod
    → (o' : EventFlags) × (m' : Machine) × (set flags (o, m) ≡ ret tt (o', m')) × IsSettled o'
unfolding set check_waiters IsSettledBut
set-settles flags o m word =
    let (o', m', e, done) =
      check_from-settles o.waiters o.waiters (record o { flags = bit_or o.flags flags })
        (interrupt_disable m).1 (omega arith) word word (λ j w a b out. absurd (cc (a, out))) in
    (o', interrupt_enable m.cpsr m', rw e refl, done)
