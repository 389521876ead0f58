-- ===== src/Interrupt/Nesting.antt =====
-- What `dispatch` of src/interrupt.rs leaves behind.
use f1c100s_rs.Base.{ℕ, ◌+◌, ◌%◌, ◌<◌, ◌≡◌, refl, true, false, ltb, Bool-cases, inl, inr, arith}
use f1c100s_rs.Bits.{u32_mod}
use f1c100s_rs.Interrupt.{Intc, dispatch, clear_pending, current_vector, interrupts_max}

-- After a `dispatch` whose handler leaves the nesting count as it found it, the count is what it
-- was before, and `in_isr` is false: also where it ran inside of another handler.
pub dispatch-nest :
    {H : Type 0} (call : H → ℕ → Intc H → Intc H) (s : Intc H)
    → s.nest + 1 < u32_mod
    → ((h : H) (vector : ℕ) (s' : Intc H) → (call h vector s').nest ≡ s'.nest)
    → ((dispatch call s).nest ≡ s.nest) × ((dispatch call s).in_isr ≡ false)
unfolding dispatch clear_pending
dispatch-nest call s small keeps =
    let v = current_vector s in
    let s1 = record s { nest = (s.nest + 1) % u32_mod; in_isr = true } in
    elim (Bool-cases (ltb v interrupts_max)) [
      | inl y ↦ (rw (y, keeps (s.isr_table v) v s1) (omega arith), refl)
      | inr n ↦ (rw n (omega arith), refl)
    ]
