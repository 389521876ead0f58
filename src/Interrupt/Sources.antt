-- ===== src/Interrupt/Sources.antt =====
-- The sources that `mask` and `unmask` of src/interrupt.rs touch.
use f1c100s_rs.Base.{
  ℕ, ◌+◌, ◌%◌, ◌<◌, ◌≡◌, refl, sym, ap, ◌∙◌, Bool, true, false, not, ◌&&◌, ◌||◌, ltb, lt→ltb,
  ge→ltb, lt_or_ge, ◌==◌, ==_iff, eq→==, ne→==, Bool-cases, inl, inr, arith, update,
}
use f1c100s_rs.Bits.{bit, bit_and, bit_or, not32, test_bit, u32_mod}
use f1c100s_rs.Bits.Laws.{test_bit-bit_and, eq_of_bits}
use f1c100s_rs.Bits.Shift.{test_bit-mod}
use f1c100s_rs.Bits.Masks.{test_bit-set, test_bit-clear}
use f1c100s_rs.Mmio.Fields.{test_bit-ones}
use f1c100s_rs.Interrupt.{Intc, vector_group, vector_bit, mask_reg, mask, unmask, interrupts_max}

vector_bit_lem : (v : ℕ) → vector_bit v ≡ v % 32
unfolding vector_bit
vector_bit_lem v =
    let a = bit_and v 0x1f in
    eq_of_bits (a + v % 32) a (v % 32) (omega arith) (omega arith) (λ i.
      test_bit-bit_and v 0x1f i
      ∙ ap (λ x. test_bit v i && x) (test_bit-ones 5 i)
      ∙ swap (test_bit v i) (ltb i 5)
      ∙ sym (test_bit-mod 5 v i))
  where
    swap : (p q : Bool) → (p && q) ≡ (q && p)
    swap true true = refl
    swap true false = refl
    swap false true = refl
    swap false false = refl

-- Two sources that share a register are told apart by their bits.
same_register :
    (v w : ℕ)
    → v < 64
    → w < 64
    → mask_reg (vector_group w) ≡ mask_reg (vector_group v)
    → (vector_bit w == vector_bit v) ≡ (v == w)
unfolding vector_group
same_register v w hv hw e = rw (vector_bit_lem v, vector_bit_lem w) (ground (arith, e))

vector_bit-lt : (v : ℕ) → vector_bit v < 32
vector_bit-lt v = rw (vector_bit_lem v) (omega arith)

or_false : (b : Bool) → (b || false) ≡ b
or_false true = refl
or_false false = refl

and_true : (b : Bool) → (b && not false) ≡ b
and_true true = refl
and_true false = refl

module _ {H : Type 0} where
  -- The mask bit of a source.
  unfoldable pub is_masked : ℕ → Intc H → Bool
  is_masked v s = test_bit (s.regs (mask_reg (vector_group v))) (vector_bit v)

  -- The bit of `w` when the word `val` was written to the register of `v`.
  written :
      (v w val : ℕ) (s : Intc H) (q : Bool)
      → v < 64
      → w < 64
      → (mask_reg (vector_group w) ≡ mask_reg (vector_group v) → test_bit val (vector_bit w) ≡ q)
      → ((v == w) ≡ false → is_masked w s ≡ q)
      → test_bit
          (update s.regs (mask_reg (vector_group v)) val (mask_reg (vector_group w)))
          (vector_bit w)
        ≡ q
  unfolding is_masked
  written v w val s q hv hw here there =
      let at = mask_reg (vector_group v) in
      let to = mask_reg (vector_group w) in
      elim (Bool-cases (to == at)) [
        | inl same ↦ let e : to ≡ at = (==_iff to at).0 same in rw same (here e)
        | inr other ↦
            let ne : (v == w) ≡ false =
              ne→== v w
                (λ e. cc (other, eq→== to at (ap (λ x. mask_reg (vector_group x)) (sym e)))) in
            rw other (there ne)
      ]

  -- `mask` masks its source and `unmask` unmasks it, and neither touches another source; a vector
  -- that is out of range changes nothing.
  pub mask-sources :
      (v w : ℕ) (s : Intc H)
      → w < interrupts_max
      → s.regs (mask_reg (vector_group v)) < u32_mod
      → (is_masked w (mask v s) ≡ (is_masked w s || (v == w)))
        × (is_masked w (unmask v s) ≡ (is_masked w s && not (v == w)))
  unfolding is_masked mask unmask
  mask-sources v w s hw word =
      let at = mask_reg (vector_group v) in
      let to = mask_reg (vector_group w) in
      let i = vector_bit w in
      let b = vector_bit v in
      elim (lt_or_ge v 64) [
        | inr out ↦
            let ne : (v == w) ≡ false = ne→== v w (λ e. omega arith) in
            let no = ge→ltb v 64 out in
            (
              rw (no, ne) (sym (or_false (is_masked w s))),
              rw (no, ne) (sym (and_true (is_masked w s))),
            )
        | inl hv ↦
            let yes = lt→ltb v 64 hv in
            (
              rw yes (
                  written v w (bit_or (s.regs at) (bit b)) s (is_masked w s || (v == w)) hv hw
                    (λ e.
                      test_bit-set (s.regs at) b i (vector_bit-lt v)
                      ∙ rw (same_register v w hv hw e, e) refl)
                    (λ ne. rw ne (sym (or_false (is_masked w s))))),
              rw yes (
                  written v w (bit_and (s.regs at) (not32 (bit b))) s
                    (is_masked w s && not (v == w)) hv hw
                    (λ e.
                      test_bit-clear (s.regs at) b i word (vector_bit-lt v)
                      ∙ rw (same_register v w hv hw e, e) refl)
                    (λ ne. rw ne (sym (and_true (is_masked w s))))),
            )
      ]
