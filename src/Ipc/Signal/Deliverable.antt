-- ===== src/Ipc/Signal/Deliverable.antt =====
-- Which signal of src/ipc/signal.rs a thread takes.
use f1c100s_rs.Base.{
  ℕ, ◌<◌, ◌≤◌, ◌≡◌, ◌≢◌, ◌⊎◌, refl, sym, ap, ◌∙◌, Bool, true, false, not, ◌&&◌, none, some, arith,
  lt→ltb, ◌==◌, ==_iff, Bool-cases, inl, inr,
}
use f1c100s_rs.Bits.{bit, bit_and, not32, trailing_zeros, u32_mod, test_bit}
use f1c100s_rs.Bits.Laws.{test_bit-bit_and, test_bit-not32, zero-test_bit}
use f1c100s_rs.Bits.Masks.{bit_and-lt, test_bit-clear}
use f1c100s_rs.Bits.Scan.{trailing_zeros-set, trailing_zeros-le}
use f1c100s_rs.Thread.Types.{Thread}
use f1c100s_rs.Ipc.Signal.{take_one}

-- A signal that is pending, not masked, and waited for.
abbrev pub can_take : ℕ → Thread → ℕ → Bool
can_take wait_mask t i =
    (test_bit t.sig_pending i && not (test_bit t.sig_mask i)) && test_bit wait_mask i

deliverable_bit :
    (wait_mask i : ℕ) (t : Thread)
    → t.sig_mask < u32_mod
    → i < 32
    → test_bit (bit_and (bit_and t.sig_pending (not32 t.sig_mask)) wait_mask) i
      ≡ can_take wait_mask t i
deliverable_bit wait_mask i t word h =
    rw
      (
        test_bit-bit_and (bit_and t.sig_pending (not32 t.sig_mask)) wait_mask i,
        test_bit-bit_and t.sig_pending (not32 t.sig_mask) i,
        test_bit-not32 t.sig_mask i word,
        lt→ltb i 32 h,
      )
      refl

-- Either no signal is pending, not masked and waited for; or the one with the lowest number is
-- taken, and of the pending signals only that one is removed.
pub take_one_lem :
    (wait_mask : ℕ) (t : Thread)
    → t.sig_pending < u32_mod
    → t.sig_mask < u32_mod
    → ((take_one wait_mask t ≡ none) × ((i : ℕ) → i < 32 → can_take wait_mask t i ≡ false))
      ⊎ ((signo : ℕ) × (t' : Thread) × (take_one wait_mask t ≡ some (signo, t'))
          × (signo < 32)
          × (can_take wait_mask t signo ≡ true)
          × ((i : ℕ) → i < 32 → can_take wait_mask t i ≡ true → signo ≤ i)
          × ((i : ℕ) → test_bit t'.sig_pending i ≡ (test_bit t.sig_pending i && not (i == signo))))
unfolding take_one
take_one_lem wait_mask t pending mask =
    let d = bit_and (bit_and t.sig_pending (not32 t.sig_mask)) wait_mask in
    let word : d < u32_mod =
      bit_and-lt (bit_and t.sig_pending (not32 t.sig_mask)) wait_mask u32_mod
        (bit_and-lt t.sig_pending (not32 t.sig_mask) u32_mod pending) in
    elim (Bool-cases (d == 0)) [
      | inl nothing ↦
          let z : d ≡ 0 = (==_iff d 0).0 nothing in
          inl (
            rw nothing refl,
            λ i h.
                sym (deliverable_bit wait_mask i t mask h)
                ∙ ap (λ x. test_bit x i) z
                ∙ zero-test_bit i,
          )
      | inr some_left ↦
          let ne : d ≢ 0 = ground (arith, some_left) in
          let (low, set) = trailing_zeros-set d ne word in
          let signo = trailing_zeros d in
          inr (
            signo,
            record t { sig_pending = bit_and t.sig_pending (not32 (bit signo)) },
            rw some_left refl,
            low,
            sym (deliverable_bit wait_mask signo t mask low) ∙ set,
            λ i h can. trailing_zeros-le d i (deliverable_bit wait_mask i t mask h ∙ can),
            λ i. test_bit-clear t.sig_pending signo i pending low,
          )
    ]
