-- ===== src/Spi/Ends.antt =====
-- The calls of src/spi.rs end, whatever the device answers.
use f1c100s_rs.Base.{
  ℕ, zero, suc, ◌+◌, ◌-◌, ◌≤◌, ◌≡◌, ◌∙◌, refl, true, false, Bool, min, ltb, if◌then◌else◌,
  Bool-cases, inl, inr, arith, [], ◌∷◌,
}
use f1c100s_rs.Bits.{bit_or, test_bit}
use f1c100s_rs.Bits.Laws.{test_bit-bit_or}
use f1c100s_rs.Io.{Io, ok, err, spins, panics, Call, and_then, finally, Slice}
use f1c100s_rs.SpiFlash.{part}
use f1c100s_rs.Spi.{
  Spi, SpiError, tctrl_reg, ss_level_bit, cs_assert, cs_deassert, spi_read, slice_of,
}
use f1c100s_rs.Spi.Transfer.{
  wait_while, burst, transfer_from, transfer, send_from, send, receive_from, receive, selected,
  xfer, xfer_send, xfer_receive, xfer_cmd_read, xfer_cmd_send,
}

-- A call has returned, with an error or without, and the device is in a state of `P`.
pub Ends : {D A : Type 0} → (D → Type 0) → Io D SpiError A → Type 0
Ends P (ok a d) = P d
Ends P (err e d) = P d
Ends P spins = ⊥
Ends P panics = ⊥

module _ {D : Type 0} where
  abbrev Returns : {A : Type 0} → Io D SpiError A → Type 0
  Returns = Ends (λ _. Unit {0})

  and_then-Ends :
      {A B : Type 0} (m : Io D SpiError A) (k : A → Call D SpiError B)
      → Returns m
      → ((a : A) (d : D) → Returns (k a d))
      → Returns (and_then m k)
  unfolding Ends
  and_then-Ends (ok a d) k h each = each a d
  and_then-Ends (err e d) k h each = tt
  and_then-Ends spins k h each = absurd h
  and_then-Ends panics k h each = absurd h

  finally-Ends :
      {A : Type 0} (P : D → Type 0) (f : D → D) (m : Io D SpiError A)
      → ((d : D) → P (f d))
      → Returns m
      → Ends P (finally f m)
  unfolding Ends
  finally-Ends P f (ok a d) after h = after d
  finally-Ends P f (err e d) after h = after d
  finally-Ends P f spins after h = absurd h
  finally-Ends P f panics after h = absurd h

raised-level : (val : ℕ) → test_bit (bit_or val ss_level_bit) 7 ≡ true
raised-level val =
    let raised : test_bit ss_level_bit 7 ≡ true = unfold test_bit in refl in
    test_bit-bit_or val ss_level_bit 7
    ∙ rw raised (elim (Bool-cases (test_bit val 7)) [ inl e ↦ rw e refl | inr e ↦ rw e refl ])

module _ {D : Type 0} (dev_read : ℕ → D → ℕ × D) (dev_write : ℕ → ℕ → D → D) (spi : Spi) where
  wait_while-Ends :
      (n : ℕ) (test : D → Bool × D) (d : D) → Returns (wait_while dev_read dev_write spi n test d)
  unfolding wait_while Ends
  wait_while-Ends zero test d = elim (Bool-cases ((test d).0)) [
    | inl waits ↦ rw waits tt
    | inr over ↦ rw over tt
  ]
  wait_while-Ends (suc n) test d = elim (Bool-cases ((test d).0)) [
    | inl waits ↦ rw waits (wait_while-Ends n test ((test d).1))
    | inr over ↦ rw over tt
  ]

  burst-Ends :
      (n off : ℕ) (tx : Slice) (rx_len : ℕ) (rx : ℕ → ℕ) (d : D)
      → Returns (burst dev_read dev_write spi n off tx rx_len rx d)
  unfolding burst Ends
  burst-Ends n off tx rx_len rx d =
      and_then-Ends _ _
        (and_then-Ends _ _ (wait_while-Ends 0xfffff _ _) (λ _ d'. wait_while-Ends 0xfffff _ d'))
        (λ _ d'. tt)

  transfer_from-Ends :
      (k off len : ℕ) (tx : Slice) (rx_len : ℕ) (rx : ℕ → ℕ) (d : D)
      → len ≤ off + k
      → Returns (transfer_from dev_read dev_write spi k off len tx rx_len rx d)
  unfolding transfer_from Ends
  transfer_from-Ends zero off len tx rx_len rx d enough =
      let over : ltb off len ≡ false = ground arith in rw over tt
  transfer_from-Ends (suc k) off len tx rx_len rx d enough = elim (Bool-cases (ltb off len)) [
    | inl more ↦ rw more (
        and_then-Ends _ _ (burst-Ends (min (len - off) 64) off tx rx_len rx d) (λ rx' d'.
          transfer_from-Ends k (off + min (len - off) 64) len tx rx_len rx' d'
            (ground (arith, more))))
    | inr over ↦ rw over tt
  ]

  transfer-Ends :
      (tx : Slice) (rx_len : ℕ) (rx : ℕ → ℕ) (d : D)
      → Returns (transfer dev_read dev_write spi tx rx_len rx d)
  unfolding transfer
  transfer-Ends tx rx_len rx d =
      let len = if ltb tx.len rx_len then rx_len else tx.len in
      transfer_from-Ends len 0 len tx rx_len rx d (omega arith)

  send_from-Ends :
      (k off : ℕ) (tx : Slice) (d : D)
      → tx.len ≤ off + k
      → Returns (send_from dev_read dev_write spi k off tx d)
  unfolding send_from Ends
  send_from-Ends zero off tx d enough =
      let over : ltb off tx.len ≡ false = ground arith in rw over tt
  send_from-Ends (suc k) off tx d enough = elim (Bool-cases (ltb off tx.len)) [
    | inl more ↦ rw more (
        and_then-Ends _ _
          (transfer-Ends (part tx off (min (tx.len - off) 64)) (min (tx.len - off) 64) (λ _. 0) d)
          (λ _ d'. send_from-Ends k (off + min (tx.len - off) 64) tx d' (ground (arith, more))))
    | inr over ↦ rw over tt
  ]

  receive_from-Ends :
      (k off rx_len : ℕ) (rx : ℕ → ℕ) (d : D)
      → rx_len ≤ off + k
      → Returns (receive_from dev_read dev_write spi k off rx_len rx d)
  unfolding receive_from Ends
  receive_from-Ends zero off rx_len rx d enough =
      let over : ltb off rx_len ≡ false = ground arith in rw over tt
  receive_from-Ends (suc k) off rx_len rx d enough = elim (Bool-cases (ltb off rx_len)) [
    | inl more ↦ rw more (
        and_then-Ends _ _
          (transfer-Ends (slice_of (0xff ∷ [])) (min (rx_len - off) 64) (λ i. rx (off + i)) d)
          (λ got d'.
            receive_from-Ends k (off + min (rx_len - off) 64) rx_len _ d' (ground (arith, more))))
    | inr over ↦ rw over tt
  ]

  send-Ends : (tx : Slice) (d : D) → Returns (send dev_read dev_write spi tx d)
  unfolding send
  send-Ends tx d = send_from-Ends tx.len 0 tx d (omega arith)

  receive-Ends :
      (rx_len : ℕ) (rx : ℕ → ℕ) (d : D) → Returns (receive dev_read dev_write spi rx_len rx d)
  unfolding receive
  receive-Ends rx_len rx d = receive_from-Ends rx_len 0 rx_len rx d (omega arith)

  module _ (level : D → Bool)
      (writes : (val : ℕ) (d : D)
        → level (dev_write (spi.base + tctrl_reg) val d) ≡ test_bit val 7) where
    abbrev pub Released : D → Type 0
    Released d = level d ≡ true

    deassert-Released : (d : D) → Released (cs_deassert dev_read dev_write spi d)
    unfolding cs_deassert
    deassert-Released d =
        let (val, d') = spi_read dev_read dev_write spi tctrl_reg d in
        writes (bit_or val ss_level_bit) d' ∙ raised-level val

    selected-Ends :
        {A : Type 0} (call : Call D SpiError A) (d : D)
        → ((d' : D) → Returns (call d'))
        → Ends Released (selected dev_read dev_write spi call d)
    unfolding selected
    selected-Ends call d ends =
        finally-Ends Released (cs_deassert dev_read dev_write spi)
          (call (cs_assert dev_read dev_write spi d)) deassert-Released (ends _)

    -- Where the bit 7 of the transfer control is the level of the chip select, each of the five calls
    -- that select the chip ends, whatever the device answers: it returns, with a timeout or without,
    -- and the chip is released.
    pub xfer_calls-Ends :
        (tx bytes : Slice) (rx_len : ℕ) (rx : ℕ → ℕ) (d : D)
        → Ends Released (xfer dev_read dev_write spi tx rx_len rx d)
          × Ends Released (xfer_send dev_read dev_write spi tx d)
          × Ends Released (xfer_receive dev_read dev_write spi rx_len rx d)
          × Ends Released (xfer_cmd_read dev_read dev_write spi tx rx_len rx d)
          × Ends Released (xfer_cmd_send dev_read dev_write spi tx bytes d)
    unfolding xfer xfer_send xfer_receive xfer_cmd_read xfer_cmd_send
    xfer_calls-Ends tx bytes rx_len rx d = (
      selected-Ends _ d (transfer-Ends tx rx_len rx),
      selected-Ends _ d (send-Ends tx),
      selected-Ends _ d (receive-Ends rx_len rx),
      selected-Ends _ d (λ d'.
          and_then-Ends _ _ (transfer-Ends tx 0 (λ _. 0) d') (λ _ d2. receive-Ends rx_len rx d2)),
      selected-Ends _ d (λ d'. and_then-Ends _ _ (send-Ends tx d') (λ _ d2. send-Ends bytes d2)),
    )
