-- ===== src/Spi/Transfer.antt =====
-- The transfers of src/spi.rs.
use f1c100s_rs.Base.{ℕ, zero, suc, ◌+◌, ◌-◌, min, Bool, [], ◌∷◌, ltb, if◌then◌else◌, update}
use f1c100s_rs.Bits.{bit_or}
use f1c100s_rs.Io.{ok, err, spins, Call, ◌>>=◌, ◌>>◌, finally, map_err, Slice}
use f1c100s_rs.SpiFlash.{FlashError, SpiBus, part}
use f1c100s_rs.Spi.{
  Spi, SpiError, timeout, spi_read, spi_write, modify, has_bit, rx_fifo_count, cs_assert,
  cs_deassert, slice_of, tctrl_reg, bc_reg, tc_reg, bcc_reg, txd_reg, rxd_reg, xch_bit, fifo_size,
}

module _ {D : Type 0} (dev_read : ℕ → D → ℕ × D) (dev_write : ℕ → ℕ → D → D) (spi : Spi) where
  -- A wait in `transfer`, with `n` left of the timeout.
  unfoldable pub wait_while : (n : ℕ) → (D → Bool × D) → Call D SpiError (Unit {0})
  wait_while zero test d = let (waits, d') = test d in if waits then err timeout d' else ok tt d'
  wait_while (suc n) test d =
      let rest = wait_while n test in
      let (waits, d') = test d in if waits then rest d' else ok tt d'

  -- The bytes from `i` on, `n` of them, go to the FIFO.
  unfoldable pub preload : (n i : ℕ) → Slice → D → D
  preload zero i tx d = d
  preload (suc n) i tx d =
      preload n (i + 1) tx
        (spi_write dev_read dev_write spi txd_reg (if ltb i tx.len then tx.at i else 0xff) d)

  -- As many bytes come from the FIFO, and go to the buffer as far as it reaches.
  unfoldable pub drain : (n i rx_len : ℕ) → (ℕ → ℕ) → D → (ℕ → ℕ) × D
  drain zero i rx_len rx d = (rx, d)
  drain (suc n) i rx_len rx d =
      let (byte, d') = spi_read dev_read dev_write spi rxd_reg d in
      drain n (i + 1) rx_len (if ltb i rx_len then update rx i byte else rx) d'

  -- Whether fewer than `n` bytes have come in.
  unfoldable pub is_short : (n : ℕ) → D → Bool × D
  unfolding rx_fifo_count
  is_short n d = let (count, d') = rx_fifo_count dev_read dev_write spi d in (ltb count n, d')

  -- One round of `transfer`: a burst of `n` bytes from `off` on.
  unfoldable pub burst : (n off : ℕ) → Slice → (rx_len : ℕ) → (ℕ → ℕ) → Call D SpiError (ℕ → ℕ)
  burst n off tx rx_len rx =
      (λ d. ok tt (
        modify dev_read dev_write spi tctrl_reg (λ val. bit_or val xch_bit)
          (preload n off tx (
            spi_write dev_read dev_write spi bcc_reg n (
              spi_write dev_read dev_write spi tc_reg n
                (spi_write dev_read dev_write spi bc_reg n d))))))
      >> wait_while 0xfffff (has_bit dev_read dev_write spi tctrl_reg xch_bit)
      >> wait_while 0xfffff (is_short n)
      >> (λ d. let (rx', d') = drain n off rx_len rx d in ok rx' d')

  -- The loop of `transfer`, with at most `k` rounds.
  unfoldable pub transfer_from :
      (k off len : ℕ) → Slice → (rx_len : ℕ) → (ℕ → ℕ) → Call D SpiError (ℕ → ℕ)
  unfolding burst
  transfer_from zero off len tx rx_len rx d = if ltb off len then spins else ok rx d
  transfer_from (suc k) off len tx rx_len rx d =
      let n = min (len - off) fifo_size in
      let rest = transfer_from k (off + n) len tx rx_len in
      if ltb off len then (burst n off tx rx_len rx >>= rest) d else ok rx d

  -- `transfer`: the bytes of the buffer after it. Each round moves on by a byte at least.
  unfoldable pub transfer : Slice → (rx_len : ℕ) → (ℕ → ℕ) → Call D SpiError (ℕ → ℕ)
  unfolding transfer_from
  transfer tx rx_len rx =
      let len = if ltb tx.len rx_len then rx_len else tx.len in transfer_from len 0 len tx rx_len rx

  -- The loop of `send`, with at most `k` rounds.
  unfoldable pub send_from : (k off : ℕ) → Slice → Call D SpiError (Unit {0})
  unfolding transfer
  send_from zero off tx d = if ltb off tx.len then spins else ok tt d
  send_from (suc k) off tx d =
      let chunk = min (tx.len - off) 64 in
      let rest = send_from k (off + chunk) tx in
      if ltb off tx.len then (transfer (part tx off chunk) chunk (λ _. 0) >> rest) d else ok tt d

  -- `send`.
  unfoldable pub send : Slice → Call D SpiError (Unit {0})
  unfolding send_from
  send tx = send_from tx.len 0 tx

  -- The loop of `receive`, with at most `k` rounds; the buffer lies `off` bytes before the chunk.
  unfoldable pub receive_from : (k off rx_len : ℕ) → (ℕ → ℕ) → Call D SpiError (ℕ → ℕ)
  unfolding transfer
  receive_from zero off rx_len rx d = if ltb off rx_len then spins else ok rx d
  receive_from (suc k) off rx_len rx d =
      let chunk = min (rx_len - off) 64 in
      let rest = receive_from k (off + chunk) rx_len in
      let chunk_rx : ℕ → ℕ = λ i. rx (off + i) in
      let put : (ℕ → ℕ) → ℕ → ℕ = λ got i. if ltb i off then rx i else got (i - off) in
      if ltb off rx_len
      then (transfer (slice_of (0xff ∷ [])) chunk chunk_rx >>= (λ got. rest (put got))) d
      else ok rx d

  -- `receive`.
  unfoldable pub receive : (rx_len : ℕ) → (ℕ → ℕ) → Call D SpiError (ℕ → ℕ)
  unfolding receive_from
  receive rx_len = receive_from rx_len 0 rx_len

  -- The chip is selected for the whole of a call, and released whatever its result is.
  unfoldable pub selected : {A : Type 0} → Call D SpiError A → Call D SpiError A
  unfolding cs_assert cs_deassert
  selected call d =
      finally (cs_deassert dev_read dev_write spi) (call (cs_assert dev_read dev_write spi d))

  -- `xfer`.
  unfoldable pub xfer : Slice → (rx_len : ℕ) → (ℕ → ℕ) → Call D SpiError (ℕ → ℕ)
  unfolding selected transfer
  xfer tx rx_len rx = selected (transfer tx rx_len rx)

  -- `xfer_send`.
  unfoldable pub xfer_send : Slice → Call D SpiError (Unit {0})
  unfolding selected send
  xfer_send tx = selected (send tx)

  -- `xfer_receive`.
  unfoldable pub xfer_receive : (rx_len : ℕ) → (ℕ → ℕ) → Call D SpiError (ℕ → ℕ)
  unfolding selected receive
  xfer_receive rx_len rx = selected (receive rx_len rx)

  -- `xfer_cmd_read`.
  unfoldable pub xfer_cmd_read : Slice → (rx_len : ℕ) → (ℕ → ℕ) → Call D SpiError (ℕ → ℕ)
  unfolding selected transfer receive
  xfer_cmd_read cmd rx_len rx = selected (transfer cmd 0 (λ _. 0) >> receive rx_len rx)

  -- `xfer_cmd_send`.
  unfoldable pub xfer_cmd_send : Slice → Slice → Call D SpiError (Unit {0})
  unfolding selected send
  xfer_cmd_send cmd bytes = selected (send cmd >> send bytes)

  -- The bus of src/spi_flash.rs, whose buffers start with zeros.
  abbrev pub flash_error : SpiError → FlashError
  flash_error timeout = FlashError.spi

  unfoldable pub flash_bus : SpiBus D
  unfolding xfer xfer_send xfer_cmd_read xfer_cmd_send
  flash_bus = record {
    xfer = λ tx rx_len d. map_err flash_error (xfer (slice_of tx) rx_len (λ _. 0) d);
    xfer_send = λ tx d. map_err flash_error (xfer_send (slice_of tx) d);
    xfer_cmd_read =
        λ cmd rx_len d. map_err flash_error (xfer_cmd_read (slice_of cmd) rx_len (λ _. 0) d);
    xfer_cmd_send = λ cmd bytes d. map_err flash_error (xfer_cmd_send (slice_of cmd) bytes d);
  }
