-- ===== src/Uart/Latch.antt =====
-- What the writes of src/uart.rs do to a UART, whose first two registers are the divisor latch while
-- `DLAB` is set.
use f1c100s_rs.Base.{
  ℕ, ◌+◌, ◌*◌, ◌/◌, ◌%◌, ◌^◌, ◌≡◌, ◌≢◌, ◌∙◌, refl, ap, false, List, [], ◌∷◌, ◌++◌, ◌==◌,
  if◌then◌else◌, arith, ne→==,
}
use f1c100s_rs.Bits.{bit_and, bit_or, shr32, test_bit, u32_mod}
use f1c100s_rs.Bits.Laws.{test_bit-bit_or}
use f1c100s_rs.Mmio.Fields.{bit_and-ones}
use f1c100s_rs.Io.{ok}
use f1c100s_rs.Uart.{
  UartConfig, DataBits, StopBits, Parity, bits5, bits6, bits7, bits8, stop1, stop2, no_parity, even,
  odd, data_bits_no, stop_word, parity_word, configure, lcr_word, word_len, dlab_bit,
}

-- The latch, the registers that `configure` writes, and the bytes that were given to be sent.
pub record Latch : Type 0 where
  pub dll : ℕ
  pub dlh : ℕ
  pub ier : ℕ
  pub format : ℕ
  pub sent : List ℕ

-- A write, by its offset.
unfoldable pub latch_write : (offset val : ℕ) → Latch → Latch
latch_write offset val l =
    if offset == 0x0c
    then record l { format = val }
    else if offset == 0x00
    then (if test_bit l.format 7
        then record l { dll = val }
        else record l { sent = l.sent ++ (val ∷ []) })
    else if offset == 0x04
    then (if test_bit l.format 7 then record l { dlh = val } else record l { ier = val })
    else l

pub record IsUart {D : Type 0} (dev_write : ℕ → ℕ → D → D) (base : ℕ) (latch : D → Latch)
    : Type 0 where
  pub writes :
      (offset val : ℕ) (d : D)
      → latch (dev_write (base + offset) val d) ≡ latch_write offset val (latch d)

word_len-format : (b : DataBits) → test_bit (word_len (data_bits_no b)) 7 ≡ false
unfolding word_len test_bit
word_len-format bits5 = refl
word_len-format bits6 = refl
word_len-format bits7 = refl
word_len-format bits8 = refl

stop_word-format : (b : StopBits) → test_bit (stop_word b) 7 ≡ false
unfolding test_bit
stop_word-format stop1 = refl
stop_word-format stop2 = refl

parity_word-format : (p : Parity) → test_bit (parity_word p) 7 ≡ false
unfolding test_bit
parity_word-format no_parity = refl
parity_word-format even = refl
parity_word-format odd = refl

lcr_word-format : (config : UartConfig) → test_bit (lcr_word config) 7 ≡ false
unfolding lcr_word
lcr_word-format config =
    let word = word_len (data_bits_no config.data_bits) in
    let stop = stop_word config.stop_bits in
    rw
      (
        test_bit-bit_or (bit_or word stop) (parity_word config.parity) 7,
        test_bit-bit_or word stop 7,
        word_len-format config.data_bits,
        stop_word-format config.stop_bits,
        parity_word-format config.parity,
      )
      refl

-- The format of the words: the size in bits 0 and 1, a second stop bit in bit 2, parity in bit 3,
-- and even parity in bit 4.
abbrev pub format_word : DataBits → StopBits → Parity → ℕ
format_word b s p = size b + stops s + checks p
  where
    size : DataBits → ℕ
    size bits5 = 0
    size bits6 = 1
    size bits7 = 2
    size bits8 = 3

    stops : StopBits → ℕ
    stops stop1 = 0
    stops stop2 = 2 ^ 2

    checks : Parity → ℕ
    checks no_parity = 0
    checks odd = 2 ^ 3
    checks even = 2 ^ 3 + 2 ^ 4

lcr_word_lem :
    (b : DataBits) (s : StopBits) (p : Parity)
    → bit_or (bit_or (word_len (data_bits_no b)) (stop_word s)) (parity_word p) ≡ format_word b s p
unfolding word_len
lcr_word_lem bits5 stop1 no_parity = refl
lcr_word_lem bits5 stop1 even = refl
lcr_word_lem bits5 stop1 odd = refl
lcr_word_lem bits5 stop2 no_parity = refl
lcr_word_lem bits5 stop2 even = refl
lcr_word_lem bits5 stop2 odd = refl
lcr_word_lem bits6 stop1 no_parity = refl
lcr_word_lem bits6 stop1 even = refl
lcr_word_lem bits6 stop1 odd = refl
lcr_word_lem bits6 stop2 no_parity = refl
lcr_word_lem bits6 stop2 even = refl
lcr_word_lem bits6 stop2 odd = refl
lcr_word_lem bits7 stop1 no_parity = refl
lcr_word_lem bits7 stop1 even = refl
lcr_word_lem bits7 stop1 odd = refl
lcr_word_lem bits7 stop2 no_parity = refl
lcr_word_lem bits7 stop2 even = refl
lcr_word_lem bits7 stop2 odd = refl
lcr_word_lem bits8 stop1 no_parity = refl
lcr_word_lem bits8 stop1 even = refl
lcr_word_lem bits8 stop1 odd = refl
lcr_word_lem bits8 stop2 no_parity = refl
lcr_word_lem bits8 stop2 even = refl
lcr_word_lem bits8 stop2 odd = refl

-- The writes of `configure`, one after the other.
abbrev programmed : (lo hi word : ℕ) → Latch → Latch
programmed lo hi word l = latch_write 0x0c word (
    latch_write 0x04 hi (
      latch_write 0x00 lo (
        latch_write 0x0c dlab_bit
          (latch_write 0x10 0 (latch_write 0x08 0x07 (latch_write 0x04 0 l))))))

latch_write-closed :
    (l : Latch) → test_bit l.format 7 ≡ false → latch_write 0x04 0 l ≡ record l { ier = 0 }
unfolding latch_write
latch_write-closed l closed = rw closed refl

programmed_lem :
    (lo hi word : ℕ) (l : Latch)
    → test_bit l.format 7 ≡ false
    → programmed lo hi word l ≡ record { dll = lo; dlh = hi; ier = 0; format = word; sent = l.sent }
unfolding latch_write test_bit
programmed_lem lo hi word l closed =
    ap
      (λ (m : Latch). latch_write 0x0c word (
        latch_write 0x04 hi (
          latch_write 0x00 lo
            (latch_write 0x0c dlab_bit (latch_write 0x10 0 (latch_write 0x08 0x07 m))))))
      (latch_write-closed l closed)

module _ {D : Type 0} (dev_read : ℕ → D → ℕ × D) (dev_write : ℕ → ℕ → D → D) (base : ℕ)
    (latch : D → Latch) (uart : IsUart dev_write base latch) where
  -- Where the latch is closed and 16 times the baud rate is not 0 in 32 bits, `configure` leaves
  -- the quotient of the APB clock by it, modulo 65536, in the latch, closes the latch again with
  -- the word size, the stop bits and the parity of the configuration in the format, turns the interrupts off, and gives no byte to be sent.
  pub configure-latch :
      (apb : ℕ) (config : UartConfig) (d : D)
      → config.baud_rate * 16 % u32_mod ≢ 0
      → test_bit ((latch d).format) 7 ≡ false
      → (d' : D) × (configure dev_read dev_write base apb config d ≡ ok tt d')
        × ((latch d').dll + (latch d').dlh * 256 ≡ apb / (config.baud_rate * 16 % u32_mod) % 65536)
        × ((latch d').ier ≡ 0)
        × ((latch d').format ≡ format_word config.data_bits config.stop_bits config.parity)
        × (test_bit ((latch d').format) 7 ≡ false)
        × ((latch d').sent ≡ (latch d).sent)
  unfolding configure shr32
  configure-latch apb config d some_rate closed =
      let rate = config.baud_rate * 16 % u32_mod in
      let divisor = apb / rate in
      let lo = bit_and divisor 0xff in
      let hi = bit_and (shr32 divisor 8) 0xff in
      let d1 = dev_write (base + 0x04) 0 d in
      let d2 = dev_write (base + 0x08) 0x07 d1 in
      let d3 = dev_write (base + 0x10) 0 d2 in
      let d4 = dev_write (base + 0x0c) dlab_bit d3 in
      let d5 = dev_write (base + 0x00) lo d4 in
      let d6 = dev_write (base + 0x04) hi d5 in
      let d7 = dev_write (base + 0x0c) (lcr_word config) d6 in
      let seen : latch d7 ≡ programmed lo hi (lcr_word config) (latch d) =
        uart.writes 0x0c (lcr_word config) d6
        ∙ ap (latch_write 0x0c (lcr_word config)) (
            uart.writes 0x04 hi d5
            ∙ ap (latch_write 0x04 hi) (
                uart.writes 0x00 lo d4
                ∙ ap (latch_write 0x00 lo) (
                    uart.writes 0x0c dlab_bit d3
                    ∙ ap (latch_write 0x0c dlab_bit) (
                        uart.writes 0x10 0 d2
                        ∙ ap (latch_write 0x10 0) (
                            uart.writes 0x08 0x07 d1
                            ∙ ap (latch_write 0x08 0x07) (uart.writes 0x04 0 d)))))) in
      let got = seen ∙ programmed_lem lo hi (lcr_word config) (latch d) closed in
      let low : lo ≡ divisor % 256 = bit_and-ones divisor 8 in
      let high : hi ≡ divisor / 256 % 256 = bit_and-ones (shr32 divisor 8) 8 in
      (
        d7,
        rw (ne→== rate 0 some_rate) refl,
        ap (λ (l : Latch). l.dll + l.dlh * 256) got ∙ omega (arith, low, high),
        ap (λ (l : Latch). l.ier) got,
        ap (λ (l : Latch). l.format) got
            ∙ lcr_word_lem config.data_bits config.stop_bits config.parity,
        ap (λ (l : Latch). test_bit (l.format) 7) got ∙ lcr_word-format config,
        ap (λ (l : Latch). l.sent) got,
      )
