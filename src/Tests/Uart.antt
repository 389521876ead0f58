-- ===== src/Tests/Uart.antt =====
-- UARTs for src/uart.rs: one whose registers are looked at, and one that takes three reads of its
-- status for a byte.
use f1c100s_rs.Base.{
  ℕ, ◌+◌, ◌*◌, ◌/◌, ◌%◌, ◌-◌, ◌≡◌, refl, ap, false, List, [], ◌∷◌, ◌++◌, ◌==◌, if◌then◌else◌, arith,
  Bool-cases, inl, inr, ==_iff,
}
use f1c100s_rs.Bits.{test_bit, u32_mod}
use f1c100s_rs.Io.{ok, Slice}
use f1c100s_rs.Uart.{configure, default_uart, bits8, stop1, no_parity, write}
use f1c100s_rs.Uart.Latch.{Latch, latch_write, IsUart, format_word, configure-latch}
use f1c100s_rs.Uart.Sends.{IsTransmitter, bytes_from, write-Sends}

abbrev base : ℕ
base = 0x01c25000

ports_write : (addr val : ℕ) → Latch → Latch
unfolding latch_write
ports_write addr val = latch_write (addr - base) val

ports-IsUart : IsUart ports_write base (λ l. l)
unfolding ports_write
ports-IsUart = record {
  writes = λ offset val l.
      let at : base + offset - base ≡ offset = omega arith in
      ap (λ (m : ℕ). latch_write m val l) at;
}

abbrev closed_latch : Latch
closed_latch = record { dll = 1; dlh = 0; ier = 5; format = 0; sent = [] }

-- 115200 baud from 100 MHz.
configure-latch_example :
    (l : Latch) × (configure (λ addr l. (0, l)) ports_write base 100000000 default_uart closed_latch
      ≡ ok tt l)
    × (l.dll + l.dlh * 256 ≡ 100000000 / (115200 * 16 % u32_mod) % 65536)
    × (l.ier ≡ 0)
    × (l.format ≡ format_word bits8 stop1 no_parity)
    × (test_bit l.format 7 ≡ false)
    × (l.sent ≡ [])
unfolding test_bit
configure-latch_example =
    configure-latch (λ addr l. (0, l)) ports_write base (λ l. l) ports-IsUart 100000000 default_uart
      closed_latch (λ e. absurd (omega arith)) refl

record Transmitter : Type 0 where
  sent : List ℕ
  left : ℕ

status_read : ℕ → Transmitter → ℕ × Transmitter
status_read addr u = (if u.left == 0 then 2 else 0, record u { left = u.left - 1 })

byte_write : (addr val : ℕ) → Transmitter → Transmitter
byte_write addr val u =
    if addr == base
    then record { sent = if u.left == 0 then u.sent ++ (val ∷ []) else u.sent; left = 3 }
    else u

slow-IsTransmitter : IsTransmitter status_read byte_write base 4 (λ u. u.sent) (λ u. u.left)
unfolding status_read byte_write
slow-IsTransmitter = record {
  reports = λ u. (
    (if u.left == 0 then 2 else 0),
    record u { left = u.left - 1 },
    refl,
    elim (Bool-cases (u.left == 0)) [ inl e ↦ rw e refl | inr e ↦ rw e refl ],
    refl,
    elim (Bool-cases (u.left == 0)) [
      | inl e ↦ inl ((==_iff u.left 0).0 e, ground (arith, e))
      | inr e ↦ inr (ground (arith, e))
    ],
  );
  takes = λ val u. (refl, omega arith);
}

abbrev greeting : Slice
greeting = record { at = λ i. 0x61 + i; len = 2 }

write-Sends_example :
    (u : Transmitter) × (write status_read byte_write base 4 greeting
        (record { sent = []; left = 2 })
      ≡ ok tt u)
    × (u.sent ≡ [] ++ bytes_from 2 0 greeting)
write-Sends_example =
    write-Sends status_read byte_write base 4 (λ u. u.sent) (λ u. u.left) slow-IsTransmitter
      greeting (record { sent = []; left = 2 }) (omega arith)
