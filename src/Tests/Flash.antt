-- ===== src/Tests/Flash.antt =====
-- A flash memory that is busy for two status reads after a program command, for src/spi_flash.rs.
use f1c100s_rs.Base.{
  ℕ, ◌+◌, ◌-◌, ◌*◌, ◌≡◌, refl, Bool, true, false, List, [], ◌∷◌, ◌==◌, ◌&&◌, if◌then◌else◌, arith,
  Bool-cases, inl, inr,
}
use f1c100s_rs.Io.{ok, err, Slice}
use f1c100s_rs.SpiFlash.{SpiBus, Flash, FlashError, write}
use f1c100s_rs.SpiFlash.Chip.{IsChip, programmed, written}
use f1c100s_rs.SpiFlash.Write.{write-written}

record Memory : Type 0 where
  cells : ℕ → ℕ
  latch : Bool
  busy : ℕ

send_cmd : List ℕ → Flash Memory (Unit {0})
send_cmd (c ∷ []) m = if c == 6 then ok tt (record m { latch = true }) else err FlashError.spi m
send_cmd _ m = err FlashError.spi m

program : List ℕ → Slice → Flash Memory (Unit {0})
program (c ∷ high ∷ mid ∷ low ∷ []) bytes m =
    if c == 2 && m.latch
    then ok tt (record {
      cells = programmed m.cells (high * 65536 + mid * 256 + low) bytes;
      latch = false;
      busy = 2;
    })
    else err FlashError.spi m
program _ bytes m = err FlashError.spi m

status : List ℕ → ℕ → Flash Memory (ℕ → ℕ)
status (c ∷ d ∷ []) n m =
    if c == 5
    then ok (λ i. if m.busy == 0 then 0 else 1) (record m { busy = m.busy - 1 })
    else err FlashError.spi m
status _ n m = err FlashError.spi m

abbrev memory_bus : SpiBus Memory
memory_bus = record {
  xfer = status;
  xfer_send = send_cmd;
  xfer_cmd_read = λ c n m. err FlashError.spi m;
  xfer_cmd_send = program;
}

memory_bus-IsChip : IsChip memory_bus (λ m. m.cells) (λ m. m.latch) (λ m. m.busy) 2
unfolding send_cmd program status
memory_bus-IsChip = record {
  enables = λ m idle. (record m { latch = true }, refl, refl, refl, idle);
  programs = λ high mid low bytes m h1 h2 h3 fits latched idle. (
    record {
      cells = programmed m.cells (high * 65536 + mid * 256 + low) bytes;
      latch = false;
      busy = 2;
    },
    rw latched refl,
    λ x. refl,
    omega arith,
  );
  reports = λ m. (
    record m { busy = m.busy - 1 },
    (λ i. if m.busy == 0 then 0 else 1),
    refl,
    elim (Bool-cases (m.busy == 0)) [ inl e ↦ rw e refl | inr e ↦ rw e refl ],
    refl,
    refl,
  );
}

-- 300 bytes from the middle of a page on, over three pages.
abbrev erased : Memory
erased = record { cells = λ _. 0xff; latch = false; busy = 0 }

abbrev counted : Slice
counted = record { at = λ i. i; len = 300 }

write-written_example :
    (m : Memory) × (write memory_bus 3 500 counted erased ≡ ok tt m)
    × ((x : ℕ) → m.cells x ≡ written erased.cells 500 counted x)
    × (m.busy ≡ 0)
write-written_example =
    write-written memory_bus (λ m. m.cells) (λ m. m.latch) (λ m. m.busy) 2 memory_bus-IsChip 3 500
      counted erased (omega arith) (omega arith) refl
