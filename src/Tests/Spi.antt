-- ===== src/Tests/Spi.antt =====
-- The clock of src/spi.rs at two rates, and a slave on the pins of src/soft_spi.rs.
use f1c100s_rs.Base.{
  ℕ, ◌*◌, ◌/◌, ◌%◌, ◌≡◌, refl, Bool, true, false, some, [], ◌∷◌, ◌++◌, min, ltb, ◌==◌,
  if◌then◌else◌, arith,
}
use f1c100s_rs.Io.{ok, Slice}
use f1c100s_rs.Bits.{shl32, test_bit}
use f1c100s_rs.Gpio.{Port, port_no}
use f1c100s_rs.Spi.{Spi, rate_word, find_cdr1, bus_max_clk}
use f1c100s_rs.Spi.Transfer.{xfer, xfer_send, xfer_receive, xfer_cmd_read, xfer_cmd_send}
use f1c100s_rs.Spi.Ends.{Ends, xfer_calls-Ends}
use f1c100s_rs.Clock.Gates.{BusGate}
use f1c100s_rs.Spi.Rate.{Within, rate_word-Within}
use f1c100s_rs.SoftSpi.{
  SpiMode, SoftSpiConfig, Gpio, Pins, new_config, with_mode, is_3wire, tx_byte, transfer_byte_3wire,
  transfer,
}
use f1c100s_rs.SoftSpi.Slave.{Line, IsWired, clocked, resting}
use f1c100s_rs.SoftSpi.Byte.{digits}
use f1c100s_rs.SoftSpi.Transfer.{bits, transfer-Shifts}
use f1c100s_rs.SoftSpi.ThreeWire.{IsShared, transfer_byte_3wire-late}

-- 100 kHz from 200 MHz: the divider is 4096, although 2048 would do.
slow_rate : rate_word 200000000 100000 ≡ some (10 * 256)
unfolding rate_word find_cdr1 shl32
slow_rate = refl

rate_word-Within_example :
    (word : ℕ) × (rate_word 200000000 100000 ≡ some word)
    × Within 200000000 (min 100000 bus_max_clk) word
rate_word-Within_example =
    rate_word-Within 200000000 100000 (omega arith) (omega arith) (omega arith)

-- SCK is the pin 0, MOSI the pin 1 and MISO the pin 2.
set_level : (phase idle : Bool) → Port × ℕ → Bool → Pins Line (Unit {0})
set_level phase idle pin level l =
    if pin.1 == 0
    then ok tt (clocked phase idle level l)
    else if pin.1 == 1
    then ok tt (record l { mosi = level })
    else ok tt l

wires : (phase idle : Bool) → Gpio Line
unfolding set_level
wires phase idle = record {
  set_function = λ pin func. ok tt;
  set_value = set_level phase idle;
  get_value = λ pin l. ok (if pin.1 == 1 then l.mosi else l.miso) l;
  set_pull_mode = λ pin mode. ok tt;
}

abbrev four_wires : SoftSpiConfig
four_wires = with_mode SpiMode.mode3 (new_config (Port.a, 0) (Port.a, 1) (Port.a, 2))

abbrev three_wires : SoftSpiConfig
three_wires = with_mode SpiMode.mode1 (new_config (Port.a, 0) (Port.a, 1) (Port.a, 1))

four_wires-IsWired : IsWired (wires true true) four_wires (λ l. l)
unfolding wires set_level
four_wires-IsWired = record {
  clocks = λ level l. (clocked true true level l, refl, refl);
  drives = λ level l. (record l { mosi = level }, refl, refl);
  reads = λ l. refl;
}

three_wires-IsShared : IsShared (wires true false) three_wires (λ l. l)
unfolding wires set_level
three_wires-IsShared = record {
  clocks = λ level l. (clocked true false level l, refl, refl);
  drives = λ level l. (record l { mosi = level }, refl, refl);
  turns = λ func l. (l, refl, refl);
  hears = λ l. (l.mosi, refl);
}

abbrev command : Slice
command = record { at = λ i. if i == 0 then 0x9f else 0; len = 1 }

-- The slave answers with the bytes 0, 1, 2.
abbrev answer : Line
answer = resting true true true true [] (bits 3 0 (λ j. j % 256) ++ [])

transfer-Shifts_example :
    (l : Line) × (rx : ℕ → ℕ) × (level : Bool) × (last : Bool) × (transfer
        (wires true true)
        four_wires
        command
        3
        (λ _. 0)
        answer
      ≡ ok rx l)
    × ((j : ℕ) → rx j ≡ (if ltb j 3 then j % 256 else 0))
    × (l ≡ resting true true level last ([] ++ bits 3 0 (tx_byte command)) [])
unfolding port_no
transfer-Shifts_example =
    transfer-Shifts (wires true true) four_wires (λ l. l) four_wires-IsWired
      (unfold is_3wire in refl) command 3 3 (λ _. 0) (λ j. j % 256) true true [] [] answer refl
      (λ j. omega arith) refl

transfer_byte_3wire-late_example :
    (r : ℕ) × (l : Line) × (transfer_byte_3wire
        (wires true false)
        three_wires
        0x9f
        (resting true false true true [] [])
      ≡ ok r l)
    × (l.heard ≡ [] ++ (if true then true ∷ digits 7 (0x9f / 2) else digits 8 0x9f))
transfer_byte_3wire-late_example =
    transfer_byte_3wire-late (wires true false) three_wires (λ l. l) three_wires-IsShared 0x9f true
      true [] [] (resting true false true true [] []) refl

-- A controller without a FIFO, which answers zeros, and keeps the transfer control.
dead_read : ℕ → ℕ → ℕ × ℕ
dead_read addr tctrl = (0, tctrl)

dead_write : (addr val tctrl : ℕ) → ℕ
dead_write addr val tctrl = if addr == 0x01c05008 then val else tctrl

abbrev spi0 : Spi
spi0 = record { base = 0x01c05000; gate = BusGate.spi0; ahb_hz = 200000000 }

abbrev Free : ℕ → Type 0
Free tctrl = test_bit tctrl 7 ≡ true

xfer_calls-Ends_example :
    Ends Free (xfer dead_read dead_write spi0 command 3 (λ _. 0) 0)
    × Ends Free (xfer_send dead_read dead_write spi0 command 0)
    × Ends Free (xfer_receive dead_read dead_write spi0 3 (λ _. 0) 0)
    × Ends Free (xfer_cmd_read dead_read dead_write spi0 command 3 (λ _. 0) 0)
    × Ends Free (xfer_cmd_send dead_read dead_write spi0 command command 0)
unfolding dead_write
xfer_calls-Ends_example =
    xfer_calls-Ends dead_read dead_write spi0 (λ tctrl. test_bit tctrl 7) (λ val tctrl. refl)
      command command 3 (λ _. 0) 0
