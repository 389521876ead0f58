-- ===== src/Timer/Interval.antt =====
-- The one-shot interval of src/timer.rs.
use f1c100s_rs.Base.{ℕ, ◌+◌, ◌*◌, ◌≤◌, ◌<◌, arith}
use f1c100s_rs.Bits.{shl32, u32_mod}
use f1c100s_rs.Timer.{
  Prescaler, div1, div2, div4, div8, div16, div32, div64, div128, divisor, oneshot_ticks,
}

-- A one-shot interval of `us` microseconds, whose ticks fit into 32 bits, ends less than a tick
-- before its time: the 24 MHz clock makes 24 cycles in a microsecond.
oneshot_ticks-Within :
    (p : Prescaler) (us : ℕ)
    → us * 24 < u32_mod * divisor p
    → (oneshot_ticks p us * divisor p ≤ us * 24) × (us * 24 < (oneshot_ticks p us + 1) * divisor p)
unfolding oneshot_ticks divisor shl32
oneshot_ticks-Within div1 us fits = (omega arith, omega arith)
oneshot_ticks-Within div2 us fits = (omega arith, omega arith)
oneshot_ticks-Within div4 us fits = (omega arith, omega arith)
oneshot_ticks-Within div8 us fits = (omega arith, omega arith)
oneshot_ticks-Within div16 us fits = (omega arith, omega arith)
oneshot_ticks-Within div32 us fits = (omega arith, omega arith)
oneshot_ticks-Within div64 us fits = (omega arith, omega arith)
oneshot_ticks-Within div128 us fits = (omega arith, omega arith)
