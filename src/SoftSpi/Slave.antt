-- ===== src/SoftSpi/Slave.antt =====
-- The other end of the wires of src/soft_spi.rs: a slave that follows the four modes of the bus.
use f1c100s_rs.Base.{◌≡◌, Bool, true, false, List, [], ◌∷◌, ◌++◌, if◌then◌else◌}
use f1c100s_rs.Io.{ok}
use f1c100s_rs.SoftSpi.{SoftSpiConfig, Gpio, cpha, cpol}

-- The levels of the wires, the bits that the slave has heard, and those that it still has to give.
pub record Line : Type 0 where
  pub sck : Bool
  pub mosi : Bool
  pub miso : Bool
  pub heard : List Bool
  pub queue : List Bool

-- The slave takes the level of MOSI.
unfoldable pub takes : Line → Line
takes l = record l { heard = l.heard ++ (l.mosi ∷ []) }

abbrev shifted : List Bool → Line → Line
shifted [] l = record l { miso = true }
shifted (b ∷ bs) l = record l { miso = b; queue = bs }

-- The slave gives its next bit; a slave without one leaves MISO high.
unfoldable pub gives : Line → Line
gives l = shifted l.queue l

-- A level of the clock: on an edge away from the idle level, and on an edge back to it, the slave
-- takes and gives in the order of its phase.
unfoldable pub clocked : (phase idle level : Bool) → Line → Line
unfolding takes gives
clocked false true true l = if l.sck then l else gives (record l { sck = true })
clocked false true false l = if l.sck then takes (record l { sck = false }) else l
clocked false false true l = if l.sck then l else takes (record l { sck = true })
clocked false false false l = if l.sck then gives (record l { sck = false }) else l
clocked true true true l = if l.sck then l else takes (record l { sck = true })
clocked true true false l = if l.sck then gives (record l { sck = false }) else l
clocked true false true l = if l.sck then l else gives (record l { sck = true })
clocked true false false l = if l.sck then takes (record l { sck = false }) else l

-- A line at rest, with the bits that the master is to read next: with the phase 0 the first of them
-- is out already, and `old` is what MISO has otherwise.
unfoldable pub resting : (phase idle level old : Bool) → (heard bits : List Bool) → Line
resting true idle level old heard bits = record {
  sck = idle;
  mosi = level;
  miso = old;
  heard = heard;
  queue = bits;
}
resting false idle level old heard [] = record {
  sck = idle;
  mosi = level;
  miso = true;
  heard = heard;
  queue = [];
}
resting false idle level old heard (b ∷ bits) = record {
  sck = idle;
  mosi = level;
  miso = b;
  heard = heard;
  queue = bits;
}

-- The pins are wired to the slave: what the calls of a state `S` do is what the slave sees.
pub record IsWired {S : Type 0} (gpio : Gpio S) (cfg : SoftSpiConfig) (line : S → Line)
    : Type 0 where
  pub clocks :
      (level : Bool) (s : S)
      → (s' : S) × (gpio.set_value (cfg.sck) level s ≡ ok tt s')
        × (line s' ≡ clocked (cpha (cfg.mode)) (cpol (cfg.mode)) level (line s))
  pub drives :
      (level : Bool) (s : S)
      → (s' : S) × (gpio.set_value (cfg.mosi) level s ≡ ok tt s')
        × (line s' ≡ record (line s) { mosi = level })
  pub reads : (s : S) → gpio.get_value (cfg.miso) s ≡ ok ((line s).miso) s
