-- ===== src/Touch/Report.antt =====
-- The reports of a touch controller, and what src/cst8xx.rs reads from them.
use f1c100s_rs.Base.{
  ℕ, ◌+◌, ◌*◌, ◌/◌, ◌%◌, ◌<◌, ◌≡◌, ◌≢◌, refl, ap, ◌∙◌, false, ◌==◌, if◌then◌else◌, ne→==, arith,
  min, ltb, lt→ltb,
}
use f1c100s_rs.Bits.{bit_and, bit_or}
use f1c100s_rs.Mmio.Fields.{bit_and-ones, bit_or-add}
use f1c100s_rs.Io.{ok}
use f1c100s_rs.Touch.{
  TouchEvent, down, up, move, idle, TouchPoint, Cst8xx, TwiBus, coord_transform, from_cst8xx,
  decode, touch_count, read_reg, read_regs, read_points, cst_addr, default_point,
}

-- The code of an event in a report.
abbrev pub event_no : TouchEvent → ℕ
event_no down = 0
event_no up = 1
event_no move = 2
event_no idle = 3

-- The six bytes from `off` on report the point, in the coordinates of the controller.
pub record Reports (raw : ℕ → ℕ) (off : ℕ) (p : TouchPoint) : Type 0 where
  pub x_high : raw off ≡ event_no p.event * 64 + p.x / 256
  pub x_low : raw (off + 1) ≡ p.x % 256
  pub y_high : raw (off + 2) ≡ p.id * 16 + p.y / 256
  pub y_low : raw (off + 3) ≡ p.y % 256

-- The point in the coordinates of the display.
abbrev pub displayed : Cst8xx → TouchPoint → TouchPoint
displayed c p =
    let (x, y) = coord_transform p.x p.y c.range_x c.range_y c.transform_flags in
    record p { x = x; y = y }

from_cst8xx_lem : (e : TouchEvent) → from_cst8xx (event_no e) ≡ e
unfolding from_cst8xx
from_cst8xx_lem down = refl
from_cst8xx_lem up = refl
from_cst8xx_lem move = refl
from_cst8xx_lem idle = refl

-- The two bytes of a coordinate, with other bits above the first four.
coordinate :
    (other v : ℕ) → v < 4096 → bit_or (bit_and (other * 16 + v / 256) 0x0f * 256) (v % 256) ≡ v
coordinate other v small =
    let high : bit_and (other * 16 + v / 256) 0x0f ≡ v / 256 =
      bit_and-ones (other * 16 + v / 256) 4 ∙ omega arith in
    rw high (bit_or-add (v / 256) 8 (v % 256) (omega arith) ∙ omega arith)

pub decode_lem :
    (c : Cst8xx) (raw : ℕ → ℕ) (off : ℕ) (p : TouchPoint)
    → Reports raw off p
    → p.x < 4096
    → p.y < 4096
    → decode c raw off ≡ displayed c p
unfolding decode
decode_lem c raw off p r sx sy =
    let e = event_no p.event in
    let four : e * 64 + p.x / 256 ≡ e * 4 * 16 + p.x / 256 = omega arith in
    let ex : bit_or (bit_and (raw off) 0x0f * 256) (raw (off + 1)) ≡ p.x =
      (λ i. bit_or (bit_and (r.x_high i) 0x0f * 256) (r.x_low i))
      ∙ (λ i. bit_or (bit_and (four i) 0x0f * 256) (p.x % 256))
      ∙ coordinate (e * 4) p.x sx in
    let ey : bit_or (bit_and (raw (off + 2)) 0x0f * 256) (raw (off + 3)) ≡ p.y =
      (λ i. bit_or (bit_and (r.y_high i) 0x0f * 256) (r.y_low i)) ∙ coordinate p.id p.y sy in
    let code : raw off / 64 ≡ e = omega (arith, r.x_high) in
    let ev : from_cst8xx (raw off / 64) ≡ p.event = ap from_cst8xx code ∙ from_cst8xx_lem p.event in
    let number : raw (off + 2) / 16 ≡ p.id = omega (arith, r.y_high) in
    λ i. record {
      x = (coord_transform (ex i) (ey i) c.range_x c.range_y c.transform_flags).0;
      y = (coord_transform (ex i) (ey i) c.range_x c.range_y c.transform_flags).1;
      event = ev i;
      id = number i;
    }

module _ {S : Type 0} (bus : TwiBus S) where
  -- Where the controller counts touches, and its data registers report points with coordinates of
  -- 12 bits, `read_points` answers them in the coordinates of the display, up to five of them.
  pub read_points-displayed :
      (c : Cst8xx) (p : ℕ → TouchPoint) (counted raw : ℕ → ℕ) (s s1 s2 : S)
      → bus.write_read cst_addr 0x02 1 s ≡ ok counted s1
      → counted 0 ≢ 0
      → bus.write_read cst_addr 0x03 (min (counted 0) 5 * 6) s1 ≡ ok raw s2
      → ((i : ℕ)
          → i < min (counted 0) 5
          → Reports raw (i * 6) (p i) × ((p i).x < 4096) × ((p i).y < 4096))
      → (points : ℕ → TouchPoint) × (read_points bus c s ≡ ok (points, min (counted 0) 5) s2)
        × ((i : ℕ) → i < min (counted 0) 5 → points i ≡ displayed c (p i))
  unfolding read_points touch_count read_reg read_regs
  read_points-displayed c p counted raw s s1 s2 first touched second reports =
      let some_touch : (counted 0 == 0) ≡ false = ne→== (counted 0) 0 touched in
      (
        (λ i. if ltb i (min (counted 0) 5) then decode c raw (i * 6) else default_point),
        rw (first, some_touch, second) refl,
        λ i h.
            let (r, sx, sy) = reports i h in
            rw (lt→ltb i (min (counted 0) 5) h) (decode_lem c raw (i * 6) (p i) r sx sy),
      )
