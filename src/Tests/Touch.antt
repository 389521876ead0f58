-- ===== src/Tests/Touch.antt =====
-- A touch of the corner of a panel of 480 pixels, for src/touch.rs and src/cst8xx.rs.
use f1c100s_rs.Base.{ℕ, ◌*◌, ◌≤◌, ◌<◌, ◌≡◌, ◌↔◌, refl, if◌then◌else◌, ◌==◌, subst, arith}
use f1c100s_rs.Io.{ok}
use f1c100s_rs.Touch.{
  coord_transform, has_flag, x_reverse, y_reverse, TouchPoint, TouchEvent, TwiBus, new, read_points,
}
use f1c100s_rs.Touch.Range.{IsEdge, coord_transform-range}
use f1c100s_rs.Touch.Report.{Reports, displayed, read_points-displayed}

coord_transform-range_example :
    let (x', y') = coord_transform 0 7 480 320 2 in
    (x' ≤ 480)
    × ((x' ≡ 480) ↔ IsEdge (has_flag 2 x_reverse) 0)
    × (y' ≤ 320)
    × ((y' ≡ 320) ↔ IsEdge (has_flag 2 y_reverse) 7)
coord_transform-range_example =
    coord_transform-range 0 7 480 320 2 (omega arith) (omega arith) (omega arith) (omega arith)

-- The first pixel of a reversed axis is sent out of the panel.
coord_transform_runs : coord_transform 0 7 480 320 2 ≡ (480, 7)
unfolding coord_transform
coord_transform_runs = refl

-- One touch, of the point (300, 5).
abbrev touched : TouchPoint
touched = record { x = 300; y = 5; event = TouchEvent.move; id = 1 }

abbrev count_of : ℕ → ℕ
count_of i = 1

abbrev report : ℕ → ℕ
report i = if i == 0 then 129 else if i == 1 then 44 else if i == 2 then 16 else 5

abbrev one_touch : TwiBus (Unit {0})
one_touch = record {
  write_read = λ addr reg len s. ok (if reg == 2 then count_of else report) s;
  write = λ addr bytes s. ok tt s;
}

read_points-displayed_example :
    (points : ℕ → TouchPoint) × (read_points one_touch new tt ≡ ok (points, 1) tt)
    × ((i : ℕ) → i < 1 → points i ≡ displayed new touched)
read_points-displayed_example =
    read_points-displayed one_touch new (λ _. touched) count_of report tt tt tt refl (omega arith)
      refl
      λ i h.
        let e : 0 ≡ i = omega arith in
        (
          subst (λ k. Reports report (k * 6) touched) e
              (record { x_high = refl; x_low = refl; y_high = refl; y_low = refl }),
          omega arith,
          omega arith,
        )
