-- ===== src/Touch/Range.antt =====
-- Where src/touch.rs puts a point of the panel.
use f1c100s_rs.Base.{
  ℕ, ◌≤◌, ◌<◌, ◌≡◌, ◌↔◌, refl, Bool, true, false, if◌then◌else◌, Bool-cases, inl, inr, arith,
}
use f1c100s_rs.Touch.{coord_transform, has_flag, x_reverse, y_reverse, xy_exchange, sub16, u16_mod}

-- The coordinate is reversed, and was 0.
abbrev pub IsEdge : Bool → ℕ → Type 0
IsEdge reversed v = (reversed ≡ true) × (v ≡ 0)

axis :
    (reversed : Bool) (v range : ℕ)
    → v < range
    → range < u16_mod
    → let v' = if reversed then sub16 range v else v in
      (v' ≤ range) × ((v' ≡ range) ↔ IsEdge reversed v)
axis true v range inside small =
    (omega arith, ((λ e. (refl, omega arith)), (λ (_, z). omega arith)))
axis false v range inside small =
    (omega arith, ((λ e. absurd (omega arith)), (λ (b, _). absurd (cc))))

-- A point of the panel is sent to one with coordinates of at most the ranges, which are exchanged
-- with the axes. A coordinate is the range itself, one too far for the panel, exactly if its axis
-- is reversed and it comes from 0.
pub coord_transform-range :
    (x y range_x range_y flags : ℕ)
    → x < range_x
    → y < range_y
    → range_x < u16_mod
    → range_y < u16_mod
    → let (x', y') = coord_transform x y range_x range_y flags in
      let swaps = has_flag flags xy_exchange in
      let width = if swaps then range_y else range_x in
      let height = if swaps then range_x else range_y in
      (x' ≤ width)
      × ((x' ≡ width) ↔ IsEdge (has_flag flags x_reverse) (if swaps then y else x))
      × (y' ≤ height)
      × ((y' ≡ height) ↔ IsEdge (has_flag flags y_reverse) (if swaps then x else y))
unfolding coord_transform
coord_transform-range x y range_x range_y flags hx hy sx sy =
    let xr = has_flag flags x_reverse in
    let yr = has_flag flags y_reverse in
    elim (Bool-cases (has_flag flags xy_exchange)) [
      | inl swaps ↦
          let (a, b) = axis xr y range_y hy sy in
          let (c, d) = axis yr x range_x hx sx in rw swaps (a, b, c, d)
      | inr keeps ↦
          let (a, b) = axis xr x range_x hx sx in
          let (c, d) = axis yr y range_y hy sy in rw keeps (a, b, c, d)
    ]
