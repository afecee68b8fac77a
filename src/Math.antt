-- ===== src/Math.antt =====
-- Vectors and the bounds of the world: src/common/math_utils.h and vector2d.cpp.
pub mod Physics
pub mod Circles
pub mod Bounds
use space_shooter_c.Prelude.{
  ℕ, Bool, true, false, not, ◌&&◌, ◌||◌, Option, none, some, if◌then◌else◌,
}
use space_shooter_c.Scalar.{Scalars, std_min, std_max, std_clamp}
use space_shooter_c.Entity.{Vector2D}

module _ (R : Scalars) where
  open R use {F, lit, add, sub, mul, div, neg, lt, le, is_finite, fabs, sqrt}

  abbrev pub vec : F → F → Vector2D F
  vec x y = record { x = x; y = y }

  -- `operator+`, `operator-` and `operator*` by `+=`, `-=` and `*=`.
  unfoldable pub vec_add : Vector2D F → Vector2D F → Vector2D F
  vec_add a b = vec (add a.x b.x) (add a.y b.y)

  unfoldable pub vec_sub : Vector2D F → Vector2D F → Vector2D F
  vec_sub a b = vec (sub a.x b.x) (sub a.y b.y)

  unfoldable pub vec_mul : Vector2D F → F → Vector2D F
  vec_mul a s = vec (mul a.x s) (mul a.y s)

  unfoldable pub length_squared : Vector2D F → F
  length_squared a = add (mul a.x a.x) (mul a.y a.y)

  -- 1e-12.
  abbrev pub eps : F
  eps = lit 1 1_000_000_000_000

  unfoldable pub clamp_to_world_bounds : Vector2D F → F → F → Vector2D F
  clamp_to_world_bounds position world_width world_height =
      let half_w = sub (mul world_width (lit 1 2)) eps in
      let half_h = sub (mul world_height (lit 1 2)) eps in
      vec (std_clamp R position.x (neg half_w) half_w) (std_clamp R position.y (neg half_h) half_h)

  -- One axis of `wrapCircleThroughWorldBounds`.
  unfoldable pub wrap_axis : F → F → F → F
  wrap_axis x radius half =
      if lt (add x radius) (neg half)
      then add half radius
      else (if lt half (sub x radius) then sub (neg half) radius else x)

  unfoldable pub wrap_circle_through_world_bounds : Vector2D F → F → F → F → Vector2D F
  unfolding wrap_axis
  wrap_circle_through_world_bounds position radius world_width world_height =
      vec (wrap_axis position.x radius (mul world_width (lit 1 2)))
        (wrap_axis position.y radius (mul world_height (lit 1 2)))

  -- Whether the circle touches both opposite borders; false at invalid input.
  unfoldable pub circle_intersects_opposite_world_bounds : Vector2D F → F → F → F → Bool
  circle_intersects_opposite_world_bounds position radius world_width world_height =
      let half_width = mul world_width (lit 1 2) in
      let half_height = mul world_height (lit 1 2) in
      let nearest_y = std_clamp R position.y (neg half_height) half_height in
      let nearest_x = std_clamp R position.x (neg half_width) half_width in
      let radius_squared = mul radius radius in
      let touches = λ (p : Vector2D F). le (length_squared (vec_sub position p)) radius_squared in
      if not (is_finite position.x)
        || not (is_finite position.y)
        || not (is_finite radius)
        || lt radius (lit 0 1)
      then false
      else if not (is_finite world_width)
          || not (is_finite world_height)
          || le world_width (lit 0 1)
          || le world_height (lit 0 1)
      then false
      else touches (vec (neg half_width) nearest_y) && touches (vec half_width nearest_y)
        || touches (vec nearest_x (neg half_height)) && touches (vec nearest_x half_height)
