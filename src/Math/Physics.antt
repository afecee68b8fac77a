-- ===== src/Math/Physics.antt =====
-- Angles, the motion of a ship and the elastic impulse of src/common/math_utils.h.
use space_shooter_c.Prelude.{Bool, if◌then◌else◌}
use space_shooter_c.Scalar.{Scalars, std_clamp}
use space_shooter_c.Entity.{Vector2D}
use space_shooter_c.Math.{vec, vec_add, vec_sub, vec_mul, length_squared, eps}

module _ (R : Scalars) where
  open R use {
    F, lit, add, sub, mul, div, neg, lt, le, eq, pi, fabs, sqrt, cos, sin, remainder, copysign,
  }

  unfoldable pub normalize_angle : F → F
  normalize_angle angle_rad =
      let ans = remainder angle_rad (mul (lit 2 1) pi) in if eq ans (neg pi) then pi else ans

  unfoldable pub rotate_towards : F → F → F → F → F
  rotate_towards current_angle target_angle max_angular_velocity dt =
      let max_step = mul max_angular_velocity dt in
      let cur = normalize_angle current_angle in
      let tgt = normalize_angle target_angle in
      let delta = normalize_angle (sub tgt cur) in
      if le (fabs delta) (add max_step (eps R))
      then tgt
      else normalize_angle (add cur (copysign max_step delta))

  pub record Motion : Type 0 where
    pub position : Vector2D F
    pub velocity : Vector2D F

  -- The velocity after thrust, drag, the limit on the speed and the stop threshold.
  unfoldable pub thrust : Vector2D F → F → Bool → F → F → Vector2D F
  thrust velocity angle is_thrusting thrust_power dt =
      if is_thrusting
      then vec R (add velocity.x (mul (mul (cos angle) thrust_power) dt))
          (add velocity.y (mul (mul (sin angle) thrust_power) dt))
      else velocity

  unfoldable pub limit_speed : Vector2D F → F → Vector2D F
  limit_speed velocity max_speed =
      let speed_sqr = length_squared R velocity in
      if lt (mul max_speed max_speed) speed_sqr
      then vec_mul R velocity (div max_speed (sqrt speed_sqr))
      else velocity

  unfoldable pub stop_slow : Vector2D F → Vector2D F
  stop_slow velocity =
      if lt (length_squared R velocity) (lit 1 100) then vec R (lit 0 1) (lit 0 1) else velocity

  -- Parameters below zero are logged and used all the same.
  unfoldable pub update_ship_physics : Motion → F → Bool → F → F → F → F → Motion
  update_ship_physics m angle is_thrusting thrust_power drag dt max_speed =
      let drag_factor = std_clamp R (sub (lit 1 1) (mul drag dt)) (lit 0 1) (lit 1 1) in
      let pushed = thrust m.velocity angle is_thrusting thrust_power dt in
      let velocity = stop_slow (limit_speed (vec_mul R pushed drag_factor) max_speed) in
      record { position = vec_add R m.position (vec_mul R velocity dt); velocity = velocity }

  abbrev pub default_max_speed : F
  default_max_speed = lit 600 1

  unfoldable pub dot : Vector2D F → Vector2D F → F
  dot a b = add (mul a.x b.x) (mul a.y b.y)

  -- The two velocities after the impulse. Coincident positions and bodies that separate keep theirs.
  unfoldable pub resolve_elastic_impulse :
      Vector2D F → Vector2D F → F → Vector2D F → Vector2D F → F → Vector2D F × Vector2D F
  resolve_elastic_impulse pos1 vel1 mass1 pos2 vel2 mass2 =
      let delta = vec_sub R pos2 pos1 in
      let sqr_dist = add (mul delta.x delta.x) (mul delta.y delta.y) in
      let n = vec_mul R delta (div (lit 1 1) (sqrt sqr_dist)) in
      let vn = dot (vec_sub R vel2 vel1) n in
      let inv_m1 = div (lit 1 1) mass1 in
      let inv_m2 = div (lit 1 1) mass2 in
      let j = div (mul (neg (lit 2 1)) vn) (add inv_m1 inv_m2) in
      let impulse = vec_mul R n j in
      if lt sqr_dist (eps R)
      then (vel1, vel2)
      else (if le (lit 0 1) vn then (vel1, vel2) else (
        vec_sub R vel1 (vec_mul R impulse inv_m1),
        vec_add R vel2 (vec_mul R impulse inv_m2),
      ))
