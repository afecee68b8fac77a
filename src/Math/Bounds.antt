-- ===== src/Math/Bounds.antt =====
-- The clamp to the world of src/common/math_utils.h.
use space_shooter_c.Prelude.{◌≡◌, false, arith}
use space_shooter_c.Scalar.{Scalars, std_clamp}
use space_shooter_c.Entity.{Vector2D}
use space_shooter_c.Math.{eps, clamp_to_world_bounds}

module _ (R : Scalars) where
  open R use {F, lit, sub, mul, neg, lt}

  -- Inside the bounds on one axis, and no change by a second clamp.
  abbrev pub Within : F → F → Type 0
  Within x half = (lt x (neg half) ≡ false) × (lt half x ≡ false)

  clamp-Within :
      (x half : F)
      → lt (neg half) (neg half) ≡ false
      → lt half half ≡ false
      → lt half (neg half) ≡ false
      → Within (std_clamp R x (neg half) half) half
  unfolding std_clamp
  clamp-Within x half a b c = ground arith

  clamp_again : (x half : F) → Within x half → std_clamp R x (neg half) half ≡ x
  unfolding std_clamp
  clamp_again x half w = ground arith

  -- A clamped position lies in the world on both axes, and clamping it again changes nothing; for
  -- worlds whose half sizes are numbers (each bound is not below itself, and the upper bound is
  -- not below the lower).
  pub clamp_to_world_bounds_lem :
      (position : Vector2D F) (width height : F)
      → ((x : F) → lt x x ≡ false)
      → lt (sub (mul width (lit 1 2)) (eps R)) (neg (sub (mul width (lit 1 2)) (eps R))) ≡ false
      → lt (sub (mul height (lit 1 2)) (eps R)) (neg (sub (mul height (lit 1 2)) (eps R))) ≡ false
      → let p = clamp_to_world_bounds R position width height in
        Within p.x (sub (mul width (lit 1 2)) (eps R))
        × Within p.y (sub (mul height (lit 1 2)) (eps R))
        × (clamp_to_world_bounds R p width height ≡ p)
  unfolding clamp_to_world_bounds
  clamp_to_world_bounds_lem position width height irr w h =
      let hw = sub (mul width (lit 1 2)) (eps R) in
      let hh = sub (mul height (lit 1 2)) (eps R) in
      let a = clamp-Within position.x hw (irr (neg hw)) (irr hw) w in
      let b = clamp-Within position.y hh (irr (neg hh)) (irr hh) h in
      (a, b, rw (clamp_again _ hw a, clamp_again _ hh b))
