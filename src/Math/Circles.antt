-- ===== src/Math/Circles.antt =====
-- Circles that collide, and the largest empty circle: src/common/math_utils.h.
use space_shooter_c.Prelude.{
  Bool, not, ◌&&◌, ◌||◌, List, [], ◌∷◌, Result, ok, err, if◌then◌else◌, foldl,
}
use space_shooter_c.Scalar.{Scalars, std_min, std_max}
use space_shooter_c.Entity.{Vector2D}
use space_shooter_c.Math.{vec, vec_add, vec_sub, vec_mul, length_squared, eps}

pub data InvalidRadius : Type 0 where
  radius1_negative radius2_negative : InvalidRadius

pub record Circle (F : Type 0) : Type 0 where
  pub center : Vector2D F
  pub radius : F

module _ (R : Scalars) where
  open R use {F, lit, add, sub, mul, div, neg, lt, le, fabs, sqrt}

  unfoldable pub check_circle_collision :
      Vector2D F → F → Vector2D F → F → Result InvalidRadius Bool
  check_circle_collision pos1 radius1 pos2 radius2 =
      let delta = vec_sub R pos1 pos2 in
      let radius_sum = add radius1 radius2 in
      if not (le (lit 0 1) radius1)
      then err radius1_negative
      else (if not (le (lit 0 1) radius2)
          then err radius2_negative
          else ok (le (length_squared R delta) (mul radius_sum radius_sum)))

  abbrev pub Occupied : Type 0
  Occupied = Vector2D F × F

  -- The radius of the largest free circle around a center: one round for each occupied circle.
  unfoldable pub shrink : Vector2D F → F → Occupied → F
  shrink center r (pos, rad) =
      let sqr_d = length_squared R (vec_sub R center pos) in
      let r_plus_rad = add r rad in
      let d = sub (sqrt sqr_d) rad in
      if lt sqr_d (mul r_plus_rad r_plus_rad) then (if lt d r then d else r) else r

  unfoldable pub max_radius_at : List Occupied → F → F → Vector2D F → F
  max_radius_at occupied half_w half_h center =
      std_max R
        (foldl (shrink center) (std_min R (sub half_w (fabs center.x)) (sub half_h (fabs center.y)))
          occupied)
        (lit 0 1)

  unfoldable pub consider : List Occupied → F → F → Circle F → Vector2D F → Circle F
  consider occupied half_w half_h best center =
      let r = max_radius_at occupied half_w half_h center in
      if lt (add best.radius (eps R)) r
        || (le (fabs (sub r best.radius)) (eps R)
            && lt (length_squared R center) (length_squared R best.center))
      then record { center = center; radius = r }
      else best

  -- The candidates for a pair of circles: the inner vertex if it lies between the centers, and the
  -- two outer ones.
  unfoldable pub pair_candidates : Occupied → Occupied → List (Vector2D F)
  pair_candidates (pa, ra) (pb, rb) =
      let delta = vec_sub R pb pa in
      let dist = sqrt (length_squared R delta) in
      let dir = vec_mul R delta (div (lit 1 1) dist) in
      let t = mul (sub (add dist ra) rb) (lit 1 2) in
      let outer = vec_sub R pa (vec_mul R dir ra) ∷ vec_add R pb (vec_mul R dir rb) ∷ [] in
      if lt dist (eps R)
      then []
      else (if le (lit 0 1) t && le t dist then vec_add R pa (vec_mul R dir t) ∷ outer else outer)

  -- The four candidates between a circle and the borders.
  unfoldable pub border_candidates : F → F → Occupied → List (Vector2D F)
  border_candidates half_w half_h (pa, ra) =
      vec R (add pa.x (mul (add (sub half_w pa.x) ra) (lit 1 2))) pa.y
      ∷ vec R (sub pa.x (mul (add (add half_w pa.x) ra) (lit 1 2))) pa.y
      ∷ vec R pa.x (add pa.y (mul (add (sub half_h pa.y) ra) (lit 1 2)))
      ∷ vec R pa.x (sub pa.y (mul (add (add half_h pa.y) ra) (lit 1 2)))
      ∷ []

  -- The inner loop over `j`, and the outer loop over `i`; `all` is the whole vector.
  unfoldable pub try_pairs : List Occupied → F → F → Occupied → List Occupied → Circle F → Circle F
  try_pairs all half_w half_h a [] best = best
  try_pairs all half_w half_h a (b ∷ rest) best =
      try_pairs all half_w half_h a rest
        (foldl (consider all half_w half_h) best (pair_candidates a b))

  unfoldable pub try_circles : List Occupied → F → F → List Occupied → Circle F → Circle F
  try_circles all half_w half_h [] best = best
  try_circles all half_w half_h (a ∷ rest) best = try_circles all half_w half_h rest (
      foldl (consider all half_w half_h) (try_pairs all half_w half_h a rest best)
        (border_candidates half_w half_h a))

  -- 1e-6.
  abbrev pub free_circle_margin : F
  free_circle_margin = lit 1 1_000_000

  unfoldable pub largest_empty_circle : List Occupied → F → F → Circle F
  largest_empty_circle [] world_width world_height = record {
    center = vec R (lit 0 1) (lit 0 1);
    radius = std_min R (mul world_width (lit 1 2)) (mul world_height (lit 1 2));
  }
  largest_empty_circle (a ∷ rest) world_width world_height =
      let half_w = mul world_width (lit 1 2) in
      let half_h = mul world_height (lit 1 2) in
      let origin = vec R (lit 0 1) (lit 0 1) in
      let tried =
        try_circles (a ∷ rest) half_w half_h (a ∷ rest)
          (record { center = origin; radius = neg (lit 1 1) }) in
      let best = consider (a ∷ rest) half_w half_h tried origin in
      let kept : Circle F =
        if lt best.radius (lit 0 1) then record { center = origin; radius = lit 0 1 } else best in
      record {
        center = kept.center;
        radius = std_max R (lit 0 1) (sub kept.radius free_circle_margin);
      }
