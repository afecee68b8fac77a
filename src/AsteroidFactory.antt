-- ===== src/AsteroidFactory.antt =====
-- src/server/asteroid_factory.h and asteroid_factory.cpp. The generator of random numbers is a
-- parameter: its state, and the draw from a uniform distribution.
pub mod Weights
use space_shooter_c.Prelude.{
  ℕ, zero, suc, Bool, true, false, not, ◌&&◌, Option, none, some, List, [], ◌∷◌, if◌then◌else◌,
  length, foldl,
}
use space_shooter_c.Scalar.{Scalars, std_min}
use space_shooter_c.Types.{EntityType, same_type}
use space_shooter_c.Entity.{Entity, Vector2D, TransformComponent}
use space_shooter_c.EntityPool.{EntityPool, acquire, modify}
use space_shooter_c.Math.{vec}
use space_shooter_c.Math.Circles.{Circle}

-- `std::uniform_real_distribution<double>(lo, hi)(g_rng)`.
pub record Randomness (F G : Type 0) : Type 0 where
  pub draw : F → F → G → F × G

-- 50 asteroids of the least weight use up the largest budget; the rest is spare.
abbrev pub weight_rounds : ℕ
weight_rounds = 64

module _ (R : Scalars) where
  open R use {F, lit, add, sub, mul, lt, le, pi, sqrt, cos, sin, to_u16}

  abbrev pub min_asteroids_weight : F
  min_asteroids_weight = lit 500 1

  abbrev pub min_asteroid_weight : F
  min_asteroid_weight = lit 10 1

  abbrev pub max_asteroid_weight : F
  max_asteroid_weight = lit 80 1

  abbrev pub max_weight_for_radius : F
  max_weight_for_radius = lit 30 1

  abbrev pub max_radius_counter : F
  max_radius_counter = lit 30 1

  abbrev pub min_radius_counter : F
  min_radius_counter = lit 30 1

  -- The mass of the asteroids that are not destroyed.
  unfoldable pub add_weight : F → Option (Entity F) → F
  add_weight total none = total
  add_weight total (some e) =
      if not e.is_destroyed && same_type e.type EntityType.asteroid then add total e.mass else total

  unfoldable pub calculate_current_weight : EntityPool F → F
  calculate_current_weight pool = foldl add_weight (lit 0 1) pool.storage

  unfoldable pub radius_of_weight : F → F
  radius_of_weight weight =
      if lt weight max_weight_for_radius
      then mul weight max_radius_counter
      else mul weight min_radius_counter

  -- What `update` writes into an entity that it has acquired.
  unfoldable pub as_asteroid : F → Vector2D F → Entity F → Entity F
  as_asteroid weight position e = record e {
    type = EntityType.asteroid;
    mass = weight;
    radius = radius_of_weight weight;
    transform =
        some
          (record { position = position; velocity = vec R (lit 0 1) (lit 0 1); angle = lit 0 1 });
    health = some (record { current = 100; max = 100 });
    asteroid = some (record { score_reward = to_u16 weight });
  }

  -- The loop over the weights; there are as many positions.
  unfoldable pub create_asteroids : List F → List (Vector2D F) → EntityPool F → EntityPool F
  create_asteroids [] positions pool = pool
  create_asteroids (w ∷ ws) [] pool = pool
  create_asteroids (w ∷ ws) (p ∷ ps) pool =
      let (taken, idx) = acquire R pool in
      create_asteroids ws ps (modify R taken idx (as_asteroid w p))

  module _ {G : Type 0} (rng : Randomness F G) where
    -- `while (remaining >= MIN_ASTEROID_WEIGHT)`, with fuel.
    unfoldable pub weights_from : ℕ → F → G → List F × G
    weights_from zero remaining g = ([], g)
    weights_from (suc fuel) remaining g =
        let drawn = rng.draw min_asteroid_weight (std_min R max_asteroid_weight remaining) g in
        let rest = weights_from fuel (sub remaining drawn.0) drawn.1 in
        let more : List F × G = (drawn.0 ∷ rest.0, rest.1) in
        if le min_asteroid_weight remaining then more else ([], g)

    unfoldable pub generate_asteroid_weight : F → G → List F × G
    generate_asteroid_weight current_weight g =
        let budget_left = sub min_asteroids_weight current_weight in
        let first = rng.draw min_asteroid_weight budget_left g in
        if le min_asteroids_weight current_weight
        then ([], g)
        else (if lt budget_left min_asteroid_weight
            then ([], g)
            else weights_from weight_rounds first.0 first.1)

    -- `count` rounds of the loop of `generatePositions`.
    unfoldable pub positions_from : ℕ → Circle F → G → List (Vector2D F) × G
    positions_from zero area g = ([], g)
    positions_from (suc count) area g =
        let (turn, g1) = rng.draw (lit 0 1) (lit 1 1) g in
        let (spread, g2) = rng.draw (lit 0 1) (lit 1 1) g1 in
        let angle = mul (mul (lit 2 1) pi) turn in
        let r = mul area.radius (sqrt spread) in
        let rest = positions_from count area g2 in
        (
          vec R (add area.center.x (mul r (cos angle))) (add area.center.y (mul r (sin angle)))
              ∷ rest.0,
          rest.1,
        )

    unfoldable pub generate_positions : ℕ → Circle F → G → List (Vector2D F) × G
    generate_positions zero area g = ([], g)
    generate_positions (suc count) area g =
        if le area.radius (lit 0 1) then ([], g) else positions_from (suc count) area g

    unfoldable pub update : EntityPool F → Circle F → G → EntityPool F × G
    update pool free_coordinates g =
        let current_weight = calculate_current_weight pool in
        let weights = generate_asteroid_weight current_weight g in
        let positions = generate_positions (length weights.0) free_coordinates weights.1 in
        if le min_asteroids_weight current_weight
        then (pool, g)
        else (create_asteroids weights.0 positions.0 pool, positions.1)
