-- ===== src/Examples/Rules.antt =====
-- Collisions, growth and bounds at concrete entities.
use space_shooter_c.Prelude.{ℕ, ◌/◌, ◌≤◌, ◌<◌, ◌≡◌, refl, true, false, false, none, some, [], arith}
use space_shooter_c.Scalar.{std_min}
use space_shooter_c.Types.{EntityType}
use space_shooter_c.Entity.{
  ShipComponent, HealthComponent, Entity, is_valid, is_damageable, grow, growth_rounds,
}
use space_shooter_c.Collision.{on_collision_ship_ship}
use space_shooter_c.Collision.Ships.{CanCrash, after_collision, ship_ship_effect}
use space_shooter_c.Collision.Asteroids.{LeavesAfter, grow-fuel}
use space_shooter_c.AsteroidFactory.{weights_from, weight_rounds}
use space_shooter_c.AsteroidFactory.Weights.{DrawsBetween, CountsTens, weights_from-fuel}
use space_shooter_c.AsteroidFactory.Weights
use space_shooter_c.World.Collisions.{fits, can_grow}
use space_shooter_c.Examples.Samples.{whole}
use space_shooter_c.Examples.Worlds.{low_draw, at_rest}

abbrev captain : ShipComponent ℕ
captain = record {
  name = [];
  score = 100;
  thrust_power = 7;
  drag = 0;
  is_thrusting = true;
  frags = 0;
}

abbrev healthy : HealthComponent
healthy = record { current = 20; max = 100 }

abbrev battered : HealthComponent
battered = record { current = 4; max = 100 }

abbrev vessel : ℕ → HealthComponent → Entity ℕ
vessel id health = record {
  id = id;
  type = EntityType.ship;
  mass = 78;
  radius = 5;
  is_destroyed = false;
  transform = some at_rest;
  ship = some captain;
  health = some health;
  combat = none;
  asteroid = none;
}

vessel-CanCrash :
    (id : ℕ) (h : HealthComponent) → 0 < h.current → CanCrash whole (vessel id h) captain h
unfolding is_valid is_damageable
vessel-CanCrash id h alive = record {
  a_ship = refl;
  valid = refl;
  damageable = ground arith;
  has_ship = refl;
  has_health = refl;
}

ship_ship_effect_example : on_collision_ship_ship whole (vessel 1 healthy) (vessel 2 battered) ≡ (
  after_collision whole (vessel 1 healthy) captain healthy 7 true,
  after_collision whole (vessel 2 battered) captain battered 7 false,
)
ship_ship_effect_example =
    ship_ship_effect whole (vessel 1 healthy) (vessel 2 battered) captain captain healthy battered
      (vessel-CanCrash 1 healthy (omega arith)) (vessel-CanCrash 2 battered (omega arith))
      (omega arith, omega arith) (omega arith, omega arith) refl

-- Two doublings of a radius of 300 000 pass half of the largest number of `whole`.
abbrev giant : Entity ℕ
giant = record (vessel 1 healthy) { radius = 300_000; mass = 4_000_000_000_000 }

grow-fuel_example :
    (k : ℕ) × (k ≤ 1)
    × LeavesAfter whole
        (can_grow whole 2000 2000)
        k
        fits
        giant
        at_rest
        (grow whole growth_rounds (can_grow whole 2000 2000) fits giant at_rest)
grow-fuel_example =
    grow-fuel whole (can_grow whole 2000 2000) 1 growth_rounds fits giant at_rest refl (omega arith)

low_draw-DrawsBetween : DrawsBetween whole low_draw
low_draw-DrawsBetween = record {
  from_low = λ lo hi g h. ground arith;
  to_high = λ lo hi g h. ground (arith, h);
}

whole-CountsTens : CountsTens whole (λ r. r / 10)
unfolding std_min
whole-CountsTens = record {
  few = λ r h. ground (arith, h);
  least = λ r h. ground (arith, h);
  below = λ r d h k. ground (arith, h, k);
  falls = λ r d h k l m. ground (arith, h, k, l, m);
}

weights_from-fuel_example :
    (k : ℕ) × (k ≤ 50)
    × Weights.LeavesAfter whole low_draw k 50 0 (weights_from whole low_draw weight_rounds 50 0)
weights_from-fuel_example =
    weights_from-fuel whole low_draw (λ r. r / 10) low_draw-DrawsBetween whole-CountsTens 50 0 refl
