-- ===== src/Collision.antt =====
-- src/server/collision_utils.h: what a collision does to the two entities that it is about.
pub mod Ships
pub mod Asteroids
pub mod Bullets
use space_shooter_c.Prelude.{
  ℕ, ◌+◌, Bool, true, false, not, ◌&&◌, ◌||◌, Option, none, some, if◌then◌else◌, ltb, ◌==◌, is_some,
}
use space_shooter_c.Scalar.{Scalars}
use space_shooter_c.Types.{EntityType, same_type}
use space_shooter_c.Entity.{
  Entity, Vector2D, ShipComponent, HealthComponent, CombatComponent, GrowthPredicate, is_valid,
  is_damageable, add_mass,
}
use space_shooter_c.Score.{add_score, subtract_score}
use space_shooter_c.Health.{apply_damage, is_alive}

abbrev pub is_type : {F : Type 0} → EntityType → Entity F → Bool
is_type t e = same_type e.type t

-- What the callback is called with: the bullet's owner, and whether the ship was destroyed.
pub record Hit : Type 0 where
  pub owner : ℕ
  pub ship_destroyed : Bool

pub record BulletOutcome (F : Type 0) : Type 0 where
  pub bullet : Entity F
  pub ship : Entity F
  pub hit : Option Hit

module _ (R : Scalars) where
  open R use {F, lit, div, lt, le}

  -- `detail::applyPercentageDamage` and `detail::repelAsteroid` have empty bodies.
  unfoldable pub apply_percentage_damage : Entity F → ℕ → Entity F
  apply_percentage_damage e percent = e

  unfoldable pub repel_asteroid : Entity F → Entity F → Entity F × Entity F
  repel_asteroid ship asteroid = (ship, asteroid)

  -- What a handler leaves of the ship, the asteroid and the state of the growth predicate.
  abbrev pub AsteroidOutcome : Type 0 → Type 0
  AsteroidOutcome S = Entity F × Entity F × S

  -- The part of the handler that runs when the ship eats the asteroid.
  unfoldable pub absorb :
      {S : Type 0} → GrowthPredicate R S → S → Entity F → Entity F → AsteroidOutcome S
  absorb can_grow s ship asteroid =
      let (grown, added, s') = add_mass R can_grow s asteroid.mass ship in
      if added
      then (
        elim asteroid.asteroid [
          | none ↦ grown
          | some a ↦ record grown {
            ship = elim grown.ship [ none ↦ none | some c ↦ some (add_score c a.score_reward) ];
          }
        ],
        record asteroid { is_destroyed = true },
        s',
      )
      else (grown, asteroid, s')

  -- The handler after the swap of its arguments: the ship first.
  unfoldable pub ship_asteroid :
      {S : Type 0} → GrowthPredicate R S → S → Entity F → Entity F → AsteroidOutcome S
  ship_asteroid can_grow s ship asteroid =
      let mass_ratio = div asteroid.mass ship.mass in
      if not (is_type EntityType.ship ship) || not (is_type EntityType.asteroid asteroid)
      then (ship, asteroid, s)
      else if not (is_valid R ship) || not (is_valid R asteroid)
      then (ship, asteroid, s)
      else if not (is_damageable R ship) || not (is_damageable R asteroid)
      then (ship, asteroid, s)
      else if le ship.mass (lit 0 1) || le asteroid.mass (lit 0 1)
      then (ship, asteroid, s)
      else if le mass_ratio (lit 2 10)
      then (let (a, b) = repel_asteroid ship asteroid in (a, b, s))
      else if lt mass_ratio (lit 5 10)
      then absorb can_grow s ship asteroid
      else if le mass_ratio (lit 1 1)
      then (apply_percentage_damage ship 25, apply_percentage_damage asteroid 25, s)
      else (apply_percentage_damage ship 50, asteroid, s)

  unfoldable pub on_collision_ship_asteroid :
      {S : Type 0} → GrowthPredicate R S → S → Entity F → Entity F → AsteroidOutcome S
  on_collision_ship_asteroid can_grow s ship asteroid =
      if is_type EntityType.asteroid ship && is_type EntityType.ship asteroid
      then (let (a, b, s') = ship_asteroid can_grow s asteroid ship in (b, a, s'))
      else ship_asteroid can_grow s ship asteroid

  -- 7 each at equal masses; the lighter ship takes 10 and the heavier one 5.
  unfoldable pub collision_damage : F → F → ℕ × ℕ
  collision_damage mass1 mass2 =
      if lt mass1 mass2 then (10, 5) else if lt mass2 mass1 then (5, 10) else (7, 7)

  -- A survivor's reward: 30 points, and a frag up to the 16-bit maximum.
  unfoldable pub reward_survivor : ShipComponent F → ShipComponent F
  reward_survivor s =
      let paid = add_score s 30 in
      record paid { frags = if ltb s.frags 0xFFFF then s.frags + 1 else s.frags }

  -- One ship after its penalty and its damage.
  unfoldable pub crashed : Entity F → ShipComponent F → HealthComponent → ℕ → Entity F
  crashed e s h damage =
      let hurt = apply_damage h damage in
      record e {
        ship = some (subtract_score s 5);
        health = some hurt;
        is_destroyed = e.is_destroyed || not (is_alive hurt);
      }

  unfoldable pub rewarded : Entity F → Entity F
  rewarded e = record e { ship = elim e.ship [ none ↦ none | some s ↦ some (reward_survivor s) ] }

  -- The two ships with all that the guards ask for.
  unfoldable pub crash :
      Entity F
      → Entity F
      → ShipComponent F
      → ShipComponent F
      → HealthComponent
      → HealthComponent
      → Entity F × Entity F
  unfolding crashed rewarded
  crash ship1 ship2 s1 s2 h1 h2 =
      let (damage1, damage2) = collision_damage ship1.mass ship2.mass in
      let a = crashed ship1 s1 h1 damage1 in
      let b = crashed ship2 s2 h2 damage2 in
      if a.is_destroyed && not b.is_destroyed
      then (a, rewarded b)
      else if b.is_destroyed && not a.is_destroyed
      then (rewarded a, b)
      else (a, b)

  unfoldable pub on_collision_ship_ship : Entity F → Entity F → Entity F × Entity F
  on_collision_ship_ship ship1 ship2 =
      if not (is_type EntityType.ship ship1) || not (is_type EntityType.ship ship2)
      then (ship1, ship2)
      else if not (is_valid R ship1) || not (is_valid R ship2)
      then (ship1, ship2)
      else if not (is_damageable R ship1) || not (is_damageable R ship2)
      then (ship1, ship2)
      else elim ship1.ship [
        | none ↦ (ship1, ship2)
        | some s1 ↦ elim ship2.ship [
          | none ↦ (ship1, ship2)
          | some s2 ↦ elim ship1.health [
            | none ↦ (ship1, ship2)
            | some h1 ↦ elim ship2.health [
              | none ↦ (ship1, ship2)
              | some h2 ↦ crash ship1 ship2 s1 s2 h1 h2
            ]
          ]
        ]
      ]

  abbrev pub bullet_damage : ℕ
  bullet_damage = 25

  unfoldable pub ignored : Entity F → Entity F → BulletOutcome F
  ignored bullet ship = record { bullet = bullet; ship = ship; hit = none }

  unfoldable pub strike : Entity F → Entity F → CombatComponent → HealthComponent → BulletOutcome F
  strike bullet ship c h =
      let hurt = apply_damage h bullet_damage in
      if c.owner_id == ship.id then ignored bullet ship else record {
        bullet = record bullet { is_destroyed = true };
        ship = record ship {
          health = some hurt;
          is_destroyed = ship.is_destroyed || not (is_alive hurt);
        };
        hit = some (record { owner = c.owner_id; ship_destroyed = not (is_alive hurt) });
      }

  -- The handler after the swap of its arguments: the bullet first.
  unfoldable pub bullet_ship : Entity F → Entity F → BulletOutcome F
  bullet_ship bullet ship =
      if not (is_type EntityType.bullet bullet) || not (is_type EntityType.ship ship)
      then ignored bullet ship
      else if not (is_valid R bullet) || not (is_valid R ship)
      then ignored bullet ship
      else elim bullet.combat [
        | none ↦ ignored bullet ship
        | some c ↦ elim ship.health [
          | none ↦ ignored bullet ship
          | some h ↦
              if not (is_some ship.ship) || not (is_damageable R ship)
              then ignored bullet ship
              else strike bullet ship c h
        ]
      ]

  unfoldable pub on_collision_bullet_ship : Entity F → Entity F → BulletOutcome F
  on_collision_bullet_ship bullet ship =
      if is_type EntityType.ship bullet && is_type EntityType.bullet ship
      then (let r = bullet_ship ship bullet in
          record { bullet = r.ship; ship = r.bullet; hit = r.hit })
      else bullet_ship bullet ship
