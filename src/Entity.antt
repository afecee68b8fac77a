-- ===== src/Entity.antt =====
-- The entity of src/server/entity.h: a record with optional components.
use space_shooter_c.Prelude.{
  ℕ, zero, suc, Bool, true, false, not, ◌&&◌, ◌||◌, Option, none, some, List, if◌then◌else◌, ltb,
  is_some,
}
use space_shooter_c.Scalar.{Scalars}
use space_shooter_c.Types.{EntityType, same_type}

pub record Vector2D (F : Type 0) : Type 0 where
  pub x : F
  pub y : F

pub record TransformComponent (F : Type 0) : Type 0 where
  pub position : Vector2D F
  pub velocity : Vector2D F
  pub angle : F

-- `name` is the array of 32 chars.
pub record ShipComponent (F : Type 0) : Type 0 where
  pub name : List ℕ
  pub score : ℕ
  pub thrust_power : F
  pub drag : F
  pub is_thrusting : Bool
  pub frags : ℕ

pub record HealthComponent : Type 0 where
  pub current : ℕ
  pub max : ℕ

pub record CombatComponent : Type 0 where
  pub damage : ℕ
  pub owner_id : ℕ

pub record AsteroidComponent : Type 0 where
  pub score_reward : ℕ

pub record Entity (F : Type 0) : Type 0 where
  pub id : ℕ
  pub type : EntityType
  pub mass : F
  pub radius : F
  pub is_destroyed : Bool
  pub transform : Option (TransformComponent F)
  pub ship : Option (ShipComponent F)
  pub health : Option HealthComponent
  pub combat : Option CombatComponent
  pub asteroid : Option AsteroidComponent

abbrev pub name_size : ℕ
name_size = 32

-- More rounds than a double can be doubled before the loop's bound.
abbrev pub growth_rounds : ℕ
growth_rounds = 2200

module _ (R : Scalars) where
  open R use {F, lit, add, mul, div, lt, le, is_finite, max_value, pi}

  -- A value-initialised entity: what `optional<Entity>::emplace()` puts into a slot.
  abbrev pub blank : Entity F
  blank = record {
    id = 0;
    type = EntityType.none;
    mass = lit 0 1;
    radius = lit 0 1;
    is_destroyed = false;
    transform = none;
    ship = none;
    health = none;
    combat = none;
    asteroid = none;
  }

  unfoldable pub mass_for_radius : F → F
  mass_for_radius r = mul (mul pi r) r

  -- A callback with the state that it captures; it may move the position that it is given.
  abbrev pub GrowthPredicate : Type 0 → Type 0
  GrowthPredicate S = S → Vector2D F → F → Bool × Vector2D F × S

  -- `while (radius <= max / 2)`, with fuel for the rounds; the transform is there all along.
  unfoldable pub grow :
      {S : Type 0} → ℕ → GrowthPredicate S → S → Entity F → TransformComponent F → Entity F × S
  grow zero can_grow s e t = (record e { transform = some t }, s)
  grow {S} (suc fuel) can_grow s e t =
      let stop : Entity F × S = (record e { transform = some t }, s) in
      let next_radius = mul e.radius (lit 2 1) in
      let target_mass = mass_for_radius next_radius in
      let answer = can_grow s t.position next_radius in
      let moved : TransformComponent F = record t { position = answer.1 } in
      let refused : Entity F × S = (record e { transform = some moved }, answer.2) in
      let again = grow fuel can_grow answer.2 (record e { radius = next_radius }) moved in
      if le e.radius (div max_value (lit 2 1))
      then (if not (is_finite target_mass) || lt e.mass target_mass
          then stop
          else (if answer.0 then again else refused))
      else stop

  -- `type != None && !isDestroyed && transform && finite(mass) && mass >= 0 && ...`.
  unfoldable pub is_valid : Entity F → Bool
  is_valid e =
      not (same_type e.type EntityType.none)
      && not e.is_destroyed
      && is_some e.transform
      && is_finite e.mass
      && le (lit 0 1) e.mass
      && is_finite e.radius
      && le (lit 0 1) e.radius

  unfoldable pub is_damageable : Entity F → Bool
  is_damageable e = elim e.health [ none ↦ false | some h ↦ ltb 0 h.current ]

  -- The entity after the call, whether mass was added, and the callback's state.
  unfoldable pub add_mass :
      {S : Type 0} → GrowthPredicate S → S → F → Entity F → Entity F × Bool × S
  add_mass can_grow s amount e =
      let new_mass = add e.mass amount in
      if not (same_type e.type EntityType.ship)
      then (e, false, s)
      else if not (is_finite amount) || lt amount (lit 0 1)
      then (e, false, s)
      else if not (is_finite e.mass)
          || lt e.mass (lit 0 1)
          || not (is_finite e.radius)
          || le e.radius (lit 0 1)
      then (e, false, s)
      else elim e.transform [
        | none ↦ (e, false, s)
        | some t ↦
            if not (is_finite new_mass)
            then (e, false, s)
            else (let r = grow growth_rounds can_grow s (record e { mass = new_mass }) t in
                (r.0, true, r.1))
      ]
