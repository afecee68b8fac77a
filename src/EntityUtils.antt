-- ===== src/EntityUtils.antt =====
-- src/server/entity_utils.h: snapshots of the pool, and the motion of its entities.
pub mod Movement
use space_shooter_c.Prelude.{
  ℕ, ◌≡◌, refl, Bool, true, false, not, ◌&&◌, ◌||◌, Option, none, some, List, [], ◌∷◌,
  if◌then◌else◌, map,
}
use space_shooter_c.Scalar.{Scalars}
use space_shooter_c.Types.{EntityType, same_type}
use space_shooter_c.Entity.{Entity, Vector2D, TransformComponent, ShipComponent}
use space_shooter_c.EntityPool.{EntityPool, is_active}
use space_shooter_c.Snapshot.{EntitySnapshot, ShipSnapshot}
use space_shooter_c.Snapshot.Game.{until_nul}
use space_shooter_c.Math.{
  vec, vec_add, vec_mul, eps, clamp_to_world_bounds, wrap_circle_through_world_bounds,
}
use space_shooter_c.Math.Physics.{Motion, update_ship_physics, default_max_speed}

module _ (R : Scalars) where
  open R use {F, lit, sub, lt, fabs}

  unfoldable pub to_ship_snapshot : ShipComponent F → ShipSnapshot F
  to_ship_snapshot s = record {
    name = until_nul s.name;
    score = s.score;
    thrust_power = s.thrust_power;
    drag = s.drag;
    is_thrusting = s.is_thrusting;
    frags = s.frags;
  }

  unfoldable pub to_entity_snapshot : Entity F → EntitySnapshot F
  to_entity_snapshot e = record {
    id = e.id;
    type = e.type;
    mass = e.mass;
    radius = e.radius;
    is_destroyed = e.is_destroyed;
    transform = elim e.transform [
      | none ↦ none
      | some t ↦ some (record { position = t.position; velocity = t.velocity; angle = t.angle })
    ];
    ship = elim e.ship [ none ↦ none | some s ↦ some (to_ship_snapshot s) ];
    health = elim e.health [
      | none ↦ none
      | some h ↦ some (record { current = h.current; max = h.max })
    ];
    combat = elim e.combat [
      | none ↦ none
      | some c ↦ some (record { damage = c.damage; owner_id = c.owner_id })
    ];
    asteroid = elim e.asteroid [
      | none ↦ none
      | some a ↦ some (record { score_reward = a.score_reward })
    ];
  }

  -- The loop over the slots: the active ones, in order.
  unfoldable pub snapshots_of : List (Option (Entity F)) → List (EntitySnapshot F)
  snapshots_of [] = []
  snapshots_of (none ∷ slots) = snapshots_of slots
  snapshots_of (some e ∷ slots) =
      let rest = snapshots_of slots in
      if is_active R (some e) then to_entity_snapshot e ∷ rest else rest

  unfoldable pub build_entity_snapshots : EntityPool F → List (EntitySnapshot F)
  build_entity_snapshots pool = snapshots_of pool.storage

  unfoldable pub integrate : Entity F → TransformComponent F → F → TransformComponent F
  integrate e t dt =
      let coast : TransformComponent F = record t {
        position = vec_add R t.position (vec_mul R t.velocity dt);
      } in
      if same_type e.type EntityType.ship
      then (elim e.ship [
        | none ↦ coast
        | some s ↦
            let m =
              update_ship_physics R (record { position = t.position; velocity = t.velocity })
                t.angle s.is_thrusting s.thrust_power s.drag dt (default_max_speed R) in
            record t { position = m.position; velocity = m.velocity }
      ])
      else coast

  -- What becomes of an entity at the border: a bullet is destroyed, a ship stops on the axis.
  unfoldable pub confine : Entity F → TransformComponent F → Vector2D F → Entity F
  confine e t clamped =
      let clamped_x = lt (eps R) (fabs (sub clamped.x t.position.x)) in
      let clamped_y = lt (eps R) (fabs (sub clamped.y t.position.y)) in
      let stopped =
        vec R (if clamped_x then lit 0 1 else t.velocity.x)
          (if clamped_y then lit 0 1 else t.velocity.y) in
      if not clamped_x && not clamped_y then record e { transform = some t } else elim e.type [
        | EntityType.none ↦ record e { transform = some t }
        | EntityType.bullet ↦ record e { transform = some t; is_destroyed = true }
        | EntityType.ship ↦ record e {
          transform = some (record t { position = clamped; velocity = stopped });
        }
        | EntityType.asteroid ↦ record e { transform = some t }
      ]

  -- The body of the loop, for an engaged slot.
  unfoldable pub move_entity : F → F → F → Entity F → Entity F
  move_entity dt world_width world_height e = elim e.transform [
    | none ↦ e
    | some t0 ↦
        let t = integrate e t0 dt in
        if same_type e.type EntityType.none || e.is_destroyed
        then e
        else (if same_type e.type EntityType.asteroid
            then record e {
              transform = some (record t {
                position =
                    wrap_circle_through_world_bounds R t.position e.radius world_width world_height;
              });
            }
            else confine e t (clamp_to_world_bounds R t.position world_width world_height))
  ]

  unfoldable pub update_movement_and_bounds :
      List (Option (Entity F)) → F → F → F → List (Option (Entity F))
  update_movement_and_bounds [] dt world_width world_height = []
  update_movement_and_bounds (none ∷ slots) dt world_width world_height =
      none ∷ update_movement_and_bounds slots dt world_width world_height
  update_movement_and_bounds (some e ∷ slots) dt world_width world_height =
      some (move_entity dt world_width world_height e)
      ∷ update_movement_and_bounds slots dt world_width world_height
