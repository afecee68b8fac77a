-- ===== src/World/Actions.antt =====
-- `processInputQueue` of src/server/world_instance.cpp.
pub mod Effects
use space_shooter_c.Prelude.{
  ℕ, Bool, true, false, ◌||◌, Option, none, some, List, [], ◌∷◌, ◌++◌, if◌then◌else◌, ◌==◌,
  find_key, remove_key, foldl,
}
use space_shooter_c.Scalar.{Scalars}
use space_shooter_c.Types.{EntityType}
use space_shooter_c.Entity.{Entity, Vector2D, TransformComponent}
use space_shooter_c.EntityPool.{EntityPool, acquire, modify, locate}
use space_shooter_c.Math.{vec, vec_add, vec_mul}
use space_shooter_c.World.{
  World, ActionEvent, ActionType, unknown, join, quit, move_and_shoot, respawn, PendingJoin,
}

-- The world and the players that join in this tick.
abbrev pub Input : Type 0 → Type 0
Input F = World F × List PendingJoin

abbrev pub is_pending : ℕ → List PendingJoin → Bool
is_pending session [] = false
is_pending session (p ∷ ps) = p.session_id == session || is_pending session ps

module _ (R : Scalars) where
  open R use {F, lit, mul, cos, sin}

  abbrev pub bullet_radius : F
  bullet_radius = lit 2 1

  abbrev pub bullet_speed : F
  bullet_speed = lit 500 1

  abbrev pub destroy : Entity F → Entity F
  destroy e = record e { is_destroyed = true }

  -- What a shot writes into the entity that it has acquired.
  unfoldable pub as_bullet : Entity F → TransformComponent F → ℕ → Entity F → Entity F
  as_bullet ship t ship_id e =
      let direction = vec R (cos t.angle) (sin t.angle) in
      record e {
        type = EntityType.bullet;
        radius = bullet_radius;
        transform = some (record {
          position = vec_add R t.position (vec_mul R direction ship.radius);
          velocity = vec_mul R direction bullet_speed;
          angle = lit 0 1;
        });
        combat = some (record { damage = 25; owner_id = ship_id });
      }

  unfoldable pub shoot : Entity F → TransformComponent F → ℕ → EntityPool F → EntityPool F
  shoot ship t ship_id pool =
      let (taken, idx) = acquire R pool in modify R taken idx (as_bullet ship t ship_id)

  -- A ship with a transform turns to the action's angle, and fires if the action says so.
  unfoldable pub steer : ActionEvent F → ℕ → EntityPool F → EntityPool F
  steer action ship_id pool = elim (locate R pool ship_id) [
    | none ↦ pool
    | some (idx, ship) ↦ elim ship.transform [
      | none ↦ pool
      | some t ↦
          let turned : TransformComponent F = record t { angle = action.angle } in
          let faced = modify R pool idx (λ e. record e { transform = some turned }) in
          if action.is_shooting then shoot ship turned ship_id faced else faced
    ]
  ]

  -- The ship of a player who left is destroyed; there is no event.
  unfoldable pub abandon : ℕ → EntityPool F → EntityPool F
  abandon ship_id pool = elim (locate R pool ship_id) [
    | none ↦ pool
    | some (idx, ship) ↦ modify R pool idx destroy
  ]

  unfoldable pub quit_session : ℕ → World F → World F
  quit_session session w = elim (find_key session w.session_to_ship) [
    | none ↦ w
    | some ship_id ↦ record w {
      entities = abandon ship_id w.entities;
      session_to_ship = remove_key session w.session_to_ship;
    }
  ]

  unfoldable pub steer_session : ActionEvent F → World F → World F
  steer_session action w = elim (find_key action.session_id w.session_to_ship) [
    | none ↦ w
    | some ship_id ↦ record w { entities = steer action ship_id w.entities }
  ]

  -- The body of the loop.
  unfoldable pub process_action : Input F → ActionEvent F → Input F
  process_action (w, joins) action = elim action.type [
    | ActionType.join ↦ if is_pending action.session_id joins then (w, joins) else (
      w,
      joins ++ record { session_id = action.session_id; player_name = action.player_name } ∷ [],
    )
    | ActionType.quit ↦ (quit_session action.session_id w, joins)
    | ActionType.move_and_shoot ↦ (steer_session action w, joins)
    | ActionType.respawn ↦ (w, joins)
    | ActionType.unknown ↦ (w, joins)
  ]

  unfoldable pub process_input_queue : World F → Input F
  process_input_queue w = foldl process_action (record w { action_queue = [] }, []) w.action_queue
