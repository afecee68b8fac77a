-- ===== src/World/Actions/Effects.antt =====
-- What a player's action does to the slots of the pool: `processInputQueue` of src/server/
-- world_instance.cpp.
use space_shooter_c.Prelude.{
  ℕ, ◌≡◌, ◌≢◌, [], refl, ◌∙◌, ap, true, false, Option, none, some, List, arith, if◌then◌else◌, ◌==◌,
  get_elem?, length, find_key,
}
use space_shooter_c.Scalar.{Scalars}
use space_shooter_c.Types.{EntityType}
use space_shooter_c.Entity.{Entity, TransformComponent}
use space_shooter_c.EntityPool.{EntityPool, acquire, modify_slot, locate, fresh}
use space_shooter_c.EntityPool.Invariant.{IsSound}
use space_shooter_c.EntityPool.Lookup.{acquire-stored}
use space_shooter_c.EntityPool.Writes.{
  modify_slot-IsSound, get_elem?-modify_slot, length-modify_slot, locate-get,
}
use space_shooter_c.Math.{vec_add, vec_mul}
use space_shooter_c.World.{
  World, ActionEvent, shot_action, receive, on_shot_received, enqueue_action,
}
use space_shooter_c.Events.{shot_message}
use space_shooter_c.World.Actions.{
  as_bullet, shoot, steer, steer_session, process_action, process_input_queue,
}

module _ (R : Scalars) where
  open R use {F, lit, add, mul, cos, sin}

  abbrev pub facing : F → Entity F → TransformComponent F → Entity F
  facing angle ship t = record ship { transform = some (record t { angle = angle }) }

  -- The bullet as the rules describe it: it starts on the rim of the ship, in the direction of the
  -- angle, at speed 500, and belongs to the ship.
  abbrev pub fired : F → Entity F → TransformComponent F → ℕ → ℕ → Entity F
  fired angle ship t owner i = record {
    id = i;
    type = EntityType.bullet;
    mass = lit 0 1;
    radius = lit 2 1;
    is_destroyed = false;
    transform = some (record {
      position = record {
        x = add t.position.x (mul (cos angle) ship.radius);
        y = add t.position.y (mul (sin angle) ship.radius);
      };
      velocity = record { x = mul (cos angle) (lit 500 1); y = mul (sin angle) (lit 500 1) };
      angle = lit 0 1;
    });
    ship = none;
    health = none;
    combat = some (record { damage = 25; owner_id = owner });
    asteroid = none;
  }

  as_bullet-fresh :
      (angle : F) (ship : Entity F) (t : TransformComponent F) (owner i : ℕ)
      → as_bullet R ship (record t { angle = angle }) owner (fresh R i) ≡ fired angle ship t owner i
  unfolding as_bullet vec_add vec_mul
  as_bullet-fresh angle ship t owner i = refl

  acquire-same_slot :
      (p : EntityPool F) (ss : List (Option (Entity F)))
      → length ss ≡ length p.storage
      → (acquire R (record p { storage = ss })).1 ≡ (acquire R p).1
  unfolding acquire
  acquire-same_slot p ss h = ground arith

  shoot-slots :
      (id : ℕ) (ship : Entity F) (t : TransformComponent F) (p : EntityPool F) (j : ℕ)
      → IsSound p
      → get_elem? (shoot R ship t id p).storage j ≡ (
          if (acquire R p).1 == j
          then some (some (as_bullet R ship t id (fresh R p.next_id)))
          else get_elem? p.storage j)
  unfolding shoot
  shoot-slots id ship t p j v =
      let taken = (acquire R p).0 in
      get_elem?-modify_slot R taken.storage (acquire R p).1 j (as_bullet R ship t id)
      ∙ ground (arith, (acquire-stored R p j v).0)

  -- A player who shoots, with a ship in slot `idx` of a sound pool: the ship turns to the action's
  -- angle, the slot that `acquire` gives holds a bullet of the ship that leaves its rim in that
  -- direction, and no other slot changes.
  pub steer_shooting :
      (action : ActionEvent F) (id idx : ℕ) (ship : Entity F) (t : TransformComponent F)
      (p : EntityPool F) (j : ℕ)
      → IsSound p
      → locate R p id ≡ some (idx, ship)
      → ship.transform ≡ some t
      → action.is_shooting ≡ true
      → ((acquire R p).1 ≢ idx)
        × (get_elem? (steer R action id p).storage j ≡ (
            if j == idx
            then some (some (facing action.angle ship t))
            else (if j == (acquire R p).1
                then some (some (fired action.angle ship t id p.next_id))
                else get_elem? p.storage j)))
  unfolding steer
  steer_shooting action id idx ship t p j v at has fires =
      let turned : TransformComponent F = record t { angle = action.angle } in
      let f : Entity F → Entity F = λ e. record e { transform = some turned } in
      let faced : EntityPool F = record p { storage = modify_slot R p.storage idx f } in
      let u = modify_slot-IsSound R p idx f (λ e. refl) v in
      let slot =
        acquire-same_slot p (modify_slot R p.storage idx f)
          (length-modify_slot R p.storage idx f) in
      let here = (locate-get R p id idx ship at).0 in
      let apart : (acquire R p).1 ≢ idx =
        λ e. (acquire-stored R p idx v).1 ship (ap (get_elem? p.storage) e ∙ here) in
      (
        apart,
        rw (at, steer, has, fires)
            (shoot-slots id ship turned faced j u
              ∙ rw (slot, as_bullet-fresh action.angle ship t id p.next_id)
                  (ground (arith, get_elem?-modify_slot R p.storage idx j f))),
      )

  -- A world that hears a shot message with nothing else in its queue, and then processes the queue:
  -- if the session has a ship with a transform in a sound pool, the ship turns to angle 0 and fires
  -- along angle 0, whatever its heading was; no other slot changes, nobody joins and nothing is left
  -- in the queue.
  pub shot_forgets_heading :
      (session id idx : ℕ) (ship : Entity F) (t : TransformComponent F) (w : World F) (j : ℕ)
      → IsSound w.entities
      → w.action_queue ≡ []
      → find_key session w.session_to_ship ≡ some id
      → locate R w.entities id ≡ some (idx, ship)
      → ship.transform ≡ some t
      → let (after, joins) = process_input_queue R (receive R (shot_message session) w) in
        (get_elem? after.entities.storage j ≡ (
          if j == idx
          then some (some (facing (lit 0 1) ship t))
          else (if j == (acquire R w.entities).1
              then some (some (fired (lit 0 1) ship t id w.entities.next_id))
              else get_elem? w.entities.storage j)))
        × (after.action_queue ≡ [])
        × (joins ≡ [])
  unfolding receive on_shot_received enqueue_action process_input_queue process_action steer_session
  shot_forgets_heading session id idx ship t w j v idle known at has =
      let steered =
        steer_shooting (shot_action R session) id idx ship t w.entities j v at has refl in
      rw (idle, known, steer_session) (steered.1, refl, refl)
