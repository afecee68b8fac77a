-- ===== src/World/Tick/Sound.antt =====
-- A whole tick of src/server/world_instance.cpp and the pool of entities.
use space_shooter_c.Prelude.{
  ℕ, zero, suc, ◌+◌, ◌≤◌, ◌≡◌, refl, ap, ◌∙◌, inl, inr, Option, none, some, List, [], ◌∷◌, arith,
  length, foldl, Bool-cases, Result-cases,
}
use space_shooter_c.Scalar.{Scalars, std_min}
use space_shooter_c.Entity.{Entity, Vector2D}
use space_shooter_c.EntityPool.{EntityPool, recycle_slot, recycle_from, recycle_destroyed}
use space_shooter_c.EntityPool.Invariant.{IsSound}
use space_shooter_c.EntityPool.Recycle.{recycle-IsSound}
use space_shooter_c.EntityPool.Writes.{ids, IsSound-ids}
use space_shooter_c.EntityUtils.{update_movement_and_bounds}
use space_shooter_c.EntityUtils.Movement.{move_entity_effect}
use space_shooter_c.AsteroidFactory.{
  Randomness, min_asteroid_weight, max_asteroid_weight, min_asteroids_weight, as_asteroid,
  weights_from, weight_rounds, generate_asteroid_weight, create_asteroids, update,
  calculate_current_weight, generate_positions,
}
use space_shooter_c.Snapshot.Serder.{FlatBuffers}
use space_shooter_c.Snapshot.Game.{serialize}
use space_shooter_c.World.{World}
use space_shooter_c.World.Actions.{Input, process_action, process_input_queue}
use space_shooter_c.World.Collisions.{pass, resolve_collisions, reap_destroyed_ships}
use space_shooter_c.World.Collisions.Rules.{pass-ids}
use space_shooter_c.World.Spawn.{spawn_ships, maintain_asteroid_population, free_position}
use space_shooter_c.World.Tick.Room.{
  HasRoom, less_room, place-HasRoom, actions-HasRoom, spawn_ships-HasRoom,
}
use space_shooter_c.World.Leaderboard.{PartialSort}
use space_shooter_c.World.Tick.{
  update_physics, build_game_snapshot, broadcast_snapshot, run_tick_step,
}

module _ (R : Scalars) where
  open R use {F}

  moved-ids :
      (dt width height : F) (ss : List (Option (Entity F)))
      → ids (update_movement_and_bounds R ss dt width height) ≡ ids ss
  unfolding update_movement_and_bounds
  moved-ids dt width height [] = refl
  moved-ids dt width height (none ∷ ss) = ap (◌∷◌ none) (moved-ids dt width height ss)
  moved-ids dt width height (some e ∷ ss) =
      ground (arith, moved-ids dt width height ss, move_entity_effect R dt width height e)

  physics-HasRoom :
      (n : ℕ) (dt : F) (w : World F)
      → HasRoom n w.entities
      → HasRoom n (update_physics R dt w).entities
  unfolding update_physics
  physics-HasRoom n dt w v = record {
    sound =
        IsSound-ids w.entities _ (moved-ids dt w.world_width w.world_height w.entities.storage)
          v.sound;
    room = v.room;
  }

  slot-next_id : (i : ℕ) (p : EntityPool F) → (recycle_slot R i p).next_id ≡ p.next_id
  unfolding recycle_slot
  slot-next_id i p = ground arith

  recycle_from-next_id : (n i : ℕ) (p : EntityPool F) → (recycle_from R n i p).next_id ≡ p.next_id
  unfolding recycle_from
  recycle_from-next_id zero i p = refl
  recycle_from-next_id (suc n) i p =
      recycle_from-next_id n (i + 1) (recycle_slot R i p) ∙ slot-next_id i p

  recycle-HasRoom : (n : ℕ) (p : EntityPool F) → HasRoom n p → HasRoom n (recycle_destroyed R p)
  unfolding recycle_destroyed
  recycle-HasRoom n p v = record {
    sound = fold (recycle-IsSound R p v.sound);
    room = omega (arith, v.room, recycle_from-next_id (length p.storage) 0 p);
  }
    where
      fold : IsSound (recycle_destroyed R p) → IsSound (recycle_destroyed R p)
      fold s = s

  collisions-HasRoom :
      (n : ℕ) (w : World F) → HasRoom n w.entities → HasRoom n (resolve_collisions R w).0.entities
  unfolding resolve_collisions reap_destroyed_ships
  collisions-HasRoom n w v =
      let p =
        pass R w.world_width w.world_height (length w.entities.storage) 0 w.entities.storage in
      let collided : EntityPool F = record w.entities { storage = p.0 } in
      let u : HasRoom n collided = record {
        sound =
            IsSound-ids w.entities p.0
              (pass-ids R w.world_width w.world_height (length w.entities.storage) 0
                w.entities.storage)
              v.sound;
        room = v.room;
      } in
      elim (Bool-cases p.1) [
        | inl thrown ↦ rw thrown u
        | inr fine ↦ rw fine (recycle-HasRoom n collided u)
      ]

  module _ {G : Type 0} (rng : Randomness F G) where
    length-weights : (f : ℕ) (r : F) (g : G) → length (weights_from R rng f r g).0 ≤ f
    unfolding weights_from
    length-weights zero r g = omega arith
    length-weights (suc f) r g =
        let d = rng.draw (min_asteroid_weight R) (std_min R (max_asteroid_weight R) r) g in
        ground (arith, length-weights f (R.sub r d.0) d.1)

    length-generated :
        (r : F) (g : G) → length (generate_asteroid_weight R rng r g).0 ≤ weight_rounds
    unfolding generate_asteroid_weight
    length-generated r g =
        let d = rng.draw (min_asteroid_weight R) (R.sub (min_asteroids_weight R) r) g in
        ground (arith, length-weights weight_rounds d.0 d.1)

    create-HasRoom :
        (n : ℕ) (ws : List F) (ps : List (Vector2D F)) (p : EntityPool F)
        → HasRoom (length ws + n) p
        → HasRoom n (create_asteroids R ws ps p)
    unfolding create_asteroids as_asteroid
    create-HasRoom n [] ps p v = less_room _ _ p (omega arith) v
    create-HasRoom n (w ∷ ws) [] p v = less_room _ _ p (omega arith) v
    create-HasRoom n (w ∷ ws) (x ∷ ps) p v = create-HasRoom n ws ps _ (
        place-HasRoom R (length ws + n) p (as_asteroid R w x) (λ e. refl)
          (less_room _ _ p (omega arith) v))

    asteroids-HasRoom :
        (n : ℕ) (w : World F) (g : G)
        → HasRoom (weight_rounds + n) w.entities
        → HasRoom n (maintain_asteroid_population R rng w g).0.entities
    unfolding maintain_asteroid_population update
    asteroids-HasRoom n w g v =
        let total = calculate_current_weight R w.entities in
        let weights = generate_asteroid_weight R rng total g in
        let area = free_position R w in
        let positions = generate_positions R rng (length weights.0) area weights.1 in
        elim (Bool-cases (R.le (min_asteroids_weight R) total)) [
          | inl full ↦ rw full (less_room _ _ w.entities (omega arith) v)
          | inr low ↦ rw low (
              create-HasRoom n weights.0 positions.0 w.entities
                (less_room _ _ w.entities (omega (arith, length-generated total g)) v))
        ]

    module _ (fb : FlatBuffers F) (partial_sort : PartialSort) where
      broadcast-HasRoom :
          (n : ℕ) (w : World F)
          → HasRoom n w.entities
          → HasRoom n
              (broadcast_snapshot R fb partial_sort
                (build_game_snapshot R fb partial_sort w)
                w).entities
      unfolding broadcast_snapshot
      broadcast-HasRoom n w v =
          let s = build_game_snapshot R fb partial_sort w in
          elim (Result-cases (serialize fb s)) [
            | inl (payload, e) ↦ rw (e, broadcast_snapshot) (recycle-HasRoom n w.entities v)
            | inr (x, e) ↦ rw (e, broadcast_snapshot) v
          ]

      -- A tick keeps the pool sound, whatever the players do and wherever it is ended by an
      -- exception, if the counter of ids has room for one id for each action in the queue and for
      -- the asteroids that one tick can create.
      pub run_tick_step-IsSound :
          (w : World F) (g : G)
          → HasRoom (length w.action_queue + weight_rounds) w.entities
          → IsSound (run_tick_step R fb partial_sort rng w g).0.entities
      unfolding run_tick_step process_input_queue
      run_tick_step-IsSound w g v =
          let start : Input F = (record w { action_queue = [] }, []) in
          let heard = foldl (process_action R) start w.action_queue in
          let u =
            actions-HasRoom R weight_rounds w.action_queue start
              (less_room _ _ w.entities (omega arith) v) in
          let dt = R.float_seconds w.tick_interval in
          let moved = update_physics R dt heard.0 in
          let c =
            collisions-HasRoom (length heard.1 + weight_rounds) moved
              (physics-HasRoom (length heard.1 + weight_rounds) dt heard.0 u) in
          let collided = resolve_collisions R moved in
          let populated = maintain_asteroid_population R rng collided.0 g in
          let m =
            asteroids-HasRoom (length heard.1) collided.0 g
              (less_room _ _ collided.0.entities (omega arith) c) in
          let spawned =
            spawn_ships-HasRoom R 0 heard.1 populated.0
              (less_room _ _ populated.0.entities (omega arith) m) in
          elim (Bool-cases collided.1) [
            | inl thrown ↦ rw thrown c.sound
            | inr fine ↦
                rw fine (broadcast-HasRoom 0 (spawn_ships R heard.1 populated.0) spawned).sound
          ]
