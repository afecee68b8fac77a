-- ===== src/World/Tick.antt =====
-- One tick of the world: `runTickStep` of src/server/world_instance.cpp, which catches every
-- exception.
pub mod Room
pub mod Sound
pub mod Broadcast
use space_shooter_c.Prelude.{
  ℕ, ◌%◌, ◌^◌, Bool, true, false, List, [], ◌∷◌, ◌++◌, Result, ok, err, if◌then◌else◌,
}
use space_shooter_c.Scalar.{Scalars}
use space_shooter_c.EntityPool.{recycle_destroyed}
use space_shooter_c.EntityUtils.{update_movement_and_bounds, build_entity_snapshots}
use space_shooter_c.Snapshot.{GameSnapshot}
use space_shooter_c.Snapshot.Serder.{FlatBuffers}
use space_shooter_c.Snapshot.Game.{serialize}
use space_shooter_c.AsteroidFactory.{Randomness}
use space_shooter_c.Events.{send_packet, broadcast_session_id}
use space_shooter_c.World.{World}
use space_shooter_c.World.Actions.{process_input_queue}
use space_shooter_c.World.Collisions.{resolve_collisions}
use space_shooter_c.World.Spawn.{maintain_asteroid_population, spawn_ships}
use space_shooter_c.World.Leaderboard.{PartialSort, build_leaderboard}

module _ (R : Scalars) where
  open R use {F, float_seconds}

  unfoldable pub update_physics : F → World F → World F
  update_physics dt w = record w {
    entities = record w.entities {
      storage = update_movement_and_bounds R w.entities.storage dt w.world_width w.world_height;
    };
  }

  module _ (fb : FlatBuffers F) (partial_sort : PartialSort) where
    unfoldable pub build_game_snapshot : World F → GameSnapshot F
    build_game_snapshot w = record {
      snapshots = build_entity_snapshots R w.entities;
      leaderboard = build_leaderboard partial_sort w;
      tick_number = w.current_tick % 2 ^ 32;
    }

    -- A snapshot that cannot be serialised ends the tick, before anything is sent or recycled.
    unfoldable pub broadcast_snapshot : GameSnapshot F → World F → World F
    broadcast_snapshot snapshot w = elim (serialize fb snapshot) [
      | err x ↦ w
      | ok payload ↦ record w {
        entities = recycle_destroyed R w.entities;
        published = w.published ++ send_packet broadcast_session_id payload ∷ [];
      }
    ]

    module _ {G : Type 0} (rng : Randomness F G) where
      unfoldable pub run_tick_step : World F → G → World F × G
      run_tick_step w g =
          let (heard, joins) = process_input_queue R w in
          let moved = update_physics (float_seconds w.tick_interval) heard in
          let (collided, thrown) = resolve_collisions R moved in
          let (populated, g') = maintain_asteroid_population R rng collided g in
          let spawned = spawn_ships R joins populated in
          if thrown
          then (collided, g)
          else (broadcast_snapshot (build_game_snapshot spawned) spawned, g')
