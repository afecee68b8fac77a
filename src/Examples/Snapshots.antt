-- ===== src/Examples/Snapshots.antt =====
-- A snapshot of one asteroid and one player.
use space_shooter_c.Prelude.{ℕ, ◌≡◌, false, some, none, List, [], ◌∷◌, ◌++◌, ok, err, arith}
use space_shooter_c.Types.{EntityType}
use space_shooter_c.Snapshot.{EntitySnapshot, GameSnapshot}
use space_shooter_c.Snapshot.Bytes.{trailing_bytes}
use space_shooter_c.Snapshot.Serder.{to_table, to_wire, serialize_entity}
use space_shooter_c.Snapshot.Game.{serialize, deserialize}
use space_shooter_c.Snapshot.RoundTrip.{SnapshotFits}
use space_shooter_c.Snapshot.Total.{round_trip}
use space_shooter_c.Examples.Buffers.{plain_buffers, plain_buffers-IsFaithful}

abbrev rock : EntitySnapshot ℕ
rock = record {
  id = 5;
  type = EntityType.asteroid;
  mass = 40;
  radius = 1200;
  is_destroyed = false;
  transform = none;
  ship = none;
  health = some (record { current = 100; max = 100 });
  combat = none;
  asteroid = some (record { score_reward = 40 });
}

abbrev view : GameSnapshot ℕ
view = record {
  snapshots = rock ∷ [];
  leaderboard = record { name = 65 ∷ 66 ∷ []; score = 300 } ∷ [];
  tick_number = 12;
}

view-SnapshotFits : SnapshotFits plain_buffers view
unfolding to_table to_wire
view-SnapshotFits = record {
  tick_u32 = omega arith;
  few_entries = omega arith;
  entries = ((omega arith, ((λ e. omega arith), ((λ e. omega arith), tt)), omega arith), tt);
  entities = (
    record {
      id_u64 = omega arith;
      type_u8 = omega arith;
      ship_fits = tt;
      health_fits = (omega arith, omega arith);
      combat_fits = tt;
      asteroid_fits = omega arith;
    },
    tt,
  );
}

round_trip_example :
    (bytes : List ℕ) × (serialize plain_buffers view ≡ ok bytes)
    × (deserialize plain_buffers bytes ≡ ok view)
    × (deserialize plain_buffers (bytes ++ 0 ∷ []) ≡ err trailing_bytes)
unfolding serialize_entity to_table
round_trip_example =
    round_trip plain_buffers view 0 [] plain_buffers-IsFaithful view-SnapshotFits (omega arith)
      (omega arith, tt)
