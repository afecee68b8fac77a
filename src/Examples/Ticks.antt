-- ===== src/Examples/Ticks.antt =====
-- Actions, collisions and ticks of a concrete world.
use space_shooter_c.Prelude.{
  ℕ, ◌+◌, ◌≡◌, ◌≢◌, refl, some, List, [], ◌∷◌, ok, err, arith, get_elem?, if◌then◌else◌, ◌==◌,
  find_key, Result,
}
use space_shooter_c.Types.{increment}
use space_shooter_c.EntityPool.{
  acquire, empty_pool, modify_slot, locate, is_active, find_by_entity_id,
}
use space_shooter_c.EntityPool.Invariant.{IsSound}
use space_shooter_c.Snapshot.{GameSnapshot}
use space_shooter_c.Snapshot.Game.{serialize, deserialize}
use space_shooter_c.Snapshot.RoundTrip.{All}
use space_shooter_c.Snapshot.Game
use space_shooter_c.Snapshot.Serder
use space_shooter_c.Snapshot.Bytes
use space_shooter_c.EntityUtils
use space_shooter_c.World.Leaderboard
use space_shooter_c.Events.{shot_message, send_packet, broadcast_session_id}
use space_shooter_c.World.{World, ActionEvent, shot_action, receive}
use space_shooter_c.World.Actions.{steer, process_input_queue}
use space_shooter_c.World.Actions.Effects.{facing, fired, steer_shooting, shot_forgets_heading}
use space_shooter_c.World.Collisions.{reap_destroyed_ships}
use space_shooter_c.World.Collisions.Reap.{reap_exact, surviving, deaths, death_count}
use space_shooter_c.World.Spawn.{as_ship, ship_name}
use space_shooter_c.World.Tick.{build_game_snapshot, broadcast_snapshot, run_tick_step}
use space_shooter_c.World.Tick.Room.{less_room}
use space_shooter_c.World.Tick.Sound.{run_tick_step-IsSound}
use space_shooter_c.World.Tick.Broadcast.{broadcast_readable, SlotFits}
use space_shooter_c.Examples.Samples.{whole}
use space_shooter_c.Examples.Buffers.{plain_buffers, plain_buffers-IsFaithful}
use space_shooter_c.Examples.Worlds.{
  low_draw, keep_order, one_ship, the_ship, at_rest, one_ship-HasRoom, one_player, one_wreck,
  one_wreck-HasRoom, lost_player,
}

abbrev turning_shot : ActionEvent ℕ
turning_shot = record (shot_action whole 7) { angle = 3 }

steer_shooting_example :
    ((acquire whole one_ship).1 ≢ 0)
    × (get_elem? (steer whole turning_shot 1 one_ship).storage 1 ≡ (
        if 1 == 0
        then some (some (facing whole 3 the_ship at_rest))
        else (if 1 == (acquire whole one_ship).1
            then some (some (fired whole 3 the_ship at_rest 1 one_ship.next_id))
            else get_elem? one_ship.storage 1)))
unfolding acquire empty_pool modify_slot locate as_ship increment
steer_shooting_example =
    steer_shooting whole turning_shot 1 0 the_ship at_rest one_ship 1 one_ship-HasRoom.sound refl
      refl refl

abbrev idle_player : World ℕ
idle_player = record one_player { action_queue = [] }

shot_forgets_heading_example :
    let (after, joins) = process_input_queue whole (receive whole (shot_message 7) idle_player) in
    (get_elem? after.entities.storage 0 ≡ some (some (facing whole 0 the_ship at_rest)))
    × (after.action_queue ≡ [])
    × (joins ≡ [])
unfolding acquire empty_pool modify_slot locate as_ship increment
shot_forgets_heading_example =
    shot_forgets_heading whole 7 1 0 the_ship at_rest idle_player 0 one_ship-HasRoom.sound refl refl
      refl refl

reap_exact_example :
    (find_key 7 (reap_destroyed_ships whole lost_player).session_to_ship
      ≡ surviving whole one_wreck (some 1))
    × (deaths 7 (reap_destroyed_ships whole lost_player).published
        ≡ 0 + death_count whole one_wreck (some 1))
unfolding find_by_entity_id acquire empty_pool modify_slot as_ship
reap_exact_example = reap_exact whole lost_player 7 one_wreck-HasRoom.sound (refl, tt)

run_tick_step-IsSound_example :
    IsSound (run_tick_step whole plain_buffers keep_order low_draw one_player 0).0.entities
run_tick_step-IsSound_example =
    run_tick_step-IsSound whole low_draw plain_buffers keep_order one_player 0
      (less_room 100 65 one_ship (omega arith) one_ship-HasRoom)

abbrev bytes_of : {X : Type 0} → Result X (List ℕ) → List ℕ
bytes_of (ok bytes) = bytes
bytes_of (err x) = []

abbrev snapshot : GameSnapshot ℕ
snapshot = build_game_snapshot whole plain_buffers keep_order one_player

abbrev payload : List ℕ
payload = bytes_of (serialize plain_buffers snapshot)

one_ship-fits : All SlotFits one_ship.storage
unfolding acquire empty_pool modify_slot as_ship ship_name increment
one_ship-fits = (
  record {
    id_u64 = omega arith;
    ship_fits = (omega arith, omega arith, omega arith);
    health_fits = (omega arith, omega arith);
    combat_fits = (omega arith, omega arith);
    asteroid_fits = tt;
  },
  tt,
)

snapshot_serialised : serialize plain_buffers snapshot ≡ ok payload
unfolding serialize build_game_snapshot EntityUtils.build_entity_snapshots EntityUtils.snapshots_of
    modify_slot acquire empty_pool is_active as_ship ship_name Leaderboard.build_leaderboard
    Leaderboard.top_players Leaderboard.entry_of Game.write_entities Serder.serialize_entity
    Serder.to_table Serder.to_wire EntityUtils.to_entity_snapshot EntityUtils.to_ship_snapshot
    Game.until_nul Game.name_field Game.write_entries Bytes.write_bytes Bytes.write_u32 increment
snapshot_serialised = refl

broadcast_readable_example :
    ((broadcast_snapshot whole plain_buffers keep_order snapshot one_player).published
      ≡ send_packet broadcast_session_id payload ∷ [])
    × (deserialize plain_buffers payload ≡ ok snapshot)
broadcast_readable_example =
    broadcast_readable whole plain_buffers keep_order (λ k xs i x at. (i, at)) one_player payload
      plain_buffers-IsFaithful one_ship-fits snapshot_serialised
