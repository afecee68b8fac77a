-- ===== src/Examples/Worlds.antt =====
-- A world with the ship of one player, who is about to shoot.
use space_shooter_c.Prelude.{ℕ, ◌+◌, true, false, [], ◌∷◌, refl, arith}
use space_shooter_c.Entity.{Vector2D, TransformComponent, Entity}
use space_shooter_c.EntityPool.{EntityPool, acquire, empty_pool, modify_slot, fresh}
use space_shooter_c.EntityPool.Invariant.{empty_pool-IsSound}
use space_shooter_c.AsteroidFactory.{Randomness}
use space_shooter_c.World.{World, stopped, shot_action}
use space_shooter_c.World.Leaderboard.{PartialSort}
use space_shooter_c.World.Lifecycle.{Loop, idle}
use space_shooter_c.World.Spawn.{as_ship}
use space_shooter_c.World.Tick.Room.{HasRoom, place-HasRoom}
use space_shooter_c.Examples.Samples.{whole}

abbrev pub low_draw : Randomness ℕ ℕ
low_draw = record { draw = λ lo hi g. (lo, g + 1) }

abbrev pub keep_order : PartialSort
keep_order k entries = entries

abbrev pub middle : Vector2D ℕ
middle = record { x = 0; y = 0 }

abbrev pub one_ship : EntityPool ℕ
one_ship =
    let taken = acquire whole (empty_pool whole) in
    record taken.0 {
      storage = modify_slot whole taken.0.storage taken.1 (as_ship whole middle (65 ∷ []));
    }

abbrev pub the_ship : Entity ℕ
the_ship = as_ship whole middle (65 ∷ []) (fresh whole 1)

abbrev pub at_rest : TransformComponent ℕ
at_rest = record { position = middle; velocity = middle; angle = 0 }

pub one_ship-HasRoom : HasRoom 100 one_ship
unfolding empty_pool as_ship
one_ship-HasRoom =
    place-HasRoom whole 100 (empty_pool whole) (as_ship whole middle (65 ∷ [])) (λ e. refl)
      (record { sound = empty_pool-IsSound whole; room = omega arith })

abbrev pub one_player : World ℕ
one_player = record {
  entities = one_ship;
  action_queue = shot_action whole 7 ∷ [];
  session_to_ship = (7, 1) ∷ [];
  current_tick = 4;
  world_width = 2000;
  world_height = 2000;
  tick_interval = 100;
  state = stopped;
  timer_expiry = 0;
  armed = false;
  published = [];
}

abbrev pub resting_loop : Loop ℕ ℕ
resting_loop = record { world = one_player; rng = 0; tasks = []; phase = idle; now = 0 }

-- The same world after the ship's destruction.
abbrev wreck : Entity ℕ → Entity ℕ
wreck e = record (as_ship whole middle (65 ∷ []) e) { is_destroyed = true }

abbrev pub one_wreck : EntityPool ℕ
one_wreck =
    let taken = acquire whole (empty_pool whole) in
    record taken.0 { storage = modify_slot whole taken.0.storage taken.1 wreck }

pub one_wreck-HasRoom : HasRoom 100 one_wreck
unfolding empty_pool as_ship
one_wreck-HasRoom =
    place-HasRoom whole 100 (empty_pool whole) wreck (λ e. refl)
      (record { sound = empty_pool-IsSound whole; room = omega arith })

abbrev pub lost_player : World ℕ
lost_player = record one_player { entities = one_wreck }
