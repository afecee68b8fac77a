-- ===== src/Examples/Clients.antt =====
-- The client's controller at a concrete history: a start, an accepted join, and two shots.
use space_shooter_c.Prelude.{ℕ, ◌≤◌, ◌≡◌, refl, true, List, [], ◌∷◌, arith, ascii}
use space_shooter_c.GameController.{
  Controller, ControllerMove, disconnected, starts, hears, shoots, connect_ends, strand_runs,
  time_min, run,
}
use space_shooter_c.GameController.Joins.{joins, connects, one_join_per_connect}
use space_shooter_c.GameController.Shots.{shots, never_shoots}

abbrev new_controller : Controller ℕ
new_controller = record {
  state = disconnected;
  connect_gen = 0;
  player_name = [];
  world = record { my_player_id = 0; entities = []; leaderboard = [] };
  last_shot_time = time_min;
  calls = [];
  tasks = [];
}

abbrev game : List ControllerMove
game =
    starts (ascii "bo")
    ∷ strand_runs 10
    ∷ connect_ends true 1
    ∷ strand_runs 20
    ∷ hears (ascii "ACCEPT")
    ∷ strand_runs 30
    ∷ shoots
    ∷ strand_runs 40
    ∷ shoots
    ∷ strand_runs 90
    ∷ []

one_join_per_connect_example :
    joins (run new_controller game).calls ≤ connects (run new_controller game).calls
one_join_per_connect_example = one_join_per_connect game new_controller (omega arith)

never_shoots_example : shots (run new_controller game).calls ≡ 0
never_shoots_example =
    never_shoots 0 game new_controller
      (omega arith, (omega arith, (omega arith, (omega arith, (omega arith, tt))))) refl refl
