-- ===== src/World.antt =====
-- The state of the server's world, its inbox and the events that it answers: src/server/
-- world_instance.h and the handlers at the end of world_instance.cpp. The event bus is the list of
-- the events that the world has published, the latest last.
pub mod Actions
pub mod Collisions
pub mod Spawn
pub mod Leaderboard
pub mod Tick
pub mod Lifecycle
use space_shooter_c.Prelude.{
  ℕ, Bool, true, false, List, [], ◌∷◌, ◌++◌, ◌||◌, Result, ok, err, ltb, if◌then◌else◌,
}
use space_shooter_c.Scalar.{Scalars}
use space_shooter_c.Events.{Event, client_disconnected, player_join, shot_message, player_move}
use space_shooter_c.Entity.{Vector2D}
use space_shooter_c.EntityPool.{EntityPool, empty_pool}

pub data ActionType : Type 0 where
  unknown join quit move_and_shoot respawn : ActionType

pub record ActionEvent (F : Type 0) : Type 0 where
  pub session_id : ℕ
  pub type : ActionType
  pub move_direction : Vector2D F
  pub target_point : Vector2D F
  pub angle : F
  pub is_shooting : Bool
  pub player_name : List ℕ

pub record PendingJoin : Type 0 where
  pub session_id : ℕ
  pub player_name : List ℕ

pub data State : Type 0 where
  stopped running : State

-- `timer_expiry` is the deadline of the tick timer, `armed` whether a wait for it is pending.
pub record World (F : Type 0) : Type 0 where
  pub entities : EntityPool F
  pub action_queue : List (ActionEvent F)
  pub session_to_ship : List (ℕ × ℕ)
  pub current_tick : ℕ
  pub world_width : F
  pub world_height : F
  pub tick_interval : ℕ
  pub state : State
  pub timer_expiry : ℕ
  pub armed : Bool
  pub published : List (Event F)

pub data InvalidArgument : Type 0 where
  bad_tick_rate bad_world_size : InvalidArgument

module _ {F : Type 0} where
  unfoldable pub enqueue_action : ActionEvent F → World F → World F
  enqueue_action action w = record w { action_queue = w.action_queue ++ action ∷ [] }

  unfoldable pub publish : Event F → World F → World F
  publish event w = record w { published = w.published ++ event ∷ [] }

module _ (R : Scalars) where
  open R use {F, lit, div, le, to_microseconds}

  -- `ActionEvent action;`.
  abbrev pub blank_action : ActionEvent F
  blank_action = record {
    session_id = 0;
    type = unknown;
    move_direction = record { x = lit 0 1; y = lit 0 1 };
    target_point = record { x = lit 0 1; y = lit 0 1 };
    angle = lit 0 1;
    is_shooting = false;
    player_name = [];
  }

  abbrev pub quit_action : ℕ → ActionEvent F
  quit_action session = record blank_action { session_id = session; type = quit }

  abbrev pub join_action : ℕ → List ℕ → ActionEvent F
  join_action session login = record blank_action {
    session_id = session;
    type = join;
    player_name = login;
  }

  abbrev pub shot_action : ℕ → ActionEvent F
  shot_action session = record blank_action {
    session_id = session;
    type = move_and_shoot;
    is_shooting = true;
  }

  abbrev pub move_action : ℕ → F → ActionEvent F
  move_action session angle = record blank_action {
    session_id = session;
    type = move_and_shoot;
    angle = angle;
  }

  unfoldable pub on_client_disconnected : ℕ → World F → World F
  unfolding enqueue_action
  on_client_disconnected session w = enqueue_action (quit_action session) w

  unfoldable pub on_player_join : ℕ → List ℕ → World F → World F
  unfolding enqueue_action
  on_player_join session login w = enqueue_action (join_action session login) w

  unfoldable pub on_shot_received : ℕ → World F → World F
  unfolding enqueue_action
  on_shot_received session w = enqueue_action (shot_action session) w

  unfoldable pub on_player_move : ℕ → F → World F → World F
  unfolding enqueue_action
  on_player_move session angle w = enqueue_action (move_action session angle) w

  -- The four subscriptions of `setupSubscriptions`; the world does not hear the other events.
  unfoldable pub receive : Event F → World F → World F
  unfolding on_client_disconnected on_player_join on_shot_received on_player_move
  receive (client_disconnected session) w = on_client_disconnected session w
  receive (player_join session login) w = on_player_join session login w
  receive (shot_message session) w = on_shot_received session w
  receive (player_move session angle) w = on_player_move session angle w
  receive _ w = w

  -- The constructor; the interval of a tick is at least a microsecond.
  unfoldable pub create_world : F → F → F → Result InvalidArgument (World F)
  create_world tick_rate_hz world_width world_height =
      let micros = to_microseconds (div (lit 1 1) tick_rate_hz) in
      if le tick_rate_hz (lit 0 1)
      then err bad_tick_rate
      else (if le world_width (lit 0 1) || le world_height (lit 0 1)
          then err bad_world_size
          else ok (record {
            entities = empty_pool R;
            action_queue = [];
            session_to_ship = [];
            current_tick = 0;
            world_width = world_width;
            world_height = world_height;
            tick_interval = if ltb micros 1 then 1 else micros;
            state = stopped;
            timer_expiry = 0;
            armed = false;
            published = [];
          }))
