-- ===== src/GameController.antt =====
-- The client's side of a game: src/client/game_controller.h and game_controller.cpp. The handlers run
-- one at a time on a strand; the calls of the TcpClient are a list. Host and port are left out.
pub mod Joins
pub mod Shots
use space_shooter_c.Prelude.{
  ℕ, ◌+◌, ◌-◌, ◌%◌, ◌^◌, Bool, true, false, not, ◌||◌, ◌&&◌, List, [], ◌∷◌, ◌++◌, if◌then◌else◌,
  ◌==◌, leb, ltb, length,
}
use space_shooter_c.Protocol
use space_shooter_c.Protocol.{ServerMsgType}
use space_shooter_c.ClientWorld.{ClientWorld, is_my_player_alive}

pub data ClientState : Type 0 where
  disconnected connecting connected joining in_game game_over : ClientState

-- Calls of the TcpClient; `connect` carries the generation that its callback captured.
pub data TcpCall : Type 0 where
  connect : ℕ → TcpCall
  disconnect : TcpCall
  send_join : List ℕ → TcpCall
  send_shot : TcpCall

-- What waits on the strand.
pub data ControllerTask : Type 0 where
  start_task rejoin_task message_task : List ℕ → ControllerTask
  shutdown_task disconnect_task : ControllerTask
  connected_task : Bool → ℕ → ControllerTask
  shoot_task : ControllerTask

pub record Controller (F : Type 0) : Type 0 where
  pub state : ClientState
  pub connect_gen : ℕ
  pub player_name : List ℕ
  pub world : ClientWorld F
  pub last_shot_time : ℕ
  pub calls : List TcpCall
  pub tasks : List ControllerTask

-- What may happen: a call of the application, a callback of the TcpClient, or the strand's next task
-- at a time of the clock.
pub data ControllerMove : Type 0 where
  starts rejoins hears : List ℕ → ControllerMove
  shuts_down shoots drops : ControllerMove
  connect_ends : Bool → ℕ → ControllerMove
  strand_runs : ℕ → ControllerMove

-- Times are the 64 bits of a signed count of nanoseconds: `time_point::min()`.
abbrev pub time_min : ℕ
time_min = 2 ^ 63

abbrev pub shoot_cooldown : ℕ
shoot_cooldown = 50_000_000

-- `now - last < kShootCooldown`, where the subtraction wraps and the result is signed.
unfoldable pub cools_down : ℕ → ℕ → Bool
cools_down now last =
    let elapsed = (now + 2 ^ 64 - last) % 2 ^ 64 in
    leb (2 ^ 63) elapsed || ltb elapsed shoot_cooldown

unfoldable pub all_printable : List ℕ → Bool
all_printable [] = true
all_printable (c ∷ name) = not (leb c 0x20 || c == 0x7f) && all_printable name

unfoldable pub validate_player_name : List ℕ → Bool
validate_player_name name = not (length name == 0) && all_printable name

abbrev pub is_connecting : ClientState → Bool
is_connecting disconnected = false
is_connecting connecting = true
is_connecting connected = false
is_connecting joining = false
is_connecting in_game = false
is_connecting game_over = false

abbrev pub is_disconnected : ClientState → Bool
is_disconnected disconnected = true
is_disconnected connecting = false
is_disconnected connected = false
is_disconnected joining = false
is_disconnected in_game = false
is_disconnected game_over = false

abbrev pub is_in_game : ClientState → Bool
is_in_game disconnected = false
is_in_game connecting = false
is_in_game connected = false
is_in_game joining = false
is_in_game in_game = true
is_in_game game_over = false

module _ {F : Type 0} where
  abbrev pub post : ControllerTask → Controller F → Controller F
  post task c = record c { tasks = c.tasks ++ task ∷ [] }

  abbrev pub call : TcpCall → Controller F → Controller F
  call request c = record c { calls = c.calls ++ request ∷ [] }

  unfoldable pub start : List ℕ → Controller F → Controller F
  start name c = if validate_player_name name then post (start_task name) c else c

  abbrev pub shutdown : Controller F → Controller F
  shutdown c = post shutdown_task c

  abbrev pub shoot : Controller F → Controller F
  shoot c = post shoot_task c

  unfoldable pub rejoin : List ℕ → Controller F → Controller F
  rejoin name c = if validate_player_name name then post (rejoin_task name) c else c

  unfoldable pub do_start : List ℕ → Controller F → Controller F
  do_start name c = elim c.state [
    | disconnected ↦
        let gen = (c.connect_gen + 1) % 2 ^ 64 in
        call (connect gen) (record c { player_name = name; state = connecting; connect_gen = gen })
    | connecting ↦ c
    | connected ↦ c
    | joining ↦ c
    | in_game ↦ c
    | game_over ↦ c
  ]

  unfoldable pub do_shutdown : Controller F → Controller F
  do_shutdown c =
      call disconnect
        (record c { connect_gen = (c.connect_gen + 1) % 2 ^ 64; state = disconnected })

  unfoldable pub do_send_join : Controller F → Controller F
  do_send_join c = record (call (send_join (Protocol.encode_join c.player_name)) c) {
    state = joining;
  }

  -- The callback of a connect: a superseded one is ignored.
  unfoldable pub on_connected : Bool → ℕ → Controller F → Controller F
  unfolding do_send_join
  on_connected ok gen c =
      if not (c.connect_gen == gen) || not (is_connecting c.state)
      then c
      else (if ok
          then do_send_join (record c { state = connected })
          else record c { state = disconnected })

  -- A disconnect event, unless it is stale.
  unfoldable pub on_disconnect : Controller F → Controller F
  on_disconnect c = elim c.state [
    | disconnected ↦ c
    | connecting ↦ c
    | connected ↦ record c { state = disconnected }
    | joining ↦ record c { state = disconnected }
    | in_game ↦ record c { state = disconnected }
    | game_over ↦ record c { state = disconnected }
  ]

  unfoldable pub handle : ServerMsgType → Controller F → Controller F
  unfolding do_shutdown
  handle ServerMsgType.accept c = record c { state = in_game }
  handle ServerMsgType.reject c = do_shutdown c
  handle ServerMsgType.game_end c = record c { state = game_over }
  handle ServerMsgType.unknown c = c

  unfoldable pub on_message_on_strand : List ℕ → Controller F → Controller F
  unfolding handle
  on_message_on_strand payload c =
      let heard = handle (Protocol.decode payload).type c in
      if is_disconnected c.state then c else heard

  unfoldable pub do_shoot : ℕ → Controller F → Controller F
  unfolding cools_down
  do_shoot now c =
      if not (is_in_game c.state)
        || not (is_my_player_alive c.world)
        || cools_down now c.last_shot_time
      then c
      else call send_shot (record c { last_shot_time = now })

  unfoldable pub run_task : ℕ → ControllerTask → Controller F → Controller F
  unfolding do_start do_shutdown on_message_on_strand on_disconnect on_connected do_shoot
  run_task now (start_task name) c = do_start name c
  run_task now (rejoin_task name) c = do_start name (do_shutdown c)
  run_task now (message_task payload) c = on_message_on_strand payload c
  run_task now shutdown_task c = do_shutdown c
  run_task now disconnect_task c = on_disconnect c
  run_task now (connected_task ok gen) c = on_connected ok gen c
  run_task now shoot_task c = do_shoot now c

  unfoldable pub strand_step : ℕ → Controller F → Controller F
  unfolding run_task
  strand_step now c = elim c.tasks [
    | [] ↦ c
    | task ∷ rest ↦ run_task now task (record c { tasks = rest })
  ]

  unfoldable pub step : Controller F → ControllerMove → Controller F
  unfolding start rejoin strand_step
  step c (starts name) = start name c
  step c (rejoins name) = rejoin name c
  step c (hears payload) = post (message_task payload) c
  step c shuts_down = shutdown c
  step c shoots = shoot c
  step c drops = post disconnect_task c
  step c (connect_ends ok gen) = post (connected_task ok gen) c
  step c (strand_runs now) = strand_step now c

  unfoldable pub run : Controller F → List ControllerMove → Controller F
  run c [] = c
  run c (move ∷ moves) = run (step c move) moves
