-- ===== src/TcpServer.antt =====
-- The acceptor of src/server/tcp_server.h and tcp_server.cpp, with the table of sessions that it fills.
-- `accepting` is a pending async_accept; start is called once, so there is one at most.
pub mod Accepting
use space_shooter_c.Prelude.{
  ℕ, ◌+◌, ◌^◌, ◌%◌, Bool, true, false, List, [], ◌∷◌, ◌++◌, if◌then◌else◌,
}
use space_shooter_c.Events.{Event, client_connected}
use space_shooter_c.Session.{fresh_session, start}
use space_shooter_c.SessionRegistry.{SessionRegistry, add_session, hear}

-- How an async_accept ends: with a socket, whose address is empty if it cannot be told, because it
-- was cancelled, or with another error.
pub data Accepted : Type 0 where
  connection : List ℕ → Accepted
  aborted other_error : Accepted

pub record TcpServer (F : Type 0) : Type 0 where
  pub is_open : Bool
  pub accepting : Bool
  pub next_session_id : ℕ
  pub session_registry : SessionRegistry F
  pub published : List (Event F)

pub data ServerMove (F : Type 0) : Type 0 where
  starts stops : ServerMove F
  accepts : Accepted → ServerMove F
  hears : Event F → ServerMove F

module _ {F : Type 0} where
  -- `TcpServer(io_context, port, ...)`: the acceptor listens.
  abbrev pub new_server : TcpServer F
  new_server = record {
    is_open = true;
    accepting = false;
    next_session_id = 1;
    session_registry = record { sessions = []; removed = [] };
    published = [];
  }

  unfoldable pub do_accept : TcpServer F → TcpServer F
  do_accept s = record s { accepting = true }

  unfoldable pub start_server : TcpServer F → TcpServer F
  unfolding do_accept
  start_server s = do_accept s

  unfoldable pub stop_server : TcpServer F → TcpServer F
  stop_server s = record s { is_open = false }

  -- The session of a new client.
  unfoldable pub open_session : List ℕ → TcpServer F → TcpServer F
  unfolding start add_session
  open_session address s =
      let id = s.next_session_id in
      record s {
        next_session_id = (id + 1) % 2 ^ 64;
        session_registry = add_session (start (fresh_session id)) s.session_registry;
        published = s.published ++ client_connected id address ∷ [];
      }

  -- The handler of async_accept; it accepts the next client while the acceptor is open.
  unfoldable pub on_accept : Accepted → TcpServer F → TcpServer F
  unfolding do_accept open_session
  on_accept outcome s =
      let idle : TcpServer F = record s { accepting = false } in
      let go_on : TcpServer F → TcpServer F = λ t. if t.is_open then do_accept t else t in
      if s.accepting
      then (elim outcome [
        | connection address ↦ go_on (open_session address idle)
        | aborted ↦ idle
        | other_error ↦ go_on idle
      ])
      else s

  unfoldable pub step : TcpServer F → ServerMove F → TcpServer F
  unfolding start_server stop_server on_accept
  step s starts = start_server s
  step s stops = stop_server s
  step s (accepts outcome) = on_accept outcome s
  step s (hears event) = record s { session_registry = hear event s.session_registry }

  unfoldable pub run : TcpServer F → List (ServerMove F) → TcpServer F
  run s [] = s
  run s (move ∷ moves) = run (step s move) moves
