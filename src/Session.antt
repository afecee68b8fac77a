-- ===== src/Session.antt =====
-- The connection to one client: src/server/session.h and session.cpp. The handlers run one at a time
-- on the session's strand; what waits there is a list of tasks. `wire` is the bytes that were handed
-- to async_write, one after the other; `reading` is a pending read, one at most, as start is called
-- once.
pub mod Closing
pub mod Reading
pub mod Writing
pub mod Delivery
use space_shooter_c.Prelude.{
  ℕ, zero, suc, ◌-◌, Bool, true, false, Option, none, List, [], ◌∷◌, ◌++◌, ok, err, if◌then◌else◌,
}
use space_shooter_c.FrameCodec.{buffers, encode, decode}
use space_shooter_c.Events.{Event, network_message, client_disconnected}

pub data SessionTask : Type 0 where
  read_task close_task : SessionTask
  write_task : List ℕ → SessionTask

pub record Session (F : Type 0) : Type 0 where
  pub id : ℕ
  pub closed : Bool
  pub socket_open : Bool
  -- Whether a read is pending, and how many writes are.
  pub reading : Bool
  pub writes_pending : ℕ
  pub read_buffer : List ℕ
  pub write_queue : List (List ℕ)
  pub is_writing : Bool
  pub wire : List ℕ
  pub tasks : List SessionTask
  pub published : List (Event F)

-- What may happen: a call, the strand's next task, or the end of a pending read or write.
pub data SessionMove : Type 0 where
  starts closes strand_runs read_fails write_done write_fails : SessionMove
  sends : List ℕ → SessionMove
  bytes_arrive : List ℕ → SessionMove

module _ {F : Type 0} where
  abbrev pub post : SessionTask → Session F → Session F
  post task s = record s { tasks = s.tasks ++ task ∷ [] }

  -- `Session(socket, id, ...)`.
  abbrev pub fresh_session : ℕ → Session F
  fresh_session id = record {
    id = id;
    closed = false;
    socket_open = true;
    reading = false;
    writes_pending = 0;
    read_buffer = [];
    write_queue = [];
    is_writing = false;
    wire = [];
    tasks = [];
    published = [];
  }

  unfoldable pub start : Session F → Session F
  start s = if s.closed then s else post read_task s

  unfoldable pub send : List ℕ → Session F → Session F
  send payload s = post (write_task payload) s

  unfoldable pub close : Session F → Session F
  close s = if s.closed then s else post close_task (record s { closed = true })

  unfoldable pub do_read : Session F → Session F
  do_read s = if s.closed then s else record s { reading = true }

  -- The callback of the codec.
  abbrev pub publish_frame : ℕ → List (Event F) → List ℕ → List (Event F)
  publish_frame id events payload = events ++ network_message id payload ∷ []

  abbrev pub on_frame : ℕ → List (Event F) → List ℕ → List (Event F) × Option (Unit {0})
  on_frame id events payload = (publish_frame id events payload, none)

  unfoldable pub on_read : List ℕ → Session F → Session F
  unfolding do_read
  on_read bytes s =
      let d = decode (on_frame s.id) (s.read_buffer ++ bytes) s.published in
      let heard : Session F = record s {
        reading = false;
        read_buffer = d.buffer;
        published = d.state;
      } in
      if s.reading then do_read heard else s

  unfoldable pub on_read_error : Session F → Session F
  unfolding close
  on_read_error s = if s.reading then close (record s { reading = false }) else s

  -- A frame that cannot be encoded closes the session.
  unfoldable pub do_write : Session F → Session F
  unfolding close
  do_write s =
      let idle : Session F = record s { is_writing = false } in
      if s.closed then idle else (elim s.write_queue [
        | [] ↦ idle
        | payload ∷ rest ↦ elim (encode payload) [
          | err x ↦ close (record s { write_queue = rest; is_writing = false })
          | ok frame ↦ record s {
            write_queue = rest;
            wire = s.wire ++ buffers frame;
            writes_pending = suc s.writes_pending;
          }
        ]
      ])

  -- What `send` posts.
  unfoldable pub enqueue_write : List ℕ → Session F → Session F
  unfolding do_write
  enqueue_write payload s =
      let queued : Session F = record s { write_queue = s.write_queue ++ payload ∷ [] } in
      if s.closed
      then s
      else (if s.is_writing then queued else do_write (record queued { is_writing = true }))

  abbrev pub one_write_less : Session F → Session F
  one_write_less s = record s { writes_pending = s.writes_pending - 1 }

  unfoldable pub on_written : Session F → Session F
  unfolding do_write
  on_written s = elim s.writes_pending [ zero ↦ s | suc n ↦ do_write (one_write_less s) ]

  unfoldable pub on_write_error : Session F → Session F
  unfolding close
  on_write_error s = elim s.writes_pending [
    | zero ↦ s
    | suc n ↦ close (record (one_write_less s) { is_writing = false })
  ]

  -- What `close` posts.
  unfoldable pub close_socket : Session F → Session F
  close_socket s = record s {
    socket_open = false;
    published = s.published ++ client_disconnected s.id ∷ [];
  }

  unfoldable pub run_task : SessionTask → Session F → Session F
  unfolding do_read enqueue_write close_socket
  run_task read_task s = do_read s
  run_task close_task s = close_socket s
  run_task (write_task payload) s = enqueue_write payload s

  unfoldable pub strand_step : Session F → Session F
  unfolding run_task
  strand_step s = elim s.tasks [ [] ↦ s | task ∷ rest ↦ run_task task (record s { tasks = rest }) ]

  unfoldable pub step : Session F → SessionMove → Session F
  unfolding start send close strand_step on_read on_read_error on_written on_write_error
  step s starts = start s
  step s closes = close s
  step s strand_runs = strand_step s
  step s read_fails = on_read_error s
  step s write_done = on_written s
  step s write_fails = on_write_error s
  step s (sends payload) = send payload s
  step s (bytes_arrive bytes) = on_read bytes s

  unfoldable pub run : Session F → List SessionMove → Session F
  run s [] = s
  run s (move ∷ moves) = run (step s move) moves
