-- ===== src/TcpClient.antt =====
-- The client's connection: src/client/tcp_client.h and tcp_client.cpp. The handlers run one at a time
-- on the client's strand: posted tasks in order, and the ends of asynchronous operations whenever
-- they come. `trace` is what the client and the application had to do with each other, in order: the
-- calls of one, the callbacks of the other.
pub mod Callbacks
pub mod Histories
pub mod Operations
pub mod Live
pub mod Alive
pub mod Answers
pub mod Picking
pub mod Writing
pub mod Reading
pub mod Protocol
pub mod Phases
pub mod Owing
pub mod Sending
pub mod Generations
pub mod Handlers
use space_shooter_c.Prelude.{
  ℕ, zero, suc, ◌+◌, ◌^◌, ◌%◌, Bool, true, false, not, ◌&&◌, ◌||◌, Option, none, some, List, [],
  ◌∷◌, ◌++◌, ok, err, if◌then◌else◌, ltb, ◌==◌, length,
}
use space_shooter_c.FrameCodec.{Frame, encode, decode, max_message_size, Exit, returned, thrown}

-- What the application may call. A connect is known by the number of its callback.
pub data Call : Type 0 where
  connect_call : ℕ → Call
  send_call : List ℕ → Call
  disconnect_call : Call

-- A note of the trace: a call of `connect`, `send` or `disconnect`, the answer to a connect, a
-- message and the end of a connection.
pub data Note : Type 0 where
  asked : ℕ → Note
  offered : List ℕ → Note
  left : Note
  answered : ℕ → Bool → Note
  heard : List ℕ → Note
  ended : Note

-- What the application's callbacks do, which depends on what happened before: they call the client,
-- and may throw. A callback that is not set calls nothing.
pub record Application : Type 0 where
  pub reacts : List Note → List Call
  pub throws : List Note → Bool

-- A frame behind a shared pointer, which `ref` stands for.
pub record OutFrame : Type 0 where
  pub ref : ℕ
  pub frame : Frame

pub data ClientTask : Type 0 where
  connect_task : ℕ → ClientTask
  send_task : OutFrame → ClientTask
  disconnect_task : ClientTask

-- A pending operation, with what its handler has captured: the generation, and the frame of a write.
pub data Operation : Type 0 where
  resolving connecting reading : ℕ → Operation
  writing : ℕ → OutFrame → Operation

-- How an operation ends; the bytes are those of a read.
pub data Outcome : Type 0 where
  failed : Outcome
  succeeded : List ℕ → Outcome

pub data ClientMove : Type 0 where
  calls : Call → ClientMove
  strand_runs : ClientMove
  completes : ℕ → Outcome → ClientMove

pub record TcpClient : Type 0 where
  pub is_connected : Bool
  pub disconnect_requested : Bool
  pub disconnect_generation : ℕ
  pub is_connecting : Bool
  pub active_connect_generation : ℕ
  pub pending_connect_callback : Option ℕ
  pub read_buffer : List ℕ
  pub write_queue : List OutFrame
  pub is_writing : Bool
  pub next_ref : ℕ
  pub tasks : List ClientTask
  pub operations : List Operation
  -- The frames that were handed to async_write.
  pub handed : List OutFrame
  pub trace : List Note

-- `TcpClient(io_context)`.
abbrev pub new_client : TcpClient
new_client = record {
  is_connected = false;
  disconnect_requested = false;
  disconnect_generation = 0;
  is_connecting = false;
  active_connect_generation = 0;
  pending_connect_callback = none;
  read_buffer = [];
  write_queue = [];
  is_writing = false;
  next_ref = 0;
  tasks = [];
  operations = [];
  handed = [];
  trace = [];
}

abbrev pub post : ClientTask → TcpClient → TcpClient
post task c = record c { tasks = c.tasks ++ task ∷ [] }

abbrev pub note : Note → TcpClient → TcpClient
note n c = record c { trace = c.trace ++ n ∷ [] }

abbrev pub initiate : Operation → TcpClient → TcpClient
initiate op c = record c { operations = c.operations ++ op ∷ [] }

unfoldable pub connect : ℕ → TcpClient → TcpClient
connect callback c = post (connect_task callback) (note (asked callback) c)

unfoldable pub send : List ℕ → TcpClient → TcpClient
send payload c =
    let noted = note (offered payload) c in
    if ltb max_message_size (length payload) then noted else (elim (encode payload) [
      | err x ↦ noted
      | ok frame ↦
          post (send_task (record { ref = c.next_ref; frame = frame }))
            (record noted { next_ref = suc c.next_ref })
    ])

unfoldable pub disconnect : TcpClient → TcpClient
disconnect c = post disconnect_task (note left (record c { disconnect_requested = true }))

unfoldable pub apply_call : Call → TcpClient → TcpClient
unfolding connect send disconnect
apply_call (connect_call callback) c = connect callback c
apply_call (send_call payload) c = send payload c
apply_call disconnect_call c = disconnect c

unfoldable pub apply_calls : List Call → TcpClient → TcpClient
apply_calls [] c = c
apply_calls (call ∷ rest) c = apply_calls rest (apply_call call c)

abbrev pub is_valid_generation : ℕ → TcpClient → Bool
is_valid_generation generation c =
    (generation == c.active_connect_generation) && (generation == c.disconnect_generation)

abbrev pub is_stopped : TcpClient → Bool
is_stopped c = not c.is_connected || c.disconnect_requested

-- `doRead`: the stop test, and the start of a read.
unfoldable pub do_read : TcpClient → TcpClient
do_read c = if is_stopped c then c else initiate (reading c.active_connect_generation) c

unfoldable pub do_write : TcpClient → TcpClient
do_write c =
    let idle = record c { is_writing = false } in
    if is_stopped c then idle else (elim c.write_queue [
      | [] ↦ idle
      | frame ∷ rest ↦
          initiate (writing c.active_connect_generation frame)
            (record c { is_writing = true; handed = c.handed ++ frame ∷ [] })
    ])

-- The task of `send`.
unfoldable pub enqueue_write : OutFrame → TcpClient → TcpClient
unfolding do_write
enqueue_write frame c =
    let queued = record c { write_queue = c.write_queue ++ frame ∷ [] } in
    if is_stopped c then c else (if c.is_writing then queued else do_write queued)

-- The frame that was written leaves the queue.
unfoldable pub pop_front : OutFrame → List OutFrame → List OutFrame
pop_front frame [] = []
pop_front frame (front ∷ rest) = if front.ref == frame.ref then rest else front ∷ rest

unfoldable pub next_write : TcpClient → TcpClient
unfolding do_write
next_write c =
    let idle = record c { is_writing = false } in
    elim c.write_queue [ [] ↦ idle | front ∷ rest ↦ if c.is_connected then do_write c else idle ]

-- The handler of async_write.
unfoldable pub on_written : ℕ → OutFrame → Outcome → TcpClient → TcpClient
unfolding disconnect pop_front next_write
on_written generation frame outcome c =
    if not (is_valid_generation generation c) || not c.is_connected then c else (elim outcome [
      | failed ↦ disconnect c
      | succeeded bytes ↦ next_write (record c { write_queue = pop_front frame c.write_queue })
    ])
