-- ===== src/TcpClient/Handlers.antt =====
-- The tasks and handlers of src/client/tcp_client.cpp that invoke callbacks of the application, and
-- the moves of the client.
use space_shooter_c.Prelude.{
  ℕ, zero, suc, ◌+◌, ◌^◌, ◌%◌, Bool, true, false, not, ◌||◌, Option, none, some, List, [], ◌∷◌,
  ◌++◌, if◌then◌else◌,
}
use space_shooter_c.FrameCodec.{decode, Exit, returned, thrown}
use space_shooter_c.TcpClient.{
  Note, answered, heard, ended, Application, ClientTask, connect_task, send_task, disconnect_task,
  Operation, writing, Outcome, failed, succeeded, ClientMove, calls, strand_runs, completes,
  TcpClient, note, initiate, disconnect, apply_call, apply_calls, is_valid_generation, is_stopped,
  do_read, enqueue_write, on_written, answered, heard, ended, connect_task, send_task,
  disconnect_task, resolving, connecting, reading, writing, failed, succeeded, calls, strand_runs,
  completes,
}

-- A client after its connection was closed: the generation goes on, and the buffers are empty.
abbrev pub closed : TcpClient → TcpClient
closed c = record c {
  disconnect_generation = (c.disconnect_generation + 1) % 2 ^ 64;
  is_connected = false;
  is_connecting = false;
  read_buffer = [];
  write_queue = [];
  is_writing = false;
}

-- The n-th element of a list, and the others.
abbrev pub extract {ℓ} : {A : Type ℓ} → ℕ → List A → Option (A × List A)
extract n [] = none
extract zero (x ∷ xs) = some (x, xs)
extract (suc n) (x ∷ xs) = elim (extract n xs) [ none ↦ none | some (y, ys) ↦ some (y, x ∷ ys) ]

module _ (app : Application) where
  -- A callback of the application: it hears the note, and calls the client.
  unfoldable pub tell : Note → TcpClient → TcpClient
  unfolding apply_calls
  tell n c = apply_calls (app.reacts (c.trace ++ n ∷ [])) (note n c)

  unfoldable pub invoke_connect_callback : Option ℕ → Bool → TcpClient → TcpClient
  unfolding tell
  invoke_connect_callback none status c = c
  invoke_connect_callback (some callback) status c = tell (answered callback status) c

  -- The callback is moved out of the client and invoked.
  unfoldable pub answer_pending : Bool → TcpClient → TcpClient
  unfolding invoke_connect_callback
  answer_pending status c =
      invoke_connect_callback c.pending_connect_callback status
        (record c { pending_connect_callback = none })

  unfoldable pub fail_connect : TcpClient → TcpClient
  unfolding answer_pending
  fail_connect c = answer_pending false (record c { is_connecting = false; is_connected = false })

  -- The task of `connect`.
  unfoldable pub start_connect : ℕ → TcpClient → TcpClient
  unfolding tell
  start_connect callback c =
      let generation = c.disconnect_generation in
      if c.is_connected || c.is_connecting
      then tell (answered callback false) c
      else initiate (resolving generation) (record c {
        disconnect_requested = false;
        is_connecting = true;
        active_connect_generation = generation;
        pending_connect_callback = some callback;
      })

  -- The handler of async_resolve.
  unfoldable pub on_resolved : ℕ → Outcome → TcpClient → TcpClient
  unfolding answer_pending
  on_resolved generation outcome c =
      let gives_up = answer_pending false (record c { is_connecting = false }) in
      if not (is_valid_generation generation c) || not c.is_connecting
      then c
      else (if c.disconnect_requested then gives_up else (elim outcome [
        | failed ↦ gives_up
        | succeeded bytes ↦ initiate (connecting generation) c
      ]))

  -- The handler of async_connect.
  unfoldable pub on_connected : ℕ → Outcome → TcpClient → TcpClient
  unfolding fail_connect answer_pending do_read
  on_connected generation outcome c =
      if not (is_valid_generation generation c) || not c.is_connecting
      then c
      else (if c.disconnect_requested then fail_connect c else (elim outcome [
        | failed ↦ answer_pending false (record c { is_connecting = false; is_connected = false })
        | succeeded bytes ↦
            do_read (answer_pending true (record c { is_connecting = false; is_connected = true }))
      ]))

  -- The callback of the codec, with the flag `stop_dispatch`.
  unfoldable pub on_frame : TcpClient × Bool → List ℕ → (TcpClient × Bool) × Option (Unit {0})
  unfolding tell
  on_frame (c, stop) payload =
      let told = tell (heard payload) c in
      if stop || c.disconnect_requested
      then ((c, true), none)
      else (if app.throws (c.trace ++ heard payload ∷ [])
          then ((told, stop), some tt)
          else ((told, stop || told.disconnect_requested), none))

  -- What follows `decode` in the handler of async_read_some: an exception disconnects.
  unfoldable pub after_decode : Exit (Unit {0}) → TcpClient → TcpClient
  unfolding disconnect do_read
  after_decode (thrown x) c = disconnect c
  after_decode (returned n) c = if is_stopped c then c else do_read c

  unfoldable pub on_read : ℕ → Outcome → TcpClient → TcpClient
  unfolding disconnect after_decode
  on_read generation outcome c =
      let decode_from : List ℕ → TcpClient = λ bytes.
        let d = decode on_frame (c.read_buffer ++ bytes) (c, false) in
        after_decode d.exit (record d.state.0 { read_buffer = d.buffer }) in
      if not (is_valid_generation generation c) || is_stopped c
      then c
      else (elim outcome [ failed ↦ disconnect c | succeeded bytes ↦ decode_from bytes ])

  -- The task of `disconnect`.
  unfoldable pub close_connection : TcpClient → TcpClient
  unfolding tell answer_pending
  close_connection c =
      let later = record c {
        disconnect_generation = (c.disconnect_generation + 1) % 2 ^ 64;
        is_connected = false;
      } in
      let has_pending_writes : Bool = elim c.write_queue [ [] ↦ false | f ∷ fs ↦ true ] in
      let answered_connect =
        if c.is_connecting
        then answer_pending false (closed c)
        else record (closed c) { pending_connect_callback = none } in
      if not (c.is_connected || c.is_connecting || has_pending_writes || c.disconnect_requested)
      then later
      else (if c.is_connected then tell ended answered_connect else answered_connect)

  unfoldable pub run_task : ClientTask → TcpClient → TcpClient
  unfolding start_connect enqueue_write close_connection
  run_task (connect_task callback) c = start_connect callback c
  run_task (send_task frame) c = enqueue_write frame c
  run_task disconnect_task c = close_connection c

  unfoldable pub complete : Operation → Outcome → TcpClient → TcpClient
  unfolding on_resolved on_connected on_read on_written
  complete (resolving generation) outcome c = on_resolved generation outcome c
  complete (connecting generation) outcome c = on_connected generation outcome c
  complete (reading generation) outcome c = on_read generation outcome c
  complete (writing generation frame) outcome c = on_written generation frame outcome c

  -- The n-th pending operation ends.
  unfoldable pub complete_nth : ℕ → Outcome → TcpClient → TcpClient
  unfolding complete
  complete_nth n outcome c = elim (extract n c.operations) [
    | none ↦ c
    | some (operation, rest) ↦ complete operation outcome (record c { operations = rest })
  ]

  unfoldable pub strand_step : TcpClient → TcpClient
  unfolding run_task
  strand_step c = elim c.tasks [ [] ↦ c | task ∷ rest ↦ run_task task (record c { tasks = rest }) ]

  unfoldable pub step : TcpClient → ClientMove → TcpClient
  unfolding apply_call strand_step complete_nth
  step c (calls call) = apply_call call c
  step c strand_runs = strand_step c
  step c (completes n outcome) = complete_nth n outcome c

  unfoldable pub run : TcpClient → List ClientMove → TcpClient
  run c [] = c
  run c (move ∷ moves) = run (step c move) moves
