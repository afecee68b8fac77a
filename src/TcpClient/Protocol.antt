-- ===== src/TcpClient/Protocol.antt =====
-- The order of the callbacks of src/client/tcp_client.cpp.
use space_shooter_c.Prelude.{
  ℕ, ◌≡◌, refl, ap, ◌∙◌, inl, inr, Bool, true, false, none, some, List, [], ◌∷◌, ◌++◌, arith,
  Option-cases, Bool-cases,
}
use space_shooter_c.FrameCodec.{decode, Exit, returned, thrown}
use space_shooter_c.FrameCodec.Callbacks.{decode-preserves}
use space_shooter_c.TcpClient.Callbacks.{apply_calls-preserves, tell-strand}
use space_shooter_c.TcpClient.Histories.{Kept, run-kept}
use space_shooter_c.TcpClient.{
  disconnect_call, Note, answered, heard, ended, Application, ClientTask, connect_task, send_task,
  disconnect_task, Operation, resolving, connecting, reading, writing, Outcome, failed, succeeded,
  ClientMove, TcpClient, new_client, OutFrame, note, apply_call, do_read, do_write, enqueue_write,
  pop_front, next_write, on_written,
}
use space_shooter_c.TcpClient.Handlers.{
  closed, tell, invoke_connect_callback, answer_pending, fail_connect, start_connect, on_resolved,
  on_connected, on_frame, after_decode, on_read, close_connection, run_task, complete, run,
}
use space_shooter_c.TcpClient.Phases.{
  Phase, phase_step, phase_after, phase_after-snoc, phase_of, InPhase, Flags, Agrees,
  apply_call-Agrees, down, up,
}

module _ (app : Application) where
  tell-Agrees :
      (n : Note) (p : Phase) (c : TcpClient)
      → InPhase p c
      → phase_step p n ≡ some (phase_of c)
      → Flags c
      → Agrees (tell app n c)
  unfolding tell phase_of
  tell-Agrees n p c v e fl =
      apply_calls-preserves Agrees apply_call-Agrees (app.reacts (c.trace ++ n ∷ [])) (note n c)
        (phase_after-snoc down c.trace n p v ∙ e, fl)

  refused-Agrees : (j : ℕ) (c : TcpClient) → Agrees c → Agrees (tell app (answered j false) c)
  unfolding phase_step
  refused-Agrees j c v = tell-Agrees (answered j false) (phase_of c) c v.0 (ground arith) v.1

  answer-Agrees :
      (c : TcpClient)
      → InPhase (phase_of c) c
      → c.is_connecting ≡ false
      → Agrees (answer_pending app false c)
  unfolding answer_pending invoke_connect_callback phase_of
  answer-Agrees c v i =
      let emptied = record c { pending_connect_callback = none } in
      elim (Option-cases c.pending_connect_callback) [
        | inl e ↦ ground (arith, v, i, e)
        | inr (j, e) ↦ ground (arith, v, i, e, refused-Agrees j emptied)
      ]

  start_connect-Agrees : (j : ℕ) (c : TcpClient) → Agrees c → Agrees (start_connect app j c)
  unfolding start_connect phase_of
  start_connect-Agrees j c v = ground (arith, v, refused-Agrees j c v)

  on_resolved-Agrees :
      (g : ℕ) (o : Outcome) (c : TcpClient) → Agrees c → Agrees (on_resolved app g o c)
  unfolding on_resolved phase_of
  on_resolved-Agrees g failed c v =
      ground (arith, v, answer-Agrees (record c { is_connecting = false }))
  on_resolved-Agrees g (succeeded b) c v =
      ground (arith, v, answer-Agrees (record c { is_connecting = false }))

  do_read-Agrees : (c : TcpClient) → Agrees c → Agrees (do_read c)
  unfolding do_read phase_of
  do_read-Agrees c v = ground (arith, v)

  -- A connect that succeeded.
  connected-Agrees :
      (c : TcpClient)
      → Agrees c
      → c.is_connecting ≡ true
      → c.disconnect_requested ≡ false
      → Agrees (answer_pending app true (record c { is_connecting = false; is_connected = true }))
  unfolding answer_pending invoke_connect_callback phase_of phase_step
  connected-Agrees c v i r =
      let open_client = record c {
        is_connecting = false;
        is_connected = true;
        pending_connect_callback = none;
      } in
      elim (Option-cases c.pending_connect_callback) [
        | inl e ↦ absurd (ground (arith, v, i, e))
        | inr (j, e) ↦ rw (e) (
            tell-Agrees (answered j true) down open_client (ground (arith, v, i))
              (ground (arith, r)) (ground (arith)))
      ]

  on_connected-Agrees :
      (g : ℕ) (o : Outcome) (c : TcpClient) → Agrees c → Agrees (on_connected app g o c)
  unfolding on_connected fail_connect phase_of
  on_connected-Agrees g failed c v =
      ground (arith, v, answer-Agrees (record c { is_connecting = false; is_connected = false }))
  on_connected-Agrees g (succeeded b) c v = ground (
    arith,
    v,
    answer-Agrees (record c { is_connecting = false; is_connected = false }),
    do_read-Agrees
        (answer_pending app true (record c { is_connecting = false; is_connected = true })),
    connected-Agrees c v,
  )

  abbrev Dispatching : TcpClient × Bool → Type 0
  Dispatching (c, stop) = Agrees c × (c.is_connected ≡ true)

  on_frame-Dispatching :
      (s : TcpClient × Bool) (p : List ℕ) → Dispatching s → Dispatching (on_frame app s p).0
  unfolding on_frame phase_of phase_step
  on_frame-Dispatching (c, stop) p v =
      let same = ap (λ (d : TcpClient). d.is_connected) (tell-strand app (heard p) c) in
      ground (arith, v, same, tell-Agrees (heard p) up c)

  after_decode-Agrees :
      (x : Exit (Unit {0})) (c : TcpClient) → Agrees c → Agrees (after_decode app x c)
  unfolding after_decode apply_call
  after_decode-Agrees (thrown x) c v = apply_call-Agrees disconnect_call c v
  after_decode-Agrees (returned n) c v = ground (arith, v, do_read-Agrees c v)

  on_read-Agrees : (g : ℕ) (o : Outcome) (c : TcpClient) → Agrees c → Agrees (on_read app g o c)
  unfolding on_read apply_call phase_of
  on_read-Agrees g failed c v = ground (arith, v, apply_call-Agrees disconnect_call c v)
  on_read-Agrees g (succeeded b) c v =
      let d = decode (on_frame app) (c.read_buffer ++ b) (c, false) in
      let read = record d.state.0 { read_buffer = d.buffer } in
      elim (Bool-cases c.is_connected) [
        | inl t ↦
            let kept =
              decode-preserves (on_frame app) Dispatching on_frame-Dispatching (c.read_buffer ++ b)
                (c, false) (v, t) in
            ground (arith, v, t, after_decode-Agrees d.exit read kept.0)
        | inr f ↦ ground (arith, v, f)
      ]

  -- What leaves the trace and the flags of the connection alone.
  do_write-Agrees : (c : TcpClient) → Agrees c → Agrees (do_write c)
  unfolding do_write phase_of
  do_write-Agrees c v = ground (arith, v)

  enqueue-Agrees : (f : OutFrame) (c : TcpClient) → Agrees c → Agrees (enqueue_write f c)
  unfolding enqueue_write phase_of
  enqueue-Agrees f c v =
      ground (arith, v, do_write-Agrees (record c { write_queue = c.write_queue ++ f ∷ [] }))

  on_written-Agrees :
      (g : ℕ) (f : OutFrame) (o : Outcome) (c : TcpClient) → Agrees c → Agrees (on_written g f o c)
  unfolding on_written next_write apply_call phase_of
  on_written-Agrees g f failed c v = ground (arith, v, apply_call-Agrees disconnect_call c v)
  on_written-Agrees g f (succeeded b) c v =
      ground (arith, v, do_write-Agrees (record c { write_queue = pop_front f c.write_queue }))

  close-Agrees : (c : TcpClient) → Agrees c → Agrees (close_connection app c)
  unfolding close_connection phase_of phase_step
  close-Agrees c v = ground (
    arith,
    v,
    answer-Agrees (closed c),
    tell-Agrees ended (phase_of c) (record (closed c) { pending_connect_callback = none }),
  )

  run_task-Agrees : (t : ClientTask) (c : TcpClient) → Agrees c → Agrees (run_task app t c)
  unfolding run_task
  run_task-Agrees (connect_task j) c v = start_connect-Agrees j c v
  run_task-Agrees (send_task f) c v = enqueue-Agrees f c v
  run_task-Agrees disconnect_task c v = close-Agrees c v

  complete-Agrees :
      (op : Operation) (o : Outcome) (c : TcpClient) → Agrees c → Agrees (complete app op o c)
  unfolding complete
  complete-Agrees (resolving g) o c v = on_resolved-Agrees g o c v
  complete-Agrees (connecting g) o c v = on_connected-Agrees g o c v
  complete-Agrees (reading g) o c v = on_read-Agrees g o c v
  complete-Agrees (writing g f) o c v = on_written-Agrees g f o c v

  Agrees-kept : Kept app Agrees Agrees
  unfolding phase_of
  Agrees-kept = record {
    idle = λ c v. v;
    called = apply_call-Agrees;
    task_run = λ t ts c e v. run_task-Agrees t (record c { tasks = ts }) v;
    completed = λ n op rest o c e v. complete-Agrees op o (record c { operations = rest }) v;
  }

-- Whatever the application, its callbacks and the network do to a new client, in whatever order:
-- the calls and callbacks follow the phases of the connection, and the client's flags say in which
-- phase it is. A message comes only between the success of a connect and the call of disconnect, or
-- the end; and after each success there is at most one end, before the next.
pub trace_in_order :
    (app : Application) (moves : List ClientMove)
    → let c = run app new_client moves in phase_after down c.trace ≡ some (phase_of c)
unfolding phase_after phase_of
trace_in_order app moves =
    (run-kept app Agrees (Agrees-kept app) moves new_client
      (refl, (refl, λ e. absurd (ground arith)))).0
