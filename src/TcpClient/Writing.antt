-- ===== src/TcpClient/Writing.antt =====
-- What src/client/tcp_client.cpp writes to its sockets.
use space_shooter_c.Prelude.{
  ℕ, suc, ◌^◌, ◌≤◌, ◌<◌, ◌≡◌, refl, subst, inl, inr, Bool, true, false, none, List, [], ◌∷◌, ◌++◌,
  arith, append_assoc, length, Option-cases,
}
use space_shooter_c.FrameCodec.{Exit, returned, thrown, decode}
use space_shooter_c.FrameCodec.Callbacks.{decode-preserves}
use space_shooter_c.TcpClient.Callbacks.{apply_calls-preserves}
use space_shooter_c.TcpClient.Histories.{Kept, run-bounded}
use space_shooter_c.TcpClient.Operations.{write_in, tally, each}
use space_shooter_c.TcpClient.Live.{Live, extract-Live}
use space_shooter_c.TcpClient.Generations.{Counted, Counted-kept}
use space_shooter_c.TcpClient.Picking.{
  Picked, nothing, Picked-front, offers, posted, waiting, InTurn, InTurn-same, note-InTurn,
  call-InTurn,
}
use space_shooter_c.TcpClient.{
  disconnect_call, Note, answered, heard, ended, Application, ClientTask, connect_task, send_task,
  disconnect_task, Operation, resolving, connecting, reading, writing, Outcome, failed, succeeded,
  ClientMove, TcpClient, new_client, note, apply_call, do_read, on_written,
}
use space_shooter_c.TcpClient.Handlers.{
  closed, tell, invoke_connect_callback, answer_pending, fail_connect, start_connect, on_resolved,
  on_connected, on_frame, after_decode, on_read, close_connection, run_task, complete, run,
}
use space_shooter_c.TcpClient.Sending.{drop_waiting, enqueue-InTurn, on_written-flow}

module _ (app : Application) where
  tell-InTurn : (n : Note) (c : TcpClient) → offers (n ∷ []) ≡ [] → InTurn c → InTurn (tell app n c)
  unfolding tell
  tell-InTurn n c e v =
      apply_calls-preserves InTurn call-InTurn (app.reacts (c.trace ++ n ∷ [])) (note n c)
        (note-InTurn n c e v)

  answer-InTurn : (b : Bool) (c : TcpClient) → InTurn c → InTurn (answer_pending app b c)
  unfolding answer_pending invoke_connect_callback
  answer-InTurn b c v =
      let emptied = record c { pending_connect_callback = none } in
      elim (Option-cases c.pending_connect_callback) [
        | inl e ↦ rw e v
        | inr (k, e) ↦ rw e (tell-InTurn (answered k b) emptied refl v)
      ]

  start_connect-InTurn : (k : ℕ) (c : TcpClient) → InTurn c → InTurn (start_connect app k c)
  unfolding start_connect
  start_connect-InTurn k c v = ground (arith, v, tell-InTurn (answered k false) c refl v)

  on_resolved-InTurn :
      (g : ℕ) (o : Outcome) (c : TcpClient) → InTurn c → InTurn (on_resolved app g o c)
  unfolding on_resolved
  on_resolved-InTurn g failed c v =
      ground (arith, v, answer-InTurn false (record c { is_connecting = false }) v)
  on_resolved-InTurn g (succeeded b) c v =
      ground (arith, v, answer-InTurn false (record c { is_connecting = false }) v)

  on_connected-InTurn :
      (g : ℕ) (o : Outcome) (c : TcpClient) → InTurn c → InTurn (on_connected app g o c)
  unfolding on_connected fail_connect do_read
  on_connected-InTurn g failed c v =
      ground
        (arith, v, answer-InTurn false (record c { is_connecting = false; is_connected = false }) v)
  on_connected-InTurn g (succeeded b) c v = ground (
    arith,
    v,
    answer-InTurn false (record c { is_connecting = false; is_connected = false }) v,
    answer-InTurn true (record c { is_connecting = false; is_connected = true }) v,
  )

  decode-InTurn :
      (bytes : List ℕ) (c : TcpClient)
      → InTurn c
      → InTurn (decode (on_frame app) bytes (c, false)).state.0
  unfolding on_frame
  decode-InTurn bytes c v =
      decode-preserves (on_frame app) (λ s. InTurn s.0)
        (λ s p w. ground (arith, w, tell-InTurn (heard p) s.0 refl w)) bytes (c, false) v

  after_decode-InTurn :
      (x : Exit (Unit {0})) (c : TcpClient) → InTurn c → InTurn (after_decode app x c)
  unfolding after_decode do_read apply_call
  after_decode-InTurn (thrown x) c v = call-InTurn disconnect_call c v
  after_decode-InTurn (returned n) c v = ground (arith, v)

  on_read-InTurn : (g : ℕ) (o : Outcome) (c : TcpClient) → InTurn c → InTurn (on_read app g o c)
  unfolding on_read apply_call
  on_read-InTurn g failed c v = ground (arith, v, call-InTurn disconnect_call c v)
  on_read-InTurn g (succeeded b) c v =
      let d = decode (on_frame app) (c.read_buffer ++ b) (c, false) in
      let read = record d.state.0 { read_buffer = d.buffer } in
      ground (arith, v, after_decode-InTurn d.exit read (decode-InTurn (c.read_buffer ++ b) c v))

  complete-InTurn :
      (op : Operation) (o : Outcome) (c : TcpClient)
      → Live (op ∷ c.operations) c
      → InTurn c
      → InTurn (complete app op o c)
  unfolding complete
  complete-InTurn (resolving g) o c l v = on_resolved-InTurn g o c v
  complete-InTurn (connecting g) o c l v = on_connected-InTurn g o c v
  complete-InTurn (reading g) o c l v = on_read-InTurn g o c v
  complete-InTurn (writing g f) o c l v =
      InTurn-same c (on_written g f o c) (on_written-flow g f o c l) v

  -- A closed connection drops what waits in the queue.
  close-InTurn : (c : TcpClient) → InTurn c → InTurn (close_connection app c)
  unfolding close_connection
  close-InTurn c v =
      let dropped : InTurn (closed c) =
        drop_waiting c.handed (waiting c.is_writing c.write_queue) (posted c.tasks) (offers c.trace)
          v in
      let answered_client = answer-InTurn false (closed c) dropped in
      ground (
        arith,
        v,
        dropped,
        answered_client,
        tell-InTurn ended (answer_pending app false (closed c)) refl answered_client,
        tell-InTurn ended (record (closed c) { pending_connect_callback = none }) refl dropped,
      )

  run_task-InTurn :
      (t : ClientTask) (ts : List ClientTask) (c : TcpClient)
      → c.tasks ≡ t ∷ ts
      → Live c.operations c
      → InTurn c
      → InTurn (run_task app t (record c { tasks = ts }))
  unfolding run_task
  run_task-InTurn (connect_task k) ts c e l v =
      start_connect-InTurn k (record c { tasks = ts })
        (InTurn-same c (record c { tasks = ts }) (ground (arith, e), refl) v)
  run_task-InTurn (send_task f) ts c e l v = enqueue-InTurn f ts c e l v
  run_task-InTurn disconnect_task ts c e l v =
      close-InTurn (record c { tasks = ts })
        (InTurn-same c (record c { tasks = ts }) (ground (arith, e), refl) v)

  abbrev Writes : ℕ → TcpClient → Type 0
  Writes n c = Counted app n c × InTurn c

  Writes-kept : (n : ℕ) → suc n < 2 ^ 64 → Kept app (Writes n) (Writes (suc n))
  Writes-kept n h =
      let k = Counted-kept app n h in
      record {
        idle = λ c v. (k.idle c v.0, v.1);
        called = λ x c v. (k.called x c v.0, call-InTurn x c v.1);
        task_run = λ t ts c e v. (k.task_run t ts c e v.0, run_task-InTurn t ts c e v.0.1 v.1);
        completed = λ i op rest o c e v. (
          k.completed i op rest o c e v.0,
          complete-InTurn op o (record c { operations = rest })
              (ground (arith, extract-Live i op rest c e v.0.1)) v.1,
        );
      }

-- Whatever the application, its callbacks and the network do to a new client, in fewer than 2 ^ 64
-- moves: the frames that were handed to async_write are those of some of the payloads of `send`, each
-- at most once and in the order of the calls; at most one write of the present connection is under
-- way; and a client whose end was not asked for has a write under way or nothing left to write.
pub writes_in_turn :
    (app : Application) (moves : List ClientMove)
    → length moves < 2 ^ 64
    → let c = run app new_client moves in
      let writes = tally (write_in c.disconnect_generation) c.operations in
      Picked c.handed (offers c.trace)
      × (writes ≤ 1)
      × (c.disconnect_requested ≡ false → writes ≡ 0 → c.write_queue ≡ [])
unfolding tally each
writes_in_turn app moves h =
    let c = run app new_client moves in
    let ((bound, live), turn) =
      run-bounded app (Writes app) (2 ^ 64) (Writes-kept app) moves 0 new_client (ground (arith, h))
        ((ground arith, ground arith), nothing) in
    (
      Picked-front c.handed (waiting c.is_writing c.write_queue ++ posted c.tasks) (offers c.trace)
          (subst (λ fs. Picked fs (offers c.trace))
            (append_assoc c.handed (waiting c.is_writing c.write_queue) (posted c.tasks)) turn),
      ground (arith, live),
      λ r w. ground (arith, live, r, w),
    )
