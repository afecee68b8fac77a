-- ===== src/TcpClient/Answers.antt =====
-- The answers of src/client/tcp_client.cpp to the calls of `connect`.
use space_shooter_c.Prelude.{
  ℕ, ◌+◌, ◌^◌, ◌<◌, ◌≡◌, refl, inl, inr, Bool, true, false, none, List, [], ◌∷◌, ◌++◌, arith,
  if◌then◌else◌, ◌==◌, length, Option-cases,
}
use space_shooter_c.FrameCodec.{Exit, returned, thrown, decode}
use space_shooter_c.FrameCodec.Callbacks.{decode-preserves}
use space_shooter_c.TcpClient.Callbacks.{apply_calls-preserves}
use space_shooter_c.TcpClient.Histories.{Kept, run-kept}
use space_shooter_c.TcpClient.Operations.{tally}
use space_shooter_c.TcpClient.Generations.{run-Live}
use space_shooter_c.TcpClient.{
  disconnect_call, Note, answered, heard, ended, Application, ClientTask, connect_task, send_task,
  disconnect_task, Operation, resolving, connecting, reading, writing, Outcome, failed, succeeded,
  ClientMove, TcpClient, new_client, OutFrame, note, apply_call, do_read, do_write, enqueue_write,
  next_write, on_written,
}
use space_shooter_c.TcpClient.Handlers.{
  closed, tell, invoke_connect_callback, answer_pending, fail_connect, start_connect, on_resolved,
  on_connected, on_frame, after_decode, on_read, close_connection, run_task, complete, run,
}
use space_shooter_c.TcpClient.Owing.{
  times_asked, times_answered, times_posted, times_pending, times_asked-snoc, times_answered-snoc,
  Balance, Owes, call-Owes,
}

module _ (app : Application) (j : ℕ) where
  tell-Owes :
      (n : Note) (c : TcpClient)
      → times_asked j (n ∷ []) ≡ 0
      → Balance j (times_answered j (n ∷ [])) c
      → (c.is_connecting ≡ false → c.pending_connect_callback ≡ none)
      → Owes j (tell app n c)
  unfolding tell
  tell-Owes n c a v f =
      apply_calls-preserves (Owes j) (call-Owes j) (app.reacts (c.trace ++ n ∷ [])) (note n c)
        (ground (arith, a, v, f, times_asked-snoc j c.trace n, times_answered-snoc j c.trace n))

  answer-Owes : (b : Bool) (c : TcpClient) → Balance j 0 c → Owes j (answer_pending app b c)
  unfolding answer_pending invoke_connect_callback times_asked times_answered
  answer-Owes b c v =
      let emptied = record c { pending_connect_callback = none } in
      elim (Option-cases c.pending_connect_callback) [
        | inl e ↦ ground (arith, v, e)
        | inr (k, e) ↦
            rw e
              (tell-Owes (answered k b) emptied (ground arith) (ground (arith, v, e)) (λ x. refl))
      ]

  start_connect-Owes :
      (k : ℕ) (c : TcpClient)
      → Balance j (if k == j then 1 else 0) c
      → (c.is_connecting ≡ false → c.pending_connect_callback ≡ none)
      → Owes j (start_connect app k c)
  unfolding start_connect times_asked times_answered
  start_connect-Owes k c v f = ground (arith, v, f, tell-Owes (answered k false) c)

  on_resolved-Owes :
      (g : ℕ) (o : Outcome) (c : TcpClient) → Owes j c → Owes j (on_resolved app g o c)
  unfolding on_resolved
  on_resolved-Owes g failed c v =
      ground (arith, v, answer-Owes false (record c { is_connecting = false }))
  on_resolved-Owes g (succeeded b) c v =
      ground (arith, v, answer-Owes false (record c { is_connecting = false }))

  on_connected-Owes :
      (g : ℕ) (o : Outcome) (c : TcpClient) → Owes j c → Owes j (on_connected app g o c)
  unfolding on_connected fail_connect do_read
  on_connected-Owes g failed c v =
      ground
        (arith, v, answer-Owes false (record c { is_connecting = false; is_connected = false }))
  on_connected-Owes g (succeeded b) c v = ground (
    arith,
    v,
    answer-Owes false (record c { is_connecting = false; is_connected = false }),
    answer-Owes true (record c { is_connecting = false; is_connected = true }),
  )

  decode-Owes :
      (bytes : List ℕ) (c : TcpClient)
      → Owes j c
      → Owes j (decode (on_frame app) bytes (c, false)).state.0
  unfolding on_frame times_asked times_answered
  decode-Owes bytes c v =
      decode-preserves (on_frame app) (λ s. Owes j s.0)
        (λ s p w. ground (arith, w, tell-Owes (heard p) s.0)) bytes (c, false) v

  after_decode-Owes :
      (x : Exit (Unit {0})) (c : TcpClient) → Owes j c → Owes j (after_decode app x c)
  unfolding after_decode do_read apply_call
  after_decode-Owes (thrown x) c v = call-Owes j disconnect_call c v
  after_decode-Owes (returned n) c v = ground (arith, v)

  on_read-Owes : (g : ℕ) (o : Outcome) (c : TcpClient) → Owes j c → Owes j (on_read app g o c)
  unfolding on_read apply_call
  on_read-Owes g failed c v = ground (arith, v, call-Owes j disconnect_call c v)
  on_read-Owes g (succeeded b) c v =
      let d = decode (on_frame app) (c.read_buffer ++ b) (c, false) in
      ground (
        arith,
        v,
        after_decode-Owes d.exit (record d.state.0 { read_buffer = d.buffer }),
        decode-Owes (c.read_buffer ++ b) c v,
      )

  on_written-Owes :
      (g : ℕ) (f : OutFrame) (o : Outcome) (c : TcpClient) → Owes j c → Owes j (on_written g f o c)
  unfolding on_written next_write do_write apply_call
  on_written-Owes g f failed c v = ground (arith, v, call-Owes j disconnect_call c v)
  on_written-Owes g f (succeeded b) c v = ground (arith, v)

  complete-Owes :
      (op : Operation) (o : Outcome) (c : TcpClient) → Owes j c → Owes j (complete app op o c)
  unfolding complete
  complete-Owes (resolving g) o c v = on_resolved-Owes g o c v
  complete-Owes (connecting g) o c v = on_connected-Owes g o c v
  complete-Owes (reading g) o c v = on_read-Owes g o c v
  complete-Owes (writing g f) o c v = on_written-Owes g f o c v

  close-Owes : (c : TcpClient) → Owes j c → Owes j (close_connection app c)
  unfolding close_connection times_asked times_answered
  close-Owes c v = ground (
    arith,
    v,
    answer-Owes false (closed c),
    tell-Owes ended (answer_pending app false (closed c)),
    tell-Owes ended (record (closed c) { pending_connect_callback = none }),
  )

  run_task-Owes :
      (t : ClientTask) (ts : List ClientTask) (c : TcpClient)
      → c.tasks ≡ t ∷ ts
      → Owes j c
      → Owes j (run_task app t (record c { tasks = ts }))
  unfolding run_task times_posted enqueue_write do_write
  run_task-Owes (connect_task k) ts c e v =
      start_connect-Owes k (record c { tasks = ts }) (ground (arith, e, v)) v.1
  run_task-Owes (send_task f) ts c e v = ground (arith, e, v)
  run_task-Owes disconnect_task ts c e v =
      close-Owes (record c { tasks = ts }) (ground (arith, e, v))

  Owes-kept : Kept app (Owes j) (Owes j)
  Owes-kept = record {
    idle = λ c v. v;
    called = call-Owes j;
    task_run = run_task-Owes;
    completed = λ n op rest o c e v. complete-Owes op o (record c { operations = rest }) v;
  }

-- Whatever the application, its callbacks and the network do to a new client, in fewer than 2 ^ 64
-- moves: the callback of a connect was invoked as often as connect was called with it, but for the
-- calls whose task waits and the one connect that is under way; and when the strand has no task and
-- no operation is pending, every connect has its answer.
pub answers_once :
    (app : Application) (moves : List ClientMove)
    → length moves < 2 ^ 64
    → let c = run app new_client moves in
      ((j : ℕ)
        → times_asked j c.trace
          ≡ times_answered j c.trace
            + times_pending j c.pending_connect_callback
            + times_posted j c.tasks)
      × (c.tasks ≡ []
          → c.operations ≡ []
          → (j : ℕ) → times_asked j c.trace ≡ times_answered j c.trace)
unfolding times_asked times_answered times_posted tally
answers_once app moves h =
    let c = run app new_client moves in
    let kept : (j : ℕ) → Owes j c =
      λ j. run-kept app (Owes j) (Owes-kept app j) moves new_client (ground arith, λ x. refl) in
    let live = run-Live app moves h in
    (λ j. ground (arith, kept j), λ t o j. ground (arith, t, o, kept j, live))
