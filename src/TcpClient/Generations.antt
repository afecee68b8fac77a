-- ===== src/TcpClient/Generations.antt =====
-- The generations of the connection of src/client/tcp_client.h over a history.
use space_shooter_c.Prelude.{
  ℕ, suc, ◌+◌, ◌^◌, ◌%◌, ◌≤◌, ◌<◌, ◌≡◌, refl, subst, sym, ap, true, false, none, List, ◌∷◌, ◌++◌,
  arith, length,
}
use space_shooter_c.FrameCodec.{decode}
use space_shooter_c.FrameCodec.Callbacks.{decode-preserves}
use space_shooter_c.TcpClient.Callbacks.{apply_call-strand}
use space_shooter_c.TcpClient.Histories.{Kept, run-bounded}
use space_shooter_c.TcpClient.Operations.{tally, each}
use space_shooter_c.TcpClient.{
  Call, answered, heard, ended, Application, ClientTask, connect_task, send_task, disconnect_task,
  Operation, resolving, connecting, reading, writing, Outcome, failed, succeeded, ClientMove,
  TcpClient, new_client, OutFrame, disconnect, apply_call, do_read, do_write, enqueue_write,
  next_write, on_written,
}
use space_shooter_c.TcpClient.Handlers.{
  closed, answer_pending, fail_connect, start_connect, on_resolved, on_connected, on_frame,
  after_decode, on_read, close_connection, run_task, complete, run,
}
use space_shooter_c.TcpClient.Live.{Live, call-Live, extract-Live, enqueue-Live, on_written-Live}
use space_shooter_c.TcpClient.Alive.{
  tell-same, answer-same, Good, start_connect-Good, on_resolved-Good, on_connected-Good,
  on_read-Good, close-Good,
}

module _ (app : Application) where
  -- Only the task of `disconnect` changes the generation.
  abbrev Same : TcpClient → TcpClient → Type 0
  Same c d = d.disconnect_generation ≡ c.disconnect_generation

  start_connect-Same : (j : ℕ) (c : TcpClient) → Same c (start_connect app j c)
  unfolding start_connect
  start_connect-Same j c = ground (arith, tell-same app (answered j false) c)

  enqueue-Same : (f : OutFrame) (c : TcpClient) → Same c (enqueue_write f c)
  unfolding enqueue_write do_write
  enqueue-Same f c = ground arith

  decode-Same :
      (bytes : List ℕ) (c : TcpClient) → Same c (decode (on_frame app) bytes (c, false)).state.0
  unfolding on_frame
  decode-Same bytes c =
      decode-preserves (on_frame app) (λ s. Same c s.0)
        (λ s p v. ground (arith, v, tell-same app (heard p) s.0)) bytes (c, false) refl

  complete-Same : (op : Operation) (o : Outcome) (c : TcpClient) → Same c (complete app op o c)
  unfolding complete on_resolved on_connected fail_connect on_read on_written after_decode
      next_write do_write do_read disconnect
  complete-Same (resolving g) failed c =
      ground (arith, answer-same app false (record c { is_connecting = false }))
  complete-Same (resolving g) (succeeded b) c =
      ground (arith, answer-same app false (record c { is_connecting = false }))
  complete-Same (connecting g) failed c =
      ground
        (arith, answer-same app false (record c { is_connecting = false; is_connected = false }))
  complete-Same (connecting g) (succeeded b) c = ground (
    arith,
    answer-same app false (record c { is_connecting = false; is_connected = false }),
    answer-same app true (record c { is_connecting = false; is_connected = true }),
  )
  complete-Same (reading g) failed c = ground arith
  complete-Same (reading g) (succeeded b) c = ground (arith, decode-Same (c.read_buffer ++ b) c)
  complete-Same (writing g f) failed c = ground arith
  complete-Same (writing g f) (succeeded b) c = ground arith

  close-generation :
      (c : TcpClient)
      → (close_connection app c).disconnect_generation ≡ (c.disconnect_generation + 1) % 2 ^ 64
  unfolding close_connection
  close-generation c = ground (
    arith,
    answer-same app false (closed c),
    tell-same app ended (answer_pending app false (closed c)),
    tell-same app ended (record (closed c) { pending_connect_callback = none }),
  )

  call-Same : (x : Call) (c : TcpClient) → Same c (apply_call x c)
  call-Same x c = ap (λ (d : TcpClient). d.disconnect_generation) (apply_call-strand x c)

  call-operations : (x : Call) (c : TcpClient) → (apply_call x c).operations ≡ c.operations
  call-operations x c = ap (λ (d : TcpClient). d.operations) (apply_call-strand x c)

  -- After `n` moves.
  abbrev pub Counted : ℕ → TcpClient → Type 0
  Counted n c = (c.disconnect_generation ≤ n) × Good app c

  run_task-Counted :
      (n : ℕ) (t : ClientTask) (c : TcpClient)
      → suc n < 2 ^ 64
      → Counted n c
      → Counted (suc n) (run_task app t c)
  unfolding run_task
  run_task-Counted n (connect_task j) c h v =
      (ground (arith, v, start_connect-Same j c), start_connect-Good app j c v.1)
  run_task-Counted n (send_task f) c h v =
      (ground (arith, v, enqueue-Same f c), enqueue-Live f c v.1)
  run_task-Counted n disconnect_task c h v =
      (ground (arith, v, h, close-generation c), close-Good app c (ground (arith, v, h)) v.1)

  complete-Good :
      (op : Operation) (o : Outcome) (c : TcpClient)
      → Live (op ∷ c.operations) c
      → Good app (complete app op o c)
  unfolding complete
  complete-Good (resolving g) o c v = on_resolved-Good app g o c v
  complete-Good (connecting g) o c v = on_connected-Good app g o c v
  complete-Good (reading g) o c v = on_read-Good app g o c v
  complete-Good (writing g f) o c v = on_written-Live g f o c v

  pub Counted-kept : (n : ℕ) → suc n < 2 ^ 64 → Kept app (Counted n) (Counted (suc n))
  Counted-kept n h = record {
    idle = λ c v. ground (arith, v);
    called = λ x c v. (
      ground (arith, v, call-Same x c),
      subst (λ ops. Live ops (apply_call x c)) (sym (call-operations x c))
          (call-Live c.operations x c v.1),
    );
    task_run =
        λ t ts c e v. run_task-Counted n t (record c { tasks = ts }) h (v.0, ground (arith, v));
    completed = λ k op rest o c e v. (
      ground (arith, v, complete-Same op o (record c { operations = rest })),
      complete-Good op o (record c { operations = rest })
          (ground (arith, extract-Live k op rest c e v.1)),
    );
  }

  -- After any history of fewer than 2 ^ 64 moves of a new client, whatever the application does: a
  -- connect that is under way has exactly one step pending in the present generation; a connection
  -- has at most one read pending, and exactly one unless its end was asked for; a pending write is
  -- of the first frame of the queue; and a client without a connection has nothing to write.
  pub run-Live :
      (moves : List ClientMove)
      → length moves < 2 ^ 64
      → let c = run app new_client moves in Live c.operations c
  unfolding tally each
  run-Live moves h =
      (run-bounded app Counted (2 ^ 64) Counted-kept moves 0 new_client (ground (arith, h))
        (ground arith, ground arith)).1
