-- ===== src/Session/Closing.antt =====
-- How often a session of src/server/session.cpp reports that its client left.
use space_shooter_c.Prelude.{
  ℕ, suc, ◌+◌, ◌-◌, ◌≡◌, refl, ◌∙◌, inl, inr, true, false, List, [], ◌∷◌, ◌++◌, arith,
  if◌then◌else◌, Result-cases,
}
use space_shooter_c.FrameCodec.{encode}
use space_shooter_c.FrameCodec.Callbacks.{decode-keeps}
use space_shooter_c.Events.{
  Event, network_message, send_packet, client_connected, player_join, client_disconnected,
  shot_message, ship_destroyed, player_move,
}
use space_shooter_c.Session.{
  Session, SessionTask, read_task, close_task, write_task, SessionMove, starts, closes, strand_runs,
  read_fails, write_done, write_fails, sends, bytes_arrive, on_frame, fresh_session, start, send,
  close, do_read, do_write, on_read, enqueue_write, on_read_error, on_written, on_write_error,
  close_socket, run_task, strand_step, step, run,
}

module _ {F : Type 0} where
  abbrev is_disconnect : Event F → ℕ
  is_disconnect (network_message i p) = 0
  is_disconnect (send_packet i p) = 0
  is_disconnect (client_connected i a) = 0
  is_disconnect (player_join i n) = 0
  is_disconnect (client_disconnected i) = 1
  is_disconnect (shot_message i) = 0
  is_disconnect (ship_destroyed i) = 0
  is_disconnect (player_move i a) = 0

  abbrev pub disconnects : List (Event F) → ℕ
  disconnects [] = 0
  disconnects (e ∷ es) = is_disconnect e + disconnects es

  disconnects-snoc :
      (es : List (Event F)) (e : Event F)
      → disconnects (es ++ e ∷ []) ≡ disconnects es + is_disconnect e
  disconnects-snoc [] e = omega arith
  disconnects-snoc (x ∷ es) e = omega (arith, disconnects-snoc es e)

abbrev pub close_tasks : List SessionTask → ℕ
close_tasks [] = 0
close_tasks (read_task ∷ ts) = close_tasks ts
close_tasks (close_task ∷ ts) = suc (close_tasks ts)
close_tasks (write_task p ∷ ts) = close_tasks ts

abbrev closings : SessionTask → ℕ
closings read_task = 0
closings close_task = 1
closings (write_task p) = 0

close_tasks-snoc :
    (ts : List SessionTask) (t : SessionTask)
    → close_tasks (ts ++ t ∷ []) ≡ close_tasks ts + closings t
close_tasks-snoc [] t = ground arith
close_tasks-snoc (read_task ∷ ts) t = close_tasks-snoc ts t
close_tasks-snoc (close_task ∷ ts) t = omega (arith, close_tasks-snoc ts t)
close_tasks-snoc (write_task p ∷ ts) t = close_tasks-snoc ts t

module _ {F : Type 0} where
  -- The session reported the end exactly once, or will, if it is closed; otherwise never.
  abbrev pub ClosedOnce : Session F → Type 0
  ClosedOnce s = disconnects s.published + close_tasks s.tasks ≡ (if s.closed then 1 else 0)

  close-ClosedOnce : (s : Session F) → ClosedOnce s → ClosedOnce (close s)
  unfolding close
  close-ClosedOnce s v = ground (arith, close_tasks-snoc s.tasks close_task)

  do_write-ClosedOnce : (s : Session F) → ClosedOnce s → ClosedOnce (do_write s)
  unfolding do_write
  do_write-ClosedOnce s v = go s.write_queue refl
    where
      go : (q : List (List ℕ)) → s.write_queue ≡ q → ClosedOnce (do_write s)
      go [] e = ground arith
      go (p ∷ rest) e = elim (Result-cases (encode p)) [
        | inl (f, fine) ↦ ground arith
        | inr (x, bad) ↦
            ground (arith, close-ClosedOnce (record s { write_queue = rest; is_writing = false }))
      ]

  on_read-ClosedOnce :
      (bytes : List ℕ) (s : Session F) → ClosedOnce s → ClosedOnce (on_read bytes s)
  unfolding on_read do_read
  on_read-ClosedOnce bytes s v = ground (
    arith,
    decode-keeps (on_frame s.id) disconnects
        (λ es p. disconnects-snoc es (network_message s.id p) ∙ omega arith)
        (s.read_buffer ++ bytes) s.published,
  )

  run_task-ClosedOnce :
      (t : SessionTask) (s : Session F)
      → ClosedOnce (record s { tasks = t ∷ s.tasks })
      → ClosedOnce (run_task t s)
  unfolding run_task do_read close_socket enqueue_write
  run_task-ClosedOnce read_task s v = ground arith
  run_task-ClosedOnce close_task s v =
      ground (arith, disconnects-snoc s.published (client_disconnected s.id))
  run_task-ClosedOnce (write_task p) s v = ground (
    arith,
    do_write-ClosedOnce (record s { write_queue = s.write_queue ++ p ∷ []; is_writing = true }),
  )

  strand-ClosedOnce : (s : Session F) → ClosedOnce s → ClosedOnce (strand_step s)
  unfolding strand_step
  strand-ClosedOnce s v = go s.tasks refl
    where
      go : (ts : List SessionTask) → s.tasks ≡ ts → ClosedOnce (strand_step s)
      go [] e = ground arith
      go (t ∷ ts) e = ground (arith, run_task-ClosedOnce t (record s { tasks = ts }))

  step-ClosedOnce : (s : Session F) (move : SessionMove) → ClosedOnce s → ClosedOnce (step s move)
  unfolding step start send on_read_error on_written on_write_error
  step-ClosedOnce s starts v = ground (arith, close_tasks-snoc s.tasks read_task)
  step-ClosedOnce s closes v = close-ClosedOnce s v
  step-ClosedOnce s strand_runs v = strand-ClosedOnce s v
  step-ClosedOnce s read_fails v = ground (arith, close-ClosedOnce (record s { reading = false }))
  step-ClosedOnce s write_done v =
      ground (arith, do_write-ClosedOnce (record s { writes_pending = s.writes_pending - 1 }))
  step-ClosedOnce s write_fails v = ground (
    arith,
    close-ClosedOnce (record s { writes_pending = s.writes_pending - 1; is_writing = false }),
  )
  step-ClosedOnce s (sends p) v = ground (arith, close_tasks-snoc s.tasks (write_task p))
  step-ClosedOnce s (bytes_arrive bytes) v = on_read-ClosedOnce bytes s v

  run-ClosedOnce :
      (moves : List SessionMove) (s : Session F) → ClosedOnce s → ClosedOnce (run s moves)
  unfolding run
  run-ClosedOnce [] s v = v
  run-ClosedOnce (m ∷ ms) s v = run-ClosedOnce ms (step s m) (step-ClosedOnce s m v)

-- Whatever calls and ends of reads and writes happen to a new session, in whatever order: it reports
-- the end of its client once, now or by the task that still waits, if it was closed, and never if it
-- was not.
pub closes_once :
    (F : Type 0) (id : ℕ) (moves : List SessionMove)
    → let s = run {F = F} (fresh_session id) moves in
      disconnects s.published + close_tasks s.tasks ≡ (if s.closed then 1 else 0)
closes_once F id moves = run-ClosedOnce moves (fresh_session id) refl
