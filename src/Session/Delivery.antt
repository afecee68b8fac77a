-- ===== src/Session/Delivery.antt =====
-- The writes of src/server/session.cpp over a whole history.
use space_shooter_c.Prelude.{
  ℕ, ◌-◌, ◌≤◌, ◌≡◌, refl, ◌∙◌, inl, inr, true, false, List, [], ◌∷◌, ◌++◌, ok, arith, if◌then◌else◌,
  Result-cases,
}
use space_shooter_c.FrameCodec.{encode}
use space_shooter_c.FrameCodec.RoundTrip.{wire}
use space_shooter_c.Session.{
  Session, SessionTask, read_task, close_task, write_task, SessionMove, starts, closes, strand_runs,
  read_fails, write_done, write_fails, sends, bytes_arrive, fresh_session, start, send, close,
  do_read, do_write, on_read, enqueue_write, on_read_error, on_written, on_write_error,
  close_socket, run_task, strand_step, step, run,
}
use space_shooter_c.Session.Writing.{payloads, run-Writes}

module _ {F : Type 0} where
  -- One write is pending while the session says so, and else none; an open session that is not
  -- writing has nothing to write.
  abbrev OneWrite : Session F → Type 0
  OneWrite s =
      (s.writes_pending ≡ (if s.is_writing then 1 else 0))
      × (s.closed ≡ false → s.is_writing ≡ false → s.write_queue ≡ [])

  close-OneWrite :
      (s : Session F)
      → s.writes_pending ≡ (if s.is_writing then 1 else 0)
      → (s.closed ≡ true → OneWrite s)
      → OneWrite (close s)
  unfolding close
  close-OneWrite s p v = ground (arith, p, v)

  do_write-OneWrite :
      (s : Session F) → s.writes_pending ≡ 0 → s.is_writing ≡ true → OneWrite (do_write s)
  unfolding do_write close
  do_write-OneWrite s p b = go s.write_queue refl
    where
      go : (q : List (List ℕ)) → s.write_queue ≡ q → OneWrite (do_write s)
      go [] e = ground (arith, p, b, e)
      go (x ∷ q) e = elim (Result-cases (encode x)) [
        | inr (y, bad) ↦ ground (arith, p, b, e, bad)
        | inl (f, fine) ↦ ground (arith, p, b, e, fine)
      ]

  run_task-OneWrite : (t : SessionTask) (s : Session F) → OneWrite s → OneWrite (run_task t s)
  unfolding run_task do_read close_socket enqueue_write
  run_task-OneWrite read_task s v = ground (arith, v)
  run_task-OneWrite close_task s v = ground (arith, v)
  run_task-OneWrite (write_task p) s v =
      let q : Session F = record s { write_queue = s.write_queue ++ p ∷ []; is_writing = true } in
      ground (arith, v, do_write-OneWrite q)

  strand-OneWrite : (s : Session F) → OneWrite s → OneWrite (strand_step s)
  unfolding strand_step
  strand-OneWrite s v = go s.tasks refl
    where
      go : (ts : List SessionTask) → s.tasks ≡ ts → OneWrite (strand_step s)
      go [] e = ground (arith, v, e)
      go (t ∷ ts) e = ground (arith, v, e, run_task-OneWrite t (record s { tasks = ts }) v)

  step-OneWrite : (s : Session F) (move : SessionMove) → OneWrite s → OneWrite (step s move)
  unfolding step start send on_read do_read on_read_error on_written on_write_error close
  step-OneWrite s starts v = ground (arith, v)
  step-OneWrite s closes v = ground (arith, v)
  step-OneWrite s strand_runs v = strand-OneWrite s v
  step-OneWrite s read_fails v = ground (arith, v)
  step-OneWrite s write_done v =
      ground (arith, v, do_write-OneWrite (record s { writes_pending = s.writes_pending - 1 }))
  step-OneWrite s write_fails v = ground (arith, v)
  step-OneWrite s (sends p) v = ground (arith, v)
  step-OneWrite s (bytes_arrive b) v = ground (arith, v)

  run-OneWrite : (moves : List SessionMove) (s : Session F) → OneWrite s → OneWrite (run s moves)
  unfolding run
  run-OneWrite [] s v = v
  run-OneWrite (m ∷ ms) s v = run-OneWrite ms (step s m) (step-OneWrite s m v)

-- Whatever happens to a new session, in whatever order: what its socket was given are the frames of
-- the first payloads that were sent, whole and in the order of the calls, never two writes at once;
-- and while the session is open, no payload is lost: once the strand and the socket have nothing
-- left to do, all of them were given.
pub writes_in_order :
    (F : Type 0) (id : ℕ) (moves : List SessionMove)
    → let s = run {F = F} (fresh_session id) moves in
      (sent : List (List ℕ)) × (rest : List (List ℕ)) × (sent ++ rest ≡ payloads moves)
      × (wire sent ≡ ok s.wire)
      × (s.writes_pending ≤ 1)
      × (s.closed ≡ false → s.tasks ≡ [] → s.writes_pending ≡ 0 → rest ≡ [])
unfolding wire
writes_in_order F id moves =
    let s = run {F = F} (fresh_session id) moves in
    let (sent, rest, split, (framed, waiting)) =
      run-Writes {F = F} [] moves (fresh_session id) ([], [], refl, (refl, λ o. refl)) in
    let (pending, idle) = run-OneWrite {F = F} moves (fresh_session id) (refl, λ o w. refl) in
    (
      sent,
      rest,
      split,
      framed,
      ground (arith, pending),
      λ o done quiet. waiting o ∙ ground (arith, idle o, pending, quiet, done),
    )
