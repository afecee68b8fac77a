-- ===== src/Session/Writing.antt =====
-- What a session of src/server/session.cpp writes to its socket.
use space_shooter_c.Prelude.{
  ℕ, zero, suc, ◌-◌, ◌≡◌, refl, sym, ◌∙◌, ap, inl, inr, true, false, List, [], ◌∷◌, ◌++◌, ok, arith,
  append_assoc, append-nil, Result-cases, Bool-cases, >>=-ok,
}
use space_shooter_c.FrameCodec.{Frame, buffers, encode}
use space_shooter_c.FrameCodec.RoundTrip.{wire}
use space_shooter_c.Session.{
  Session, SessionTask, read_task, close_task, write_task, SessionMove, starts, closes, strand_runs,
  read_fails, write_done, write_fails, sends, bytes_arrive, start, send, close, do_read, do_write,
  on_read, enqueue_write, on_read_error, on_written, on_write_error, close_socket, run_task,
  strand_step, step, run,
}

wire-snoc :
    (ps : List (List ℕ)) (p : List ℕ) (bytes : List ℕ) (f : Frame)
    → wire ps ≡ ok bytes
    → encode p ≡ ok f
    → wire (ps ++ p ∷ []) ≡ ok (bytes ++ buffers f)
unfolding wire
wire-snoc [] p bytes f e g =
    let nil : [] ≡ bytes = cc in rw (g, ← nil) (ap ok (append-nil (buffers f)))
wire-snoc (q ∷ ps) p bytes f e g =
    let (h, eh, e1) = >>=-ok (encode q) _ e in
    let (tail, et, e2) = >>=-ok (wire ps) _ e1 in
    let split : buffers h ++ tail ≡ bytes = cc in
    rw (eh, wire-snoc ps p tail f et g, ← split)
      (ap ok (sym (append_assoc (buffers h) tail (buffers f))))

-- The payloads of the writes that wait on the strand, and of the calls of `send`.
abbrev pub queued : List SessionTask → List (List ℕ)
queued [] = []
queued (read_task ∷ ts) = queued ts
queued (close_task ∷ ts) = queued ts
queued (write_task p ∷ ts) = p ∷ queued ts

abbrev pub payloads : List SessionMove → List (List ℕ)
payloads [] = []
payloads (starts ∷ ms) = payloads ms
payloads (closes ∷ ms) = payloads ms
payloads (strand_runs ∷ ms) = payloads ms
payloads (read_fails ∷ ms) = payloads ms
payloads (write_done ∷ ms) = payloads ms
payloads (write_fails ∷ ms) = payloads ms
payloads (sends p ∷ ms) = p ∷ payloads ms
payloads (bytes_arrive b ∷ ms) = payloads ms

queued-append : (ts us : List SessionTask) → queued (ts ++ us) ≡ queued ts ++ queued us
queued-append [] us = refl
queued-append (read_task ∷ ts) us = queued-append ts us
queued-append (close_task ∷ ts) us = queued-append ts us
queued-append (write_task p ∷ ts) us = ap (◌∷◌ p) (queued-append ts us)

payloads-cons :
    (m : SessionMove) (ms : List SessionMove) → payloads (m ∷ []) ++ payloads ms ≡ payloads (m ∷ ms)
payloads-cons m ms = ground arith

module _ {F : Type 0} where
  -- The socket was given the frames of `sent`, and an open session will still write `rest`.
  abbrev pub InOrder : List (List ℕ) → List (List ℕ) → Session F → Type 0
  InOrder sent rest s =
      (wire sent ≡ ok s.wire) × (s.closed ≡ false → rest ≡ s.write_queue ++ queued s.tasks)

  -- The session is in order, with the payloads of `all` in order.
  abbrev pub Writes : List (List ℕ) → Session F → Type 0
  Writes all s =
      (sent : List (List ℕ)) × (rest : List (List ℕ)) × (sent ++ rest ≡ all) × InOrder sent rest s

  close-InOrder :
      (sent rest : List (List ℕ)) (s : Session F)
      → InOrder sent rest s
      → InOrder sent rest (close s)
  unfolding close
  close-InOrder sent rest s v = ground (arith, v)

  do_write-Writes : (all : List (List ℕ)) (s : Session F) → Writes all s → Writes all (do_write s)
  unfolding do_write close
  do_write-Writes all s (sent, rest, split, v) = elim (Bool-cases s.closed) [
    | inl c ↦ (sent, rest, split, ground (arith, v, c))
    | inr o ↦ go s.write_queue o refl
  ]
    where
      go : (q : List (List ℕ)) → s.closed ≡ false → s.write_queue ≡ q → Writes all (do_write s)
      go [] o e = (sent, rest, split, ground (arith, v, o, e))
      go (p ∷ q) o e = elim (Result-cases (encode p)) [
        | inr (x, bad) ↦ (sent, rest, split, ground (arith, v, o, e, bad))
        | inl (f, fine) ↦
            let r : rest ≡ p ∷ (q ++ queued s.tasks) = v.1 o ∙ ap (λ x. x ++ queued s.tasks) e in
            (
              sent ++ p ∷ [],
              q ++ queued s.tasks,
              append_assoc sent (p ∷ []) (q ++ queued s.tasks)
                  ∙ ap (λ x. sent ++ x) (sym r)
                  ∙ split,
              ground (arith, o, e, fine, wire-snoc sent p s.wire f v.0 fine),
            )
      ]

  run_task-Writes :
      (all : List (List ℕ)) (t : SessionTask) (s : Session F)
      → Writes all (record s { tasks = t ∷ s.tasks })
      → Writes all (run_task t s)
  unfolding run_task do_read close_socket enqueue_write
  run_task-Writes all read_task s (sent, rest, split, v) = (sent, rest, split, ground (arith, v))
  run_task-Writes all close_task s (sent, rest, split, v) = (sent, rest, split, ground (arith, v))
  run_task-Writes all (write_task p) s (sent, rest, split, v) = elim (Bool-cases s.closed) [
    | inl c ↦ (sent, rest, split, ground (arith, v, c))
    | inr o ↦ elim (Bool-cases s.is_writing) [
      | inl busy ↦ (
        sent,
        rest,
        split,
        ground (arith, v, o, busy, append_assoc s.write_queue (p ∷ []) (queued s.tasks)),
      )
      | inr ready ↦
          let q : Session F = record s {
            write_queue = s.write_queue ++ p ∷ [];
            is_writing = true;
          } in
          let u : InOrder sent rest q =
            (v.0, λ e. v.1 e ∙ sym (append_assoc s.write_queue (p ∷ []) (queued s.tasks))) in
          let (sent', rest', split', w) = do_write-Writes all q (sent, rest, split, u) in
          (sent', rest', split', ground (arith, w, o, ready))
    ]
  ]

  strand-Writes : (all : List (List ℕ)) (s : Session F) → Writes all s → Writes all (strand_step s)
  unfolding strand_step
  strand-Writes all s (sent, rest, split, v) = go s.tasks refl
    where
      go : (ts : List SessionTask) → s.tasks ≡ ts → Writes all (strand_step s)
      go [] e = (sent, rest, split, ground (arith, v, e))
      go (t ∷ ts) e =
          let (sent', rest', split', w) =
            run_task-Writes all t (record s { tasks = ts })
              (sent, rest, split, ground (arith, v, e)) in
          (sent', rest', split', ground (arith, w, e))

  on_written-Writes :
      (all : List (List ℕ)) (s : Session F) → Writes all s → Writes all (on_written s)
  unfolding on_written
  on_written-Writes all s (sent, rest, split, v) = go s.writes_pending refl
    where
      less : Session F
      less = record s { writes_pending = s.writes_pending - 1 }

      go : (n : ℕ) → s.writes_pending ≡ n → Writes all (on_written s)
      go zero e = (sent, rest, split, ground (arith, v, e))
      go (suc n) e =
          let (sent', rest', split', w) = do_write-Writes all less (sent, rest, split, v) in
          (sent', rest', split', ground (arith, w, e))

  -- What a move adds to the payloads.
  step-Writes :
      (all : List (List ℕ)) (s : Session F) (move : SessionMove)
      → Writes all s
      → Writes (all ++ payloads (move ∷ [])) (step s move)
  unfolding step start send on_read do_read on_read_error on_write_error
  step-Writes all s starts (sent, rest, split, v) = (
    sent,
    rest,
    split ∙ sym (append-nil all),
    ground (arith, v, queued-append s.tasks (read_task ∷ []), append-nil (queued s.tasks)),
  )
  step-Writes all s closes (sent, rest, split, v) =
      (sent, rest, split ∙ sym (append-nil all), close-InOrder sent rest s v)
  step-Writes all s strand_runs v = rw (append-nil all) (strand-Writes all s v)
  step-Writes all s read_fails (sent, rest, split, v) = (
    sent,
    rest,
    split ∙ sym (append-nil all),
    ground (arith, v, close-InOrder sent rest (record s { reading = false }) v),
  )
  step-Writes all s write_done v = rw (append-nil all) (on_written-Writes all s v)
  step-Writes all s write_fails (sent, rest, split, v) =
      let less : Session F = record s {
        writes_pending = s.writes_pending - 1;
        is_writing = false;
      } in
      (sent, rest, split ∙ sym (append-nil all), ground (arith, v, close-InOrder sent rest less v))
  step-Writes all s (sends p) (sent, rest, split, v) = (
    sent,
    rest ++ p ∷ [],
    sym (append_assoc sent rest (p ∷ [])) ∙ ap (λ x. x ++ p ∷ []) split,
    (
      v.0,
      λ o.
          ap (λ x. x ++ p ∷ []) (v.1 o)
          ∙ append_assoc s.write_queue (queued s.tasks) (p ∷ [])
          ∙ ap (λ x. s.write_queue ++ x) (sym (queued-append s.tasks (write_task p ∷ []))),
    ),
  )
  step-Writes all s (bytes_arrive b) (sent, rest, split, v) =
      (sent, rest, split ∙ sym (append-nil all), ground (arith, v))

  -- Over a history, the session stays in order, with the payloads that the history sends behind.
  pub run-Writes :
      (all : List (List ℕ)) (moves : List SessionMove) (s : Session F)
      → Writes all s
      → Writes (all ++ payloads moves) (run s moves)
  unfolding run
  run-Writes all [] s v = rw (append-nil all) v
  run-Writes all (m ∷ ms) s v =
      rw (← payloads-cons m ms, ← append_assoc all (payloads (m ∷ [])) (payloads ms))
        (run-Writes (all ++ payloads (m ∷ [])) ms (step s m) (step-Writes all s m v))
