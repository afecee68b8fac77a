-- ===== src/NetworkContext/Draining.antt =====
-- What the graceful stop of src/server/network_context.h does with the handlers that wait.
use space_shooter_c.Prelude.{
  ℕ, zero, suc, ◌≤◌, ◌≡◌, refl, Bool, true, false, ◌&&◌, ◌||◌, List, [], ◌∷◌, arith,
}
use space_shooter_c.NetworkContext.Stopping.{rank}
use space_shooter_c.NetworkContext.{
  started, testing, finished, running, Worker, IoContext, NetworkContext, WorkerEvent, handles,
  throws, proceeds, request_stops, start_workers, start, stop, force_stop, all_finished,
  join_workers, joins, wait, after_run, run_returns, worker_step, step_nth, ContextMove, starts,
  stops, force_stops, posts, waits, works, step, run,
}

abbrev pub is_quiet : WorkerEvent → Bool
is_quiet (handles n) = true
is_quiet proceeds = true
is_quiet throws = false

-- A history in which no handler throws, and nobody posts from outside or forces a stop.
unfoldable pub is_calm : List ContextMove → Bool
is_calm [] = true
is_calm (starts f ∷ ms) = is_calm ms
is_calm (stops ∷ ms) = is_calm ms
is_calm (force_stops ∷ ms) = false
is_calm (posts ∷ ms) = false
is_calm (waits w ∷ ms) = is_calm ms
is_calm (works i event ∷ ms) = is_quiet event && is_calm ms

-- Whether a worker is inside io_context_.run().
unfoldable pub anyone_runs : List Worker → Bool
anyone_runs [] = false
anyone_runs (w ∷ ws) =
    let rest = anyone_runs ws in
    elim w.phase [ testing ↦ rest | finished ↦ rest | running n ↦ true ]

-- While there is work, somebody runs it.
abbrev Served : IoContext → List Worker → Type 0
Served io ws = 1 ≤ io.work → (io.is_stopped ≡ false) × (anyone_runs ws ≡ true)

pub requests-run : (ws : List Worker) → anyone_runs (request_stops ws) ≡ anyone_runs ws
unfolding anyone_runs request_stops
requests-run [] = refl
requests-run (w ∷ ws) = ground (arith, requests-run ws)

pub finished-run : (ws : List Worker) → all_finished ws ≡ true → anyone_runs ws ≡ false
unfolding anyone_runs all_finished
finished-run [] h = refl
finished-run (w ∷ ws) h = ground (arith, h, finished-run ws)

-- A step of a worker that does not throw: it leaves run() only when there is no work.
worker_step-calm :
    (e : WorkerEvent) (io : IoContext) (w : Worker)
    → is_quiet e ≡ true
    → let (after, moved) = worker_step e io w in
      (io.work ≡ 0 → after.work ≡ 0)
      × (1 ≤ after.work → io.is_stopped ≡ false → after.is_stopped ≡ false)
      × (1 ≤ after.work
          → io.is_stopped ≡ false
          → anyone_runs (w ∷ []) ≡ true
          → anyone_runs (moved ∷ []) ≡ true)
unfolding worker_step run_returns after_run is_calm anyone_runs
worker_step-calm (handles n) io w h = ground arith
worker_step-calm proceeds io w h = ground arith
worker_step-calm throws io w h = absurd (ground (arith, h))

anyone_runs-cons :
    (w : Worker) (ws : List Worker) → anyone_runs (w ∷ ws) ≡ anyone_runs (w ∷ []) || anyone_runs ws
unfolding anyone_runs
anyone_runs-cons w ws = ground arith

pub step_nth-calm :
    (i : ℕ) (e : WorkerEvent) (io : IoContext) (ws : List Worker)
    → is_quiet e ≡ true
    → let (after, moved) = step_nth i e io ws in
      (io.work ≡ 0 → after.work ≡ 0)
      × (1 ≤ after.work → io.is_stopped ≡ false → after.is_stopped ≡ false)
      × (1 ≤ after.work → io.is_stopped ≡ false → anyone_runs ws ≡ true → anyone_runs moved ≡ true)
unfolding step_nth
step_nth-calm i e io [] h = ground arith
step_nth-calm zero e io (w ∷ ws) h =
    let (after, moved) = worker_step e io w in
    ground (arith, worker_step-calm e io w h, anyone_runs-cons w ws, anyone_runs-cons moved ws)
step_nth-calm (suc i) e io (w ∷ ws) h =
    let (after, moved) = step_nth i e io ws in
    ground (arith, step_nth-calm i e io ws h, anyone_runs-cons w ws, anyone_runs-cons w moved)

-- A stopped context that drains.
abbrev Draining : NetworkContext → Type 0
Draining c = (2 ≤ rank c.state) × Served c.io c.workers

step-Draining :
    (c : NetworkContext) (m : ContextMove)
    → is_calm (m ∷ []) ≡ true
    → Draining c
    → Draining (step c m)
unfolding step start start_workers stop force_stop wait join_workers joins is_calm
step-Draining c (starts f) h v = ground (arith, v)
step-Draining c stops h v = ground (arith, v)
step-Draining c force_stops h v = absurd (ground (arith, h))
step-Draining c posts h v = absurd (ground (arith, h))
step-Draining c (waits w) h v = ground (arith, v, finished-run c.workers)
step-Draining c (works i e) h v =
    ground (arith, v, step_nth-calm i e c.io c.workers (ground (arith, h)))

is_calm-cons :
    (m : ContextMove) (ms : List ContextMove) → is_calm (m ∷ ms) ≡ is_calm (m ∷ []) && is_calm ms
unfolding is_calm
is_calm-cons (works i e) ms = ground arith
is_calm-cons (starts b) ms = refl
is_calm-cons stops ms = refl
is_calm-cons force_stops ms = refl
is_calm-cons posts ms = refl
is_calm-cons (waits w) ms = refl

run-Draining :
    (ms : List ContextMove) (c : NetworkContext)
    → is_calm ms ≡ true
    → Draining c
    → Draining (run c ms)
unfolding run
run-Draining [] c h v = v
run-Draining (m ∷ ms) c h v =
    let split = is_calm-cons m ms in
    run-Draining ms (step c m) (ground (arith, h, split))
      (step-Draining c m (ground (arith, h, split)) v)

-- The graceful stop drains the queue: if at the call of stop a worker is inside run() of a context
-- that runs, and from then on no handler throws, nobody posts from outside and nobody forces a stop,
-- then when all workers have ended, every handler was run, those that handlers have posted too.
pub stop_drains :
    (c : NetworkContext) (moves : List ContextMove)
    → c.state ≡ started
    → c.io.is_stopped ≡ false
    → anyone_runs c.workers ≡ true
    → is_calm moves ≡ true
    → let after = run (stop c) moves in all_finished after.workers ≡ true → after.io.work ≡ 0
unfolding stop
stop_drains c moves s i r h ended =
    let drained = run-Draining moves (stop c) h (ground (arith, s, i, r, requests-run c.workers)) in
    ground (arith, drained, ended, finished-run (run (stop c) moves).workers)
