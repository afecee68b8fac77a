-- ===== src/NetworkContext/Early.antt =====
-- The graceful stop of src/server/network_context.h before the workers have reached their loops.
use space_shooter_c.Prelude.{
  ℕ, zero, suc, ◌+◌, ◌≤◌, ◌<◌, ◌≡◌, true, false, ◌||◌, some, List, [], ◌∷◌, ok, arith, length,
}
use space_shooter_c.NetworkContext.Stopping.{
  rank, occurs, occurs-cons, has_ended, asked_to_stop, requests-asked, requests-ended,
  length-requests, ended_everywhere, ended_beyond,
}
use space_shooter_c.NetworkContext.Draining.{anyone_runs, requests-run}
use space_shooter_c.NetworkContext.{
  started, Worker, IoContext, NetworkContext, WorkerEvent, handles, throws, proceeds, start, stop,
  force_stop, join_workers, joins, wait, worker_step, step_nth, ContextMove, starts, stops,
  force_stops, posts, waits, works, step, run,
}

-- How many handlers are posted from outside.
unfoldable pub posted : List ContextMove → ℕ
posted [] = 0
posted (starts f ∷ ms) = posted ms
posted (stops ∷ ms) = posted ms
posted (force_stops ∷ ms) = posted ms
posted (posts ∷ ms) = suc (posted ms)
posted (waits w ∷ ms) = posted ms
posted (works i event ∷ ms) = posted ms

posted-cons :
    (m : ContextMove) (ms : List ContextMove) → posted (m ∷ ms) ≡ posted (m ∷ []) + posted ms
unfolding posted
posted-cons (works i e) ms = omega arith
posted-cons (starts b) ms = omega arith
posted-cons stops ms = omega arith
posted-cons force_stops ms = omega arith
posted-cons posts ms = omega arith
posted-cons (waits w) ms = omega arith

-- The context is stopped, its workers know, and none of them is inside run().
abbrev Idle : NetworkContext → Type 0
Idle c = (2 ≤ rank c.state) × (asked_to_stop c.workers ≡ true) × (anyone_runs c.workers ≡ false)

-- A worker that knows ends at its next step and leaves the queue alone.
step_nth-idle :
    (i j : ℕ) (e : WorkerEvent) (io : IoContext) (ws : List Worker)
    → asked_to_stop ws ≡ true
    → anyone_runs ws ≡ false
    → ((step_nth j e io ws).0 ≡ io)
      × (asked_to_stop (step_nth j e io ws).1 ≡ true)
      × (anyone_runs (step_nth j e io ws).1 ≡ false)
      × (has_ended i ws ≡ true → has_ended i (step_nth j e io ws).1 ≡ true)
      × (has_ended j (step_nth j e io ws).1 ≡ true)
unfolding step_nth worker_step asked_to_stop anyone_runs has_ended
step_nth-idle i j e io [] a r = ground arith
step_nth-idle zero zero e io (w ∷ ws) a r = ground (arith, a, r)
step_nth-idle (suc i) zero e io (w ∷ ws) a r = ground (arith, a, r)
step_nth-idle zero (suc j) e io (w ∷ ws) a r = ground (arith, a, r, step_nth-idle zero j e io ws)
step_nth-idle (suc i) (suc j) e io (w ∷ ws) a r = ground (arith, a, r, step_nth-idle i j e io ws)

step-Idle :
    (i : ℕ) (c : NetworkContext) (m : ContextMove)
    → Idle c
    → Idle (step c m)
      × ((step c m).io.work ≡ c.io.work + posted (m ∷ []))
      × (has_ended i c.workers || occurs i (m ∷ []) ≡ true → has_ended i (step c m).workers ≡ true)
unfolding step start stop force_stop wait join_workers occurs posted
step-Idle i c (starts f) v = ground (arith, v)
step-Idle i c stops v = ground (arith, v)
step-Idle i c force_stops v =
    ground (arith, v, requests-asked c.workers, requests-run c.workers, requests-ended i c.workers)
step-Idle i c posts v = ground (arith, v)
step-Idle i c (waits w) v = ground (arith, v)
step-Idle i c (works j (handles n)) v =
    ground (arith, v, step_nth-idle i j (handles n) c.io c.workers)
step-Idle i c (works j throws) v = ground (arith, v, step_nth-idle i j throws c.io c.workers)
step-Idle i c (works j proceeds) v = ground (arith, v, step_nth-idle i j proceeds c.io c.workers)

run-Idle :
    (i : ℕ) (ms : List ContextMove) (c : NetworkContext)
    → Idle c
    → Idle (run c ms)
      × ((run c ms).io.work ≡ c.io.work + posted ms)
      × (has_ended i c.workers || occurs i ms ≡ true → has_ended i (run c ms).workers ≡ true)
unfolding run occurs posted
run-Idle i [] c v = ground (arith, v)
run-Idle i (m ∷ ms) c v =
    let one = step-Idle i c m v in
    ground (arith, v, one, run-Idle i ms (step c m) one.0, occurs-cons i m ms, posted-cons m ms)

-- A stop that comes while no worker is inside run(), as before they have reached their loops, loses
-- every handler that waits: whatever is called or happens afterwards, when every worker has come to
-- its next step once, there are as many handlers left as there were and were posted since, and a
-- call of wait from outside returns without an error.
pub early_stop_loses :
    (c : NetworkContext) (moves : List ContextMove)
    → c.state ≡ started
    → anyone_runs c.workers ≡ false
    → ((i : ℕ) → i < length c.workers → occurs i moves ≡ true)
    → let after = run (stop c) moves in
      (after.io.work ≡ c.io.work + posted moves) × ((wait false after).0 ≡ some (ok tt))
unfolding stop wait joins join_workers
early_stop_loses c moves s r o =
    let idle : Idle (stop c) =
      ground (arith, s, r, requests-asked c.workers, requests-run c.workers) in
    let after = run (stop c) moves in
    let kept = run-Idle 0 moves (stop c) idle in
    let each_ended : (i : ℕ) → has_ended i after.workers ≡ true = λ i. ground (
      arith,
      run-Idle i moves (stop c) idle,
      o i,
      s,
      length-requests c.workers,
      ended_beyond i (stop c).workers,
    ) in
    (ground (arith, kept, s), ground (arith, kept, ended_everywhere after.workers each_ended))
