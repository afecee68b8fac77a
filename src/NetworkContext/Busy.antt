-- ===== src/NetworkContext/Busy.antt =====
-- The graceful stop of src/server/network_context.h while operations go on, as a timer that is armed
-- again by its own handler does.
use space_shooter_c.Prelude.{
  ℕ, suc, zero, ◌≤◌, ◌≡◌, refl, Bool, true, false, ◌&&◌, none, List, [], ◌∷◌, arith,
}
use space_shooter_c.NetworkContext.Stopping.{rank, step-rank}
use space_shooter_c.NetworkContext.Draining.{anyone_runs, requests-run, finished-run, step_nth-calm}
use space_shooter_c.NetworkContext.{
  started, Worker, IoContext, NetworkContext, WorkerEvent, handles, throws, proceeds, start, stop,
  force_stop, wait, join_workers, joins, join_workers, joins, run_returns, worker_step, step_nth,
  ContextMove, starts, stops, force_stops, posts, waits, works, step, run,
}

abbrev goes_on : WorkerEvent → Bool
goes_on (handles zero) = false
goes_on (handles (suc n)) = true
goes_on proceeds = true
goes_on throws = false

-- A history in which every handler leaves an operation behind, and nobody forces a stop.
unfoldable pub is_busy : List ContextMove → Bool
is_busy [] = true
is_busy (starts f ∷ ms) = is_busy ms
is_busy (stops ∷ ms) = is_busy ms
is_busy (force_stops ∷ ms) = false
is_busy (posts ∷ ms) = is_busy ms
is_busy (waits w ∷ ms) = is_busy ms
is_busy (works i event ∷ ms) = goes_on event && is_busy ms

abbrev Busy : NetworkContext → Type 0
Busy c =
    (2 ≤ rank c.state)
    × (1 ≤ c.io.work)
    × (c.io.is_stopped ≡ false)
    × (anyone_runs c.workers ≡ true)

step_nth-work :
    (i : ℕ) (e : WorkerEvent) (io : IoContext) (ws : List Worker)
    → goes_on e ≡ true
    → 1 ≤ io.work
    → 1 ≤ (step_nth i e io ws).0.work
unfolding step_nth worker_step run_returns
step_nth-work i e io [] h w = w
step_nth-work zero proceeds io (x ∷ ws) h w = ground (arith, w)
step_nth-work zero throws io (x ∷ ws) h w = absurd (ground (arith, h))
step_nth-work zero (handles zero) io (x ∷ ws) h w = absurd (ground (arith, h))
step_nth-work zero (handles (suc n)) io (x ∷ ws) h w = ground (arith, w)
step_nth-work (suc i) e io (x ∷ ws) h w = step_nth-work i e io ws h w

step-Busy :
    (c : NetworkContext) (m : ContextMove) → is_busy (m ∷ []) ≡ true → Busy c → Busy (step c m)
unfolding step start stop wait join_workers joins is_busy
step-Busy c (starts f) h v = ground (arith, v)
step-Busy c stops h v = ground (arith, v)
step-Busy c force_stops h v = absurd (ground (arith, h))
step-Busy c posts h v = ground (arith, v)
step-Busy c (waits w) h v = ground (arith, v, finished-run c.workers)
step-Busy c (works i (handles zero)) h v = absurd (ground (arith, h))
step-Busy c (works i throws) h v = absurd (ground (arith, h))
step-Busy c (works i (handles (suc n))) h v =
    let w = step_nth-work i (handles (suc n)) c.io c.workers refl v.1 in
    ground (arith, v, w, step_nth-calm i (handles (suc n)) c.io c.workers)
step-Busy c (works i proceeds) h v =
    let w = step_nth-work i proceeds c.io c.workers refl v.1 in
    ground (arith, v, w, step_nth-calm i proceeds c.io c.workers)

is_busy-cons :
    (m : ContextMove) (ms : List ContextMove) → is_busy (m ∷ ms) ≡ is_busy (m ∷ []) && is_busy ms
unfolding is_busy
is_busy-cons (works i e) ms = ground arith
is_busy-cons (starts b) ms = refl
is_busy-cons stops ms = refl
is_busy-cons force_stops ms = refl
is_busy-cons posts ms = refl
is_busy-cons (waits w) ms = refl

run-Busy :
    (ms : List ContextMove) (c : NetworkContext) → is_busy ms ≡ true → Busy c → Busy (run c ms)
unfolding run
run-Busy [] c h v = v
run-Busy (m ∷ ms) c h v =
    let split = is_busy-cons m ms in
    run-Busy ms (step c m) (ground (arith, h, split)) (step-Busy c m (ground (arith, h, split)) v)

-- A graceful stop does not end what goes on: if a worker of a started context is inside run(), an
-- operation is not complete, every handler leaves one behind, and nobody forces a stop, then wait
-- blocks, however long it is waited.
pub wait_blocks :
    (c : NetworkContext) (moves : List ContextMove)
    → c.state ≡ started
    → c.io.is_stopped ≡ false
    → 1 ≤ c.io.work
    → anyone_runs c.workers ≡ true
    → is_busy moves ≡ true
    → (wait false (run (stop c) moves)).0 ≡ none
unfolding wait stop join_workers joins
wait_blocks c moves s i w r h =
    let busy = run-Busy moves (stop c) h (ground (arith, s, i, w, r, requests-run c.workers)) in
    ground (arith, busy, finished-run (run (stop c) moves).workers)

-- A history in which every handler leaves an operation behind; a stop may be forced.
unfoldable pub is_endless : List ContextMove → Bool
is_endless [] = true
is_endless (starts f ∷ ms) = is_endless ms
is_endless (stops ∷ ms) = is_endless ms
is_endless (force_stops ∷ ms) = is_endless ms
is_endless (posts ∷ ms) = is_endless ms
is_endless (waits w ∷ ms) = is_endless ms
is_endless (works i event ∷ ms) = goes_on event && is_endless ms

abbrev Hanging : NetworkContext → Type 0
Hanging c = (3 ≤ rank c.state) × Busy c

step-Hanging :
    (c : NetworkContext) (m : ContextMove)
    → is_endless (m ∷ []) ≡ true
    → Hanging c
    → Hanging (step c m)
unfolding is_endless is_busy step force_stop
step-Hanging c force_stops h v = ground (arith, v)
step-Hanging c (starts f) h v = ground (arith, v, step-rank c (starts f), step-Busy c (starts f) h)
step-Hanging c stops h v = ground (arith, v, step-rank c stops, step-Busy c stops h)
step-Hanging c posts h v = ground (arith, v, step-rank c posts, step-Busy c posts h)
step-Hanging c (waits w) h v = ground (arith, v, step-rank c (waits w), step-Busy c (waits w) h)
step-Hanging c (works i e) h v =
    ground (arith, v, step-rank c (works i e), step-Busy c (works i e) h)

is_endless-cons :
    (m : ContextMove) (ms : List ContextMove)
    → is_endless (m ∷ ms) ≡ is_endless (m ∷ []) && is_endless ms
unfolding is_endless
is_endless-cons (works i e) ms = ground arith
is_endless-cons (starts b) ms = refl
is_endless-cons stops ms = refl
is_endless-cons force_stops ms = refl
is_endless-cons posts ms = refl
is_endless-cons (waits w) ms = refl

run-Hanging :
    (ms : List ContextMove) (c : NetworkContext)
    → is_endless ms ≡ true
    → Hanging c
    → Hanging (run c ms)
unfolding run
run-Hanging [] c h v = v
run-Hanging (m ∷ ms) c h v =
    let split = is_endless-cons m ms in
    run-Hanging ms (step c m) (ground (arith, h, split))
      (step-Hanging c m (ground (arith, h, split)) v)

-- A forced stop comes too late once wait was called: if a worker of a started context is inside
-- run(), an operation is not complete, and every handler leaves one behind, then after stop and a
-- call of wait from outside nothing makes wait return, not even force_stop, which changes nothing.
pub late_force_stop_fails :
    (c : NetworkContext) (moves : List ContextMove)
    → c.state ≡ started
    → c.io.is_stopped ≡ false
    → 1 ≤ c.io.work
    → anyone_runs c.workers ≡ true
    → is_endless moves ≡ true
    → let after = run (wait false (stop c)).1 moves in
      ((wait false after).0 ≡ none) × (force_stop after ≡ after)
unfolding wait stop force_stop join_workers joins
late_force_stop_fails c moves s i w r h =
    let waiting = (wait false (stop c)).1 in
    let start : Hanging waiting = ground (arith, s, i, w, r, requests-run c.workers) in
    let kept = run-Hanging moves waiting h start in
    ground (arith, kept, finished-run (run waiting moves).workers)
