-- ===== src/NetworkContext/Stopping.antt =====
-- The life of a context of src/server/network_context.h, and the end of its workers.
use space_shooter_c.Prelude.{
  ℕ, zero, suc, ◌≤◌, ◌<◌, ◌≡◌, refl, ap, Bool, true, false, ◌&&◌, ◌||◌, some, List, [], ◌∷◌, ok,
  err, ◌==◌, arith, length,
}
use space_shooter_c.NetworkContext.{
  LifeState, not_started, started, stopped, joined, Worker, IoContext, NetworkContext, logic_error,
  WorkerEvent, handles, throws, proceeds, request_stops, start_workers, start, stop, force_stop,
  all_finished, join_workers, joins, is_finished, wait, after_run, run_returns, worker_step,
  step_nth, ContextMove, starts, stops, force_stops, posts, waits, works, step, run,
}

abbrev pub rank : LifeState → ℕ
rank not_started = 0
rank started = 1
rank stopped = 2
rank joined = 3

pub step-rank : (c : NetworkContext) (m : ContextMove) → rank c.state ≤ rank (step c m).state
unfolding step start start_workers stop force_stop wait join_workers
step-rank c (starts false) = ground arith
step-rank c (starts true) = ground arith
step-rank c stops = ground arith
step-rank c force_stops = ground arith
step-rank c posts = ground arith
step-rank c (waits w) = ground arith
step-rank c (works i e) = ground arith

run-rank : (ms : List ContextMove) (c : NetworkContext) → rank c.state ≤ rank (run c ms).state
unfolding run
run-rank [] c = ground arith
run-rank (m ∷ ms) c = ground (arith, step-rank c m, run-rank ms (step c m))

-- A life has one direction: whatever is called and whatever the workers do, the state never goes
-- back; and once a context was stopped or joined, start throws and changes nothing.
pub never_restarts :
    (c : NetworkContext) (moves : List ContextMove) (failure : Bool)
    → let after = run c moves in
      (rank c.state ≤ rank after.state)
      × (2 ≤ rank c.state → start failure after ≡ (err logic_error, after))
unfolding start
never_restarts c moves failure =
    let grown = run-rank moves c in (grown, λ h. ground (arith, h, grown))

-- Whether the i-th worker comes to its next step, and whether it has ended.
unfoldable pub occurs : ℕ → List ContextMove → Bool
occurs i [] = false
occurs i (works j proceeds ∷ ms) = (j == i) || occurs i ms
occurs i (works j (handles n) ∷ ms) = occurs i ms
occurs i (works j throws ∷ ms) = occurs i ms
occurs i (starts f ∷ ms) = occurs i ms
occurs i (stops ∷ ms) = occurs i ms
occurs i (force_stops ∷ ms) = occurs i ms
occurs i (posts ∷ ms) = occurs i ms
occurs i (waits w ∷ ms) = occurs i ms

unfoldable pub has_ended : ℕ → List Worker → Bool
has_ended i [] = true
has_ended zero (w ∷ ws) = is_finished w.phase
has_ended (suc i) (w ∷ ws) = has_ended i ws

unfoldable pub asked_to_stop : List Worker → Bool
asked_to_stop [] = true
asked_to_stop (w ∷ ws) = w.stop_requested && asked_to_stop ws

-- The context is stopped for good, and its workers know.
abbrev Halting : NetworkContext → Type 0
Halting c = (2 ≤ rank c.state) × (c.io.is_stopped ≡ true) × (asked_to_stop c.workers ≡ true)

pub requests-asked : (ws : List Worker) → asked_to_stop (request_stops ws) ≡ true
unfolding asked_to_stop request_stops
requests-asked [] = refl
requests-asked (w ∷ ws) = requests-asked ws

pub length-requests : (ws : List Worker) → length (request_stops ws) ≡ length ws
unfolding request_stops
length-requests [] = refl
length-requests (w ∷ ws) = ap suc (length-requests ws)

pub requests-ended : (i : ℕ) (ws : List Worker) → has_ended i (request_stops ws) ≡ has_ended i ws
unfolding has_ended request_stops
requests-ended i [] = refl
requests-ended zero (w ∷ ws) = refl
requests-ended (suc i) (w ∷ ws) = requests-ended i ws

-- A step of a worker of a stopped context.
worker_step-stopped :
    (e : WorkerEvent) (io : IoContext) (w : Worker)
    → io.is_stopped ≡ true
    → w.stop_requested ≡ true
    → ((worker_step e io w).0.is_stopped ≡ true)
      × ((worker_step e io w).1.stop_requested ≡ true)
      × (is_finished w.phase ≡ true → is_finished (worker_step e io w).1.phase ≡ true)
      × (is_finished (worker_step proceeds io w).1.phase ≡ true)
unfolding worker_step run_returns after_run
worker_step-stopped (handles n) io w s r = ground (arith, s, r)
worker_step-stopped throws io w s r = ground (arith, s, r)
worker_step-stopped proceeds io w s r = ground (arith, s, r)

step_nth-stopped :
    (i j : ℕ) (e : WorkerEvent) (io : IoContext) (ws : List Worker)
    → io.is_stopped ≡ true
    → asked_to_stop ws ≡ true
    → ((step_nth j e io ws).0.is_stopped ≡ true)
      × (asked_to_stop (step_nth j e io ws).1 ≡ true)
      × (has_ended i ws ≡ true → has_ended i (step_nth j e io ws).1 ≡ true)
      × (has_ended j (step_nth j proceeds io ws).1 ≡ true)
unfolding step_nth asked_to_stop has_ended
step_nth-stopped i j e io [] s r = ground (arith, s)
step_nth-stopped zero zero e io (w ∷ ws) s r = ground (arith, s, r, worker_step-stopped e io w)
step_nth-stopped (suc i) zero e io (w ∷ ws) s r = ground (arith, s, r, worker_step-stopped e io w)
step_nth-stopped zero (suc j) e io (w ∷ ws) s r =
    ground (arith, s, r, step_nth-stopped zero j e io ws)
step_nth-stopped (suc i) (suc j) e io (w ∷ ws) s r =
    ground (arith, s, r, step_nth-stopped i j e io ws)

step-Halting :
    (i : ℕ) (c : NetworkContext) (m : ContextMove)
    → Halting c
    → Halting (step c m)
      × (has_ended i c.workers || occurs i (m ∷ []) ≡ true → has_ended i (step c m).workers ≡ true)
unfolding step start start_workers stop force_stop wait join_workers occurs has_ended asked_to_stop
step-Halting i c (starts b) v = ground (arith, v)
step-Halting i c stops v = ground (arith, v)
step-Halting i c force_stops v =
    ground (arith, v, requests-asked c.workers, requests-ended i c.workers)
step-Halting i c posts v = ground (arith, v)
step-Halting i c (waits w) v = ground (arith, v)
step-Halting i c (works j (handles n)) v =
    ground (arith, v, step_nth-stopped i j (handles n) c.io c.workers)
step-Halting i c (works j throws) v = ground (arith, v, step_nth-stopped i j throws c.io c.workers)
step-Halting i c (works j proceeds) v =
    ground (arith, v, step_nth-stopped i j proceeds c.io c.workers)

pub occurs-cons :
    (i : ℕ) (m : ContextMove) (ms : List ContextMove)
    → occurs i (m ∷ ms) ≡ occurs i (m ∷ []) || occurs i ms
unfolding occurs
occurs-cons i (works j proceeds) ms = ground arith
occurs-cons i (works j (handles n)) ms = refl
occurs-cons i (works j throws) ms = refl
occurs-cons i (starts b) ms = refl
occurs-cons i stops ms = refl
occurs-cons i force_stops ms = refl
occurs-cons i posts ms = refl
occurs-cons i (waits w) ms = refl

run-Halting :
    (i : ℕ) (ms : List ContextMove) (c : NetworkContext)
    → Halting c
    → Halting (run c ms)
      × (has_ended i c.workers || occurs i ms ≡ true → has_ended i (run c ms).workers ≡ true)
unfolding run occurs
run-Halting i [] c v = ground (arith, v)
run-Halting i (m ∷ ms) c v =
    let one = step-Halting i c m v in
    ground (arith, v, one, run-Halting i ms (step c m) one.0, occurs-cons i m ms)

pub ended_everywhere :
    (ws : List Worker) → ((i : ℕ) → has_ended i ws ≡ true) → all_finished ws ≡ true
unfolding has_ended all_finished
ended_everywhere [] h = refl
ended_everywhere (w ∷ ws) h = ground (arith, h 0, ended_everywhere ws (λ i. h (suc i)))

pub ended_beyond : (i : ℕ) (ws : List Worker) → length ws ≤ i → has_ended i ws ≡ true
unfolding has_ended
ended_beyond i [] h = refl
ended_beyond zero (w ∷ ws) h = absurd (ground (arith, h))
ended_beyond (suc i) (w ∷ ws) h = ended_beyond i ws (ground (arith, h))

force_stop-Halting :
    (c : NetworkContext)
    → 1 ≤ rank c.state
    → rank c.state ≤ 2
    → Halting (force_stop c) × (length (force_stop c).workers ≡ length c.workers)
unfolding force_stop
force_stop-Halting c a b = ground (arith, a, b, requests-asked c.workers, length-requests c.workers)

-- After force_stop of a context that was started and on which wait was not called, whatever else is
-- called or happens, even if handlers and operations are left: when every worker has come to its
-- next step once, all have ended, and a call of wait from outside returns without an error.
pub forced_stop_ends :
    (c : NetworkContext) (moves : List ContextMove)
    → 1 ≤ rank c.state
    → rank c.state ≤ 2
    → ((i : ℕ) → i < length c.workers → occurs i moves ≡ true)
    → let after = run (force_stop c) moves in
      (all_finished after.workers ≡ true) × ((wait false after).0 ≡ some (ok tt))
unfolding wait joins join_workers
forced_stop_ends c moves a b o =
    let halted = force_stop-Halting c a b in
    let after = run (force_stop c) moves in
    let each_ended : (i : ℕ) → has_ended i after.workers ≡ true = λ i.
      let kept = run-Halting i moves (force_stop c) halted.0 in
      ground (arith, kept, o i, halted.1, ended_beyond i (force_stop c).workers) in
    let all = ended_everywhere after.workers each_ended in
    let state = run-Halting 0 moves (force_stop c) halted.0 in (all, ground (arith, all, state))
