-- ===== src/Examples/Servers.antt =====
-- The parts around the sessions of the server at concrete histories.
use space_shooter_c.Prelude.{
  ℕ, zero, suc, ◌+◌, ◌<◌, ◌≡◌, ◌≢◌, refl, true, false, none, some, List, [], ◌∷◌, ◌++◌, ok, arith,
  if◌then◌else◌, ◌==◌,
}
use space_shooter_c.Events.{client_connected, client_disconnected, broadcast_session_id}
use space_shooter_c.Session
use space_shooter_c.Session.{fresh_session}
use space_shooter_c.SessionRegistry.{get_session}
use space_shooter_c.NetworkContext.{
  NetworkContext, worker_step, run_returns, after_run, step_nth, started, running, new_context,
  all_finished, wait, handles, proceeds, ContextMove, posts, works, waits, force_stops, new_worker,
  stop, force_stop, step, run,
}
use space_shooter_c.NetworkContext.Stopping.{occurs, forced_stop_ends}
use space_shooter_c.NetworkContext.Draining.{anyone_runs, is_calm, stop_drains}
use space_shooter_c.NetworkContext.Early.{posted, early_stop_loses}
use space_shooter_c.NetworkContext.Busy.{is_busy, wait_blocks, is_endless, late_force_stop_fails}
use space_shooter_c.EventBus.{
  Signals, CallsInOrder, BusMove, subscribes, publishes, create, counter_after, publish,
  publish_event,
}
use space_shooter_c.EventBus
use space_shooter_c.EventBus.Delivery.{delivery}
use space_shooter_c.TcpServer
use space_shooter_c.TcpServer.{
  ServerMove, accepts, hears, connection, other_error, new_server, on_accept,
}
use space_shooter_c.TcpServer.Accepting.{client_accepted}

-- A pool of two workers, one of them in run(), with three handlers that wait.
abbrev pool : NetworkContext
pool = record (new_context 2) {
  state = started;
  workers =
      record { phase = running 0; stop_requested = false }
      ∷ record { phase = running 4; stop_requested = false }
      ∷ [];
  io = record { is_stopped = false; guarded = true; work = 3 };
}

abbrev both : List ContextMove
both = works 1 (handles 0) ∷ works 1 proceeds ∷ posts ∷ works 0 proceeds ∷ []

both_step : (i : ℕ) → i < 2 → occurs i both ≡ true
unfolding occurs
both_step zero h = refl
both_step (suc zero) h = refl
both_step (suc (suc i)) h = absurd (ground (arith, h))

forced_stop_ends_example :
    let after = run (force_stop pool) both in
    (all_finished after.workers ≡ true) × ((wait false after).0 ≡ some (ok tt))
forced_stop_ends_example = forced_stop_ends pool both (omega arith) (omega arith) both_step

abbrev drained : List ContextMove
drained =
    works 0 (handles 1)
    ∷ works 1 proceeds
    ∷ works 0 (handles 0)
    ∷ works 1 (handles 0)
    ∷ works 1 (handles 0)
    ∷ works 0 proceeds
    ∷ works 1 proceeds
    ∷ []

stop_drains_example : (run (stop pool) drained).io.work ≡ 0
unfolding anyone_runs is_calm run step stop step_nth worker_step run_returns after_run all_finished
stop_drains_example = stop_drains pool drained refl refl refl refl refl

-- The pool before its workers have reached their loops.
abbrev early_pool : NetworkContext
early_pool = record pool { workers = new_worker ∷ new_worker ∷ [] }

early_stop_loses_example :
    let after = run (stop early_pool) both in
    (after.io.work ≡ 3 + posted both) × ((wait false after).0 ≡ some (ok tt))
unfolding anyone_runs
early_stop_loses_example = early_stop_loses early_pool both refl refl both_step

-- A timer that is armed again, twice.
abbrev ticking : List ContextMove
ticking = works 0 (handles 1) ∷ waits false ∷ works 0 (handles 1) ∷ works 0 proceeds ∷ []

wait_blocks_example : (wait false (run (stop pool) ticking)).0 ≡ none
unfolding anyone_runs is_busy
wait_blocks_example = wait_blocks pool ticking refl refl (omega arith) refl refl

late_force_stop_fails_example :
    let after = run (wait false (stop pool)).1 (force_stops ∷ ticking) in
    ((wait false after).0 ≡ none) × (force_stop after ≡ after)
unfolding anyone_runs is_endless
late_force_stop_fails_example =
    late_force_stop_fails pool (force_stops ∷ ticking) refl refl (omega arith) refl refl

abbrev plain_signals : Signals
plain_signals = record {
  Signal = List ℕ;
  new_signal = [];
  attach = λ s slot. s ++ slot ∷ [];
  slots = λ s. s;
}

plain-CallsInOrder : CallsInOrder plain_signals
plain-CallsInOrder = record { slots-new = refl; slots-attach = λ s slot. refl }

-- Three subscriptions to two types, of which the second was never published before.
abbrev subscriptions : List BusMove
subscriptions = subscribes 20 1 ∷ subscribes 30 2 ∷ publishes 40 ∷ subscribes 20 3 ∷ []

delivery_example :
    let bus =
      EventBus.run plain_signals (create plain_signals (counter_after (10 ∷ []))) subscriptions in
    ((publish plain_signals 20 bus).0 ≡ 1 ∷ 3 ∷ [])
    × (publish_event plain_signals 20 bus ≡ some (1 ∷ 3 ∷ []))
delivery_example = delivery plain_signals plain-CallsInOrder (10 ∷ []) subscriptions 20

-- One client that came and left, and an accept that failed.
abbrev arrivals : List (ServerMove ℕ)
arrivals =
    TcpServer.starts
    ∷ accepts (connection (1 ∷ []))
    ∷ hears (client_disconnected 1)
    ∷ accepts other_error
    ∷ []

client_accepted_example :
    let s = TcpServer.run new_server arrivals in
    let t = on_accept (connection (2 ∷ [])) s in
    let id = s.next_session_id in
    (get_session id s.session_registry ≡ none)
    × (id ≢ broadcast_session_id)
    × ((j : ℕ)
        → get_session j t.session_registry ≡ (
            if id == j
            then some (Session.start (fresh_session id))
            else get_session j s.session_registry))
    × (t.published ≡ s.published ++ client_connected id (2 ∷ []) ∷ [])
    × (t.accepting ≡ s.is_open)
unfolding TcpServer.run TcpServer.step TcpServer.start_server TcpServer.do_accept on_accept
client_accepted_example = client_accepted arrivals (2 ∷ []) (omega arith) refl
