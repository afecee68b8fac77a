-- ===== src/World/Lifecycle/Stopping.antt =====
-- Starting and stopping the loop of src/server/world_instance.cpp.
use space_shooter_c.Prelude.{◌≡◌, refl, Bool, true, false, ◌||◌, List, [], ◌∷◌, ◌++◌, arith, foldl}
use space_shooter_c.Scalar.{Scalars}
use space_shooter_c.Snapshot.Serder.{FlatBuffers}
use space_shooter_c.AsteroidFactory.{Randomness}
use space_shooter_c.World.{World, ActionEvent, PendingJoin, stopped, receive}
use space_shooter_c.World.Actions.{
  Input, process_action, process_input_queue, quit_session, steer_session,
}
use space_shooter_c.World.Collisions.{resolve_collisions, reap_destroyed_ships}
use space_shooter_c.World.Spawn.{maintain_asteroid_population, spawn_ships, spawn_ship}
use space_shooter_c.World.Leaderboard.{PartialSort}
use space_shooter_c.World.Tick.{update_physics, broadcast_snapshot, run_tick_step}
use space_shooter_c.World.Lifecycle.{
  TimerResult, expired, aborted, failed, Task, do_start_task, do_stop_task, do_tick_task, Phase,
  idle, entered, scheduled, waiting, Loop, schedule_next_tick, run_task, expire, Move, starts,
  stops, strand_runs, timer_expires, timer_fails, hears, time_passes, strand_step, finish_tick,
  step, run,
}

abbrev pub has_stop : List Task → Bool
has_stop [] = false
has_stop (do_start_task ∷ ts) = has_stop ts
has_stop (do_stop_task ∷ ts) = true
has_stop (do_tick_task r ∷ ts) = has_stop ts

abbrev pub is_scheduled : Phase → Bool
is_scheduled idle = false
is_scheduled entered = false
is_scheduled scheduled = true
is_scheduled waiting = false

has_stop-snoc_tick :
    (ts : List Task) (r : TimerResult) → has_stop (ts ++ do_tick_task r ∷ []) ≡ has_stop ts
has_stop-snoc_tick [] r = refl
has_stop-snoc_tick (do_start_task ∷ ts) r = has_stop-snoc_tick ts r
has_stop-snoc_tick (do_stop_task ∷ ts) r = refl
has_stop-snoc_tick (do_tick_task q ∷ ts) r = has_stop-snoc_tick ts r

has_stop-snoc_start : (ts : List Task) → has_stop (ts ++ do_start_task ∷ []) ≡ has_stop ts
has_stop-snoc_start [] = refl
has_stop-snoc_start (do_start_task ∷ ts) = has_stop-snoc_start ts
has_stop-snoc_start (do_stop_task ∷ ts) = refl
has_stop-snoc_start (do_tick_task q ∷ ts) = has_stop-snoc_start ts

has_stop-snoc_stop : (ts : List Task) → has_stop (ts ++ do_stop_task ∷ []) ≡ true
has_stop-snoc_stop [] = refl
has_stop-snoc_stop (do_start_task ∷ ts) = has_stop-snoc_stop ts
has_stop-snoc_stop (do_stop_task ∷ ts) = refl
has_stop-snoc_stop (do_tick_task q ∷ ts) = has_stop-snoc_stop ts

module _ {F G : Type 0} where
  -- A stopped loop has no wait for the timer, pending or about to be made, unless a `doStop` that
  -- will cancel it is still to run.
  abbrev pub IsQuiet : Loop F G → Type 0
  IsQuiet l =
      l.world.state ≡ stopped
      → (l.world.armed || is_scheduled l.phase) ≡ true
      → has_stop l.tasks ≡ true

-- Which fields of the world a tick leaves alone.
abbrev pub SameClock : {F : Type 0} → World F → World F → Type 0
SameClock v w =
    (v.state ≡ w.state)
    × (v.armed ≡ w.armed)
    × (v.current_tick ≡ w.current_tick)
    × (v.timer_expiry ≡ w.timer_expiry)
    × (v.tick_interval ≡ w.tick_interval)

module _ (R : Scalars) where
  open R use {F}

  process_action-SameClock :
      (i : Input F) (a : ActionEvent F) → SameClock (process_action R i a).0 i.0
  unfolding process_action quit_session steer_session
  process_action-SameClock (w, joins) a = ground arith

  actions-SameClock :
      (actions : List (ActionEvent F)) (i : Input F)
      → SameClock (foldl (process_action R) i actions).0 i.0
  actions-SameClock [] i = ground arith
  actions-SameClock (a ∷ rest) i =
      ground (arith, actions-SameClock rest (process_action R i a), process_action-SameClock i a)

  spawn_ships-SameClock :
      (joins : List PendingJoin) (w : World F) → SameClock (spawn_ships R joins w) w
  unfolding spawn_ships spawn_ship
  spawn_ships-SameClock [] w = ground arith
  spawn_ships-SameClock (j ∷ js) w = ground (arith, spawn_ships-SameClock js (spawn_ship R w j))

  heard-SameClock : (w : World F) → SameClock (process_input_queue R w).0 w
  unfolding process_input_queue
  heard-SameClock w =
      ground (arith, actions-SameClock w.action_queue (record w { action_queue = [] }, []))

  resolve_collisions-SameClock : (w : World F) → SameClock (resolve_collisions R w).0 w
  unfolding resolve_collisions reap_destroyed_ships
  resolve_collisions-SameClock w = ground arith

  module _ (fb : FlatBuffers F) (partial_sort : PartialSort) {G : Type 0}
      (rng : Randomness F G) where
    pub run_tick_step-SameClock :
        (w : World F) (g : G) → SameClock (run_tick_step R fb partial_sort rng w g).0 w
    unfolding run_tick_step update_physics maintain_asteroid_population broadcast_snapshot
    run_tick_step-SameClock w g =
        let heard = process_input_queue R w in
        let moved = update_physics R (R.float_seconds w.tick_interval) heard.0 in
        let collided = resolve_collisions R moved in
        let populated = maintain_asteroid_population R rng collided.0 g in
        ground (
          arith,
          heard-SameClock w,
          resolve_collisions-SameClock moved,
          spawn_ships-SameClock heard.1 populated.0,
        )

    run_task-IsQuiet :
        (task : Task) (l : Loop F G)
        → l.phase ≡ idle
        → IsQuiet (record l { tasks = task ∷ l.tasks })
        → IsQuiet (run_task task l)
    unfolding run_task
    run_task-IsQuiet do_start_task l e q = ground (arith, has_stop-snoc_tick l.tasks aborted)
    run_task-IsQuiet do_stop_task l e q = ground arith
    run_task-IsQuiet (do_tick_task r) l e q = ground (arith, has_stop-snoc_tick l.tasks aborted)

    finish-IsQuiet : (l : Loop F G) → IsQuiet l → IsQuiet (finish_tick R fb partial_sort rng l)
    unfolding finish_tick
    finish-IsQuiet l q = ground (arith, run_tick_step-SameClock l.world l.rng)

    schedule-IsQuiet : (l : Loop F G) → IsQuiet l → IsQuiet (schedule_next_tick l)
    unfolding schedule_next_tick
    schedule-IsQuiet l q = ground (arith, has_stop-snoc_tick l.tasks aborted)

    idle-IsQuiet :
        (l : Loop F G) → l.phase ≡ idle → IsQuiet l → IsQuiet (strand_step R fb partial_sort rng l)
    unfolding strand_step
    idle-IsQuiet l e q = go l.tasks refl
      where
        go : (ts : List Task) → l.tasks ≡ ts → IsQuiet (strand_step R fb partial_sort rng l)
        go [] k = rw (e, k, strand_step) q
        go (t ∷ ts) k =
            rw (e, k, strand_step)
              (run_task-IsQuiet t (record l { tasks = ts }) e (λ a b. rw k at (q a b)))

    strand-IsQuiet : (l : Loop F G) → IsQuiet l → IsQuiet (strand_step R fb partial_sort rng l)
    unfolding strand_step
    strand-IsQuiet l q = go l.phase refl
      where
        go : (ph : Phase) → l.phase ≡ ph → IsQuiet (strand_step R fb partial_sort rng l)
        go idle e = idle-IsQuiet l e q
        go entered e = rw (e, strand_step) (schedule-IsQuiet l q)
        go scheduled e = rw (e, strand_step) (ground arith)
        go waiting e = rw (e, strand_step) (finish-IsQuiet l q)

    step-IsQuiet :
        (l : Loop F G) (move : Move F) → IsQuiet l → IsQuiet (step R fb partial_sort rng l move)
    unfolding step receive expire
    step-IsQuiet l starts q = ground (arith, has_stop-snoc_start l.tasks)
    step-IsQuiet l stops q = ground (
      arith,
      has_stop-snoc_stop l.tasks,
      has_stop-snoc_stop (l.tasks ++ do_tick_task aborted ∷ []),
    )
    step-IsQuiet l strand_runs q = strand-IsQuiet l q
    step-IsQuiet l timer_expires q = ground (arith, has_stop-snoc_tick l.tasks expired)
    step-IsQuiet l timer_fails q = ground (arith, has_stop-snoc_tick l.tasks failed)
    step-IsQuiet l (hears event) q = ground arith
    step-IsQuiet l (time_passes n) q = q

    run-IsQuiet :
        (moves : List (Move F)) (l : Loop F G)
        → IsQuiet l
        → IsQuiet (run R fb partial_sort rng l moves)
    unfolding run
    run-IsQuiet [] l q = q
    run-IsQuiet (m ∷ ms) l q = run-IsQuiet ms _ (step-IsQuiet l m q)

    -- Whatever the order of calls, events and handlers, from a loop that has no wait pending: when
    -- the loop is stopped and no `doStop` is left to run, no wait for the timer is pending and no
    -- handler is about to make one, so nothing keeps the io_context busy.
    pub stopped_loop_quiet :
        (moves : List (Move F)) (l : Loop F G)
        → l.world.armed ≡ false
        → l.phase ≡ idle
        → (run R fb partial_sort rng l moves).world.state ≡ stopped
        → has_stop (run R fb partial_sort rng l moves).tasks ≡ false
        → ((run R fb partial_sort rng l moves).world.armed ≡ false)
          × (is_scheduled (run R fb partial_sort rng l moves).phase ≡ false)
    stopped_loop_quiet moves l a e s h =
        let q = run-IsQuiet moves l (λ st ar. ground arith) in ground (arith, q s)
