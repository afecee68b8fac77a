-- ===== src/World/Lifecycle.antt =====
-- The tick loop of src/server/world_instance.cpp: `start`, `stop`, and the handlers that run one at a
-- time on the strand. `start` and `stop` are called from any thread, also while a handler runs, so
-- the handler of a tick goes in phases. Time is in microseconds.
pub mod Stopping
pub mod Restarting
use space_shooter_c.Prelude.{
  ℕ, ◌+◌, ◌*◌, ◌%◌, ◌^◌, Bool, true, false, List, [], ◌∷◌, ◌++◌, if◌then◌else◌, ltb,
}
use space_shooter_c.Scalar.{Scalars}
use space_shooter_c.Snapshot.Serder.{FlatBuffers}
use space_shooter_c.AsteroidFactory.{Randomness}
use space_shooter_c.Events.{Event}
use space_shooter_c.World.{World, State, stopped, running, receive}
use space_shooter_c.World.Leaderboard.{PartialSort}
use space_shooter_c.World.Tick.{run_tick_step}

-- The error code that the tick timer hands to its handler.
pub data TimerResult : Type 0 where
  expired aborted failed : TimerResult

-- What waits on the strand, in order.
pub data Task : Type 0 where
  do_start_task do_stop_task : Task
  do_tick_task : TimerResult → Task

-- How far `doTick` has come: not running; past its test of the state; past the test and the new
-- deadline of `scheduleNextTick`; past `async_wait`.
pub data Phase : Type 0 where
  idle entered scheduled waiting : Phase

pub record Loop (F G : Type 0) : Type 0 where
  pub world : World F
  pub rng : G
  pub tasks : List Task
  pub phase : Phase
  pub now : ℕ

abbrev pub max_missed_ticks : ℕ
max_missed_ticks = 1

abbrev pub is_running : State → Bool
is_running running = true
is_running stopped = false

-- The deadline that `scheduleNextTick` sets: the previous one and an interval, or, if that lies
-- more than an interval in the past, an interval from now.
unfoldable pub next_expiry : ℕ → ℕ → ℕ → ℕ
next_expiry expiry interval now =
    if ltb (expiry + interval + interval * max_missed_ticks) now
    then now + interval
    else expiry + interval

module _ {F G : Type 0} where
  abbrev pub post : Task → Loop F G → Loop F G
  post task l = record l { tasks = l.tasks ++ task ∷ [] }

  abbrev pub set_world : World F → Loop F G → Loop F G
  set_world w l = record l { world = w }

  -- `cancel`, and `expires_at`: a pending wait ends with `operation_aborted`.
  unfoldable pub cancel_timer : Loop F G → Loop F G
  cancel_timer l =
      if l.world.armed
      then post (do_tick_task aborted) (set_world (record l.world { armed = false }) l)
      else l

  unfoldable pub shutdown_tick_loop : Loop F G → Loop F G
  unfolding cancel_timer
  shutdown_tick_loop l =
      let quiet = cancel_timer l in set_world (record quiet.world { action_queue = [] }) quiet

  unfoldable pub set_expiry : ℕ → Loop F G → Loop F G
  unfolding cancel_timer
  set_expiry expiry l =
      let quiet = cancel_timer l in set_world (record quiet.world { timer_expiry = expiry }) quiet

  abbrev pub async_wait : Loop F G → Loop F G
  async_wait l = set_world (record l.world { armed = true }) l

  unfoldable pub do_start : Loop F G → Loop F G
  unfolding set_expiry
  do_start l = elim l.world.state [
    | running ↦ l
    | stopped ↦ async_wait (
        set_expiry (l.now + l.world.tick_interval)
          (set_world (record l.world { state = running }) l))
  ]

  unfoldable pub do_stop : Loop F G → Loop F G
  unfolding shutdown_tick_loop
  do_stop l = shutdown_tick_loop l

  -- `doTick` up to its test of the state.
  unfoldable pub enter_tick : TimerResult → Loop F G → Loop F G
  unfolding shutdown_tick_loop
  enter_tick aborted l = l
  enter_tick failed l = shutdown_tick_loop (set_world (record l.world { state = stopped }) l)
  enter_tick expired l = if is_running l.world.state then record l { phase = entered } else l

  -- `scheduleNextTick` up to `async_wait`: the state is tested again.
  unfoldable pub schedule_next_tick : Loop F G → Loop F G
  unfolding set_expiry next_expiry
  schedule_next_tick l =
      if is_running l.world.state
      then record (set_expiry (next_expiry l.world.timer_expiry l.world.tick_interval l.now) l) {
        phase = scheduled;
      }
      else record l { phase = waiting }

  unfoldable pub run_task : Task → Loop F G → Loop F G
  unfolding do_start do_stop enter_tick
  run_task do_start_task l = do_start l
  run_task do_stop_task l = do_stop l
  run_task (do_tick_task result) l = enter_tick result l

  unfoldable pub call_start : Loop F G → Loop F G
  call_start l = post do_start_task l

  unfoldable pub call_stop : Loop F G → Loop F G
  unfolding cancel_timer
  call_stop l = post do_stop_task (cancel_timer (set_world (record l.world { state = stopped }) l))

  -- The wait for the timer ends.
  unfoldable pub expire : TimerResult → Loop F G → Loop F G
  expire result l =
      if l.world.armed
      then post (do_tick_task result) (set_world (record l.world { armed = false }) l)
      else l

-- What may happen next: a call from another thread, an event, time, the timer, or the strand.
pub data Move (F : Type 0) : Type 0 where
  starts stops strand_runs timer_expires timer_fails : Move F
  hears : Event F → Move F
  time_passes : ℕ → Move F

module _ (R : Scalars) where
  open R use {F}

  module _ (fb : FlatBuffers F) (partial_sort : PartialSort) {G : Type 0}
      (rng : Randomness F G) where
    -- The rest of `doTick`.
    unfoldable pub finish_tick : Loop F G → Loop F G
    finish_tick l =
        let (w, g) = run_tick_step R fb partial_sort rng l.world l.rng in
        record l {
          world = record w { current_tick = (w.current_tick + 1) % 2 ^ 64 };
          rng = g;
          phase = idle;
        }

    -- The strand goes on with its handler, or takes the next task.
    unfoldable pub strand_step : Loop F G → Loop F G
    unfolding schedule_next_tick run_task finish_tick
    strand_step l = elim l.phase [
      | idle ↦ elim l.tasks [ [] ↦ l | task ∷ rest ↦ run_task task (record l { tasks = rest }) ]
      | entered ↦ schedule_next_tick l
      | scheduled ↦ record (async_wait l) { phase = waiting }
      | waiting ↦ finish_tick l
    ]

    unfoldable pub step : Loop F G → Move F → Loop F G
    unfolding call_start call_stop expire strand_step
    step l starts = call_start l
    step l stops = call_stop l
    step l strand_runs = strand_step l
    step l timer_expires = if ltb l.now l.world.timer_expiry then l else expire expired l
    step l timer_fails = expire failed l
    step l (hears event) = set_world (receive R event l.world) l
    step l (time_passes n) = record l { now = l.now + n }

    unfoldable pub run : Loop F G → List (Move F) → Loop F G
    run l [] = l
    run l (move ∷ moves) = run (step l move) moves
