-- ===== src/World/Lifecycle/Restarting.antt =====
-- Ticks after `stop` of src/server/world_instance.cpp, and a `start` that `stop` overtakes.
use space_shooter_c.Prelude.{ℕ, ◌≡◌, refl, Bool, true, false, not, ◌&&◌, List, [], ◌∷◌, ◌++◌, arith}
use space_shooter_c.Scalar.{Scalars}
use space_shooter_c.Snapshot.Serder.{FlatBuffers}
use space_shooter_c.AsteroidFactory.{Randomness}
use space_shooter_c.World.{stopped, running, receive}
use space_shooter_c.World.Leaderboard.{PartialSort}
use space_shooter_c.World.Lifecycle.{
  TimerResult, expired, aborted, failed, Task, do_start_task, do_stop_task, do_tick_task, idle,
  Loop, run_task, expire, Move, starts, stops, strand_runs, timer_expires, timer_fails, hears,
  time_passes, strand_step, step, run,
}

-- No `doStart` waits on the strand.
abbrev pub no_start : List Task → Bool
no_start [] = true
no_start (do_start_task ∷ ts) = false
no_start (do_stop_task ∷ ts) = no_start ts
no_start (do_tick_task r ∷ ts) = no_start ts

-- Only `doStart` and aborted ticks wait on the strand.
abbrev pub inert : List Task → Bool
inert [] = true
inert (do_start_task ∷ ts) = inert ts
inert (do_stop_task ∷ ts) = false
inert (do_tick_task expired ∷ ts) = false
inert (do_tick_task aborted ∷ ts) = inert ts
inert (do_tick_task failed ∷ ts) = false

abbrev pub is_start : {F : Type 0} → Move F → Bool
is_start starts = true
is_start stops = false
is_start strand_runs = false
is_start timer_expires = false
is_start timer_fails = false
is_start (hears e) = false
is_start (time_passes n) = false

abbrev pub is_stop : {F : Type 0} → Move F → Bool
is_stop starts = false
is_stop stops = true
is_stop strand_runs = false
is_stop timer_expires = false
is_stop timer_fails = false
is_stop (hears e) = false
is_stop (time_passes n) = false

abbrev pub never {ℓ} : {A : Type ℓ} → (A → Bool) → List A → Bool
never p [] = true
never p (x ∷ xs) = not (p x) && never p xs

no_start-snoc_stop :
    (ts : List Task) → no_start ts ≡ true → no_start (ts ++ do_stop_task ∷ []) ≡ true
no_start-snoc_stop [] h = refl
no_start-snoc_stop (do_start_task ∷ ts) h = cc
no_start-snoc_stop (do_stop_task ∷ ts) h = no_start-snoc_stop ts h
no_start-snoc_stop (do_tick_task q ∷ ts) h = no_start-snoc_stop ts h

no_start-snoc_tick :
    (ts : List Task) (r : TimerResult)
    → no_start ts ≡ true
    → no_start (ts ++ do_tick_task r ∷ []) ≡ true
no_start-snoc_tick [] r h = refl
no_start-snoc_tick (do_start_task ∷ ts) r h = cc
no_start-snoc_tick (do_stop_task ∷ ts) r h = no_start-snoc_tick ts r h
no_start-snoc_tick (do_tick_task q ∷ ts) r h = no_start-snoc_tick ts r h

inert-snoc_start : (ts : List Task) → inert ts ≡ true → inert (ts ++ do_start_task ∷ []) ≡ true
inert-snoc_start [] h = refl
inert-snoc_start (do_start_task ∷ ts) h = inert-snoc_start ts h
inert-snoc_start (do_stop_task ∷ ts) h = cc
inert-snoc_start (do_tick_task expired ∷ ts) h = cc
inert-snoc_start (do_tick_task aborted ∷ ts) h = inert-snoc_start ts h
inert-snoc_start (do_tick_task failed ∷ ts) h = cc

module _ {F G : Type 0} where
  -- Stopped, between two handlers, with no `doStart` to come; `n` ticks so far.
  pub record IsHalted (n : ℕ) (l : Loop F G) : Type 0 where
    pub is_stopped : l.world.state ≡ stopped
    pub resting : l.phase ≡ idle
    pub unstarted : no_start l.tasks ≡ true
    pub ticks : l.world.current_tick ≡ n

  -- Running, but with no wait pending and nothing on the strand that would make one.
  pub record IsStuck (n : ℕ) (l : Loop F G) : Type 0 where
    pub is_running : l.world.state ≡ running
    pub resting : l.phase ≡ idle
    pub unarmed : l.world.armed ≡ false
    pub nothing_to_come : inert l.tasks ≡ true
    pub ticks : l.world.current_tick ≡ n

module _ (R : Scalars) (fb : FlatBuffers R.F) (partial_sort : PartialSort) {G : Type 0}
    (rng : Randomness R.F G) where
  open R use {F}

  task-IsHalted :
      (n : ℕ) (t : Task) (l : Loop F G)
      → IsHalted n (record l { tasks = t ∷ l.tasks })
      → IsHalted n (run_task t l)
  unfolding run_task
  task-IsHalted n do_start_task l v = absurd (ground (arith, v.unstarted))
  task-IsHalted n do_stop_task l v = ground (arith, no_start-snoc_tick l.tasks aborted)
  task-IsHalted n (do_tick_task expired) l v = ground arith
  task-IsHalted n (do_tick_task aborted) l v = ground arith
  task-IsHalted n (do_tick_task failed) l v = ground (arith, no_start-snoc_tick l.tasks aborted)

  strand-IsHalted :
      (n : ℕ) (l : Loop F G) → IsHalted n l → IsHalted n (strand_step R fb partial_sort rng l)
  unfolding strand_step
  strand-IsHalted n l v = go l.tasks refl
    where
      go : (ts : List Task) → l.tasks ≡ ts → IsHalted n (strand_step R fb partial_sort rng l)
      go [] k = rw (v.resting, k, strand_step) v
      go (t ∷ ts) k =
          rw (v.resting, k, strand_step)
            (task-IsHalted n t (record l { tasks = ts })
              (record {
                is_stopped = v.is_stopped;
                resting = v.resting;
                unstarted = rw k at v.unstarted;
                ticks = v.ticks;
              }))

  step-IsHalted :
      (n : ℕ) (l : Loop F G) (move : Move F)
      → is_start move ≡ false
      → IsHalted n l
      → IsHalted n (step R fb partial_sort rng l move)
  unfolding step receive expire
  step-IsHalted n l starts h v = cc
  step-IsHalted n l stops h v = ground (
    arith,
    no_start-snoc_stop l.tasks,
    no_start-snoc_tick l.tasks aborted,
    no_start-snoc_stop (l.tasks ++ do_tick_task aborted ∷ []),
  )
  step-IsHalted n l strand_runs h v = strand-IsHalted n l v
  step-IsHalted n l timer_expires h v = ground (arith, no_start-snoc_tick l.tasks expired)
  step-IsHalted n l timer_fails h v = ground (arith, no_start-snoc_tick l.tasks failed)
  step-IsHalted n l (hears event) h v = ground arith
  step-IsHalted n l (time_passes k) h v = ground arith

  -- A halted loop stays halted, and its world is not ticked, until `start` is called again:
  -- whatever events, expiries of the timer and calls of `stop` come in between.
  pub run-IsHalted :
      (n : ℕ) (moves : List (Move F)) (l : Loop F G)
      → never is_start moves ≡ true
      → IsHalted n l
      → IsHalted n (run R fb partial_sort rng l moves)
  unfolding run
  run-IsHalted n [] l h v = v
  run-IsHalted n (m ∷ ms) l h v =
      run-IsHalted n ms _ (ground arith) (step-IsHalted n l m (ground arith) v)

  task-IsStuck :
      (n : ℕ) (t : Task) (l : Loop F G)
      → IsStuck n (record l { tasks = t ∷ l.tasks })
      → IsStuck n (run_task t l)
  unfolding run_task
  task-IsStuck n do_start_task l v = ground arith
  task-IsStuck n do_stop_task l v = absurd (ground (arith, v.nothing_to_come))
  task-IsStuck n (do_tick_task expired) l v = absurd (ground (arith, v.nothing_to_come))
  task-IsStuck n (do_tick_task aborted) l v = ground arith
  task-IsStuck n (do_tick_task failed) l v = absurd (ground (arith, v.nothing_to_come))

  strand-IsStuck :
      (n : ℕ) (l : Loop F G) → IsStuck n l → IsStuck n (strand_step R fb partial_sort rng l)
  unfolding strand_step
  strand-IsStuck n l v = go l.tasks refl
    where
      go : (ts : List Task) → l.tasks ≡ ts → IsStuck n (strand_step R fb partial_sort rng l)
      go [] k = rw (v.resting, k, strand_step) v
      go (t ∷ ts) k =
          rw (v.resting, k, strand_step)
            (task-IsStuck n t (record l { tasks = ts })
              (record {
                is_running = v.is_running;
                resting = v.resting;
                unarmed = v.unarmed;
                nothing_to_come = rw k at v.nothing_to_come;
                ticks = v.ticks;
              }))

  step-IsStuck :
      (n : ℕ) (l : Loop F G) (move : Move F)
      → is_stop move ≡ false
      → IsStuck n l
      → IsStuck n (step R fb partial_sort rng l move)
  unfolding step receive expire
  step-IsStuck n l starts h v = ground (arith, inert-snoc_start l.tasks)
  step-IsStuck n l stops h v = cc
  step-IsStuck n l strand_runs h v = strand-IsStuck n l v
  step-IsStuck n l timer_expires h v = ground arith
  step-IsStuck n l timer_fails h v = ground arith
  step-IsStuck n l (hears event) h v = ground arith
  step-IsStuck n l (time_passes k) h v = ground arith

  run-IsStuck :
      (n : ℕ) (moves : List (Move F)) (l : Loop F G)
      → never is_stop moves ≡ true
      → IsStuck n l
      → IsStuck n (run R fb partial_sort rng l moves)
  unfolding run
  run-IsStuck n [] l h v = v
  run-IsStuck n (m ∷ ms) l h v =
      run-IsStuck n ms _ (ground arith) (step-IsStuck n l m (ground arith) v)

  -- If `stop` is called before the strand has run the `doStart` of a `start`, the loop ends up
  -- running with no wait pending, and stays so: no later `start` makes it tick, only another `stop`
  -- can get it out.
  pub start_then_stop_sticks :
      (n : ℕ) (moves : List (Move F)) (l : Loop F G)
      → never is_stop moves ≡ true
      → l.world.state ≡ stopped
      → l.world.armed ≡ false
      → l.phase ≡ idle
      → l.tasks ≡ []
      → l.world.current_tick ≡ n
      → IsStuck n (run R fb partial_sort rng l (starts ∷ stops ∷ strand_runs ∷ strand_runs ∷ moves))
  unfolding run step strand_step run_task
  start_then_stop_sticks n moves l h s a p e c = run-IsStuck n moves _ h (ground arith)
