-- ===== src/Examples/Loops.antt =====
-- The tick loop at concrete histories.
use space_shooter_c.Prelude.{ℕ, ◌≡◌, refl, false, List, [], ◌∷◌}
use space_shooter_c.World.Lifecycle.{
  Move, Loop, starts, stops, strand_runs, timer_expires, time_passes, run, step,
}
use space_shooter_c.World.Lifecycle.Stopping.{stopped_loop_quiet, is_scheduled}
use space_shooter_c.World.Lifecycle.Restarting.{
  IsHalted, IsStuck, run-IsHalted, start_then_stop_sticks,
}
use space_shooter_c.Examples.Samples.{whole}
use space_shooter_c.Examples.Buffers.{plain_buffers}
use space_shooter_c.Examples.Worlds.{low_draw, keep_order, resting_loop}

abbrev run_here : List (Move ℕ) → Loop ℕ ℕ
run_here moves = run whole plain_buffers keep_order low_draw resting_loop moves

-- A start, a stop before the first tick, and everything that the strand then has to do.
abbrev start_and_stop : List (Move ℕ)
start_and_stop = starts ∷ strand_runs ∷ time_passes 5 ∷ stops ∷ strand_runs ∷ strand_runs ∷ []

stopped_loop_quiet_example :
    ((run_here start_and_stop).world.armed ≡ false)
    × (is_scheduled (run_here start_and_stop).phase ≡ false)
unfolding run step
stopped_loop_quiet_example =
    stopped_loop_quiet whole plain_buffers keep_order low_draw start_and_stop resting_loop refl refl
      refl refl

run-IsHalted_example :
    IsHalted 4 (run_here (stops ∷ strand_runs ∷ time_passes 900 ∷ timer_expires ∷ strand_runs ∷ []))
run-IsHalted_example =
    run-IsHalted whole plain_buffers keep_order low_draw 4
      (stops ∷ strand_runs ∷ time_passes 900 ∷ timer_expires ∷ strand_runs ∷ []) resting_loop refl
      (record { is_stopped = refl; resting = refl; unstarted = refl; ticks = refl })

start_then_stop_sticks_example : IsStuck 4 (
    run_here (
      starts
      ∷ stops
      ∷ strand_runs
      ∷ strand_runs
      ∷ starts
      ∷ strand_runs
      ∷ time_passes 900
      ∷ timer_expires
      ∷ strand_runs
      ∷ []))
start_then_stop_sticks_example =
    start_then_stop_sticks whole plain_buffers keep_order low_draw 4
      (starts ∷ strand_runs ∷ time_passes 900 ∷ timer_expires ∷ strand_runs ∷ []) resting_loop refl
      refl refl refl refl refl
