-- ===== src/GameController/Shots.antt =====
-- How often src/client/game_controller.cpp asks for a shot.
use space_shooter_c.Prelude.{
  ℕ, ◌+◌, ◌%◌, ◌^◌, ◌<◌, ◌≡◌, refl, true, Bool, List, [], ◌∷◌, ◌++◌, arith,
}
use space_shooter_c.Protocol
use space_shooter_c.GameController.{
  TcpCall, connect, disconnect, send_join, send_shot, ControllerTask, start_task, rejoin_task,
  message_task, shutdown_task, disconnect_task, connected_task, shoot_task, Controller,
  ControllerMove, starts, rejoins, hears, shuts_down, shoots, drops, connect_ends, strand_runs,
  time_min, cools_down, start, rejoin, do_start, do_shutdown, do_send_join, on_connected,
  on_disconnect, handle, on_message_on_strand, do_shoot, run_task, strand_step, step, run,
}

abbrev pub shots : List TcpCall → ℕ
shots [] = 0
shots (connect g ∷ cs) = shots cs
shots (disconnect ∷ cs) = shots cs
shots (send_join b ∷ cs) = shots cs
shots (send_shot ∷ cs) = 1 + shots cs

shots-snoc : (cs : List TcpCall) (c : TcpCall) → shots (cs ++ c ∷ []) ≡ shots cs + shots (c ∷ [])
shots-snoc [] c = omega arith
shots-snoc (connect g ∷ cs) c = shots-snoc cs c
shots-snoc (disconnect ∷ cs) c = shots-snoc cs c
shots-snoc (send_join b ∷ cs) c = shots-snoc cs c
shots-snoc (send_shot ∷ cs) c = omega (arith, shots-snoc cs c)

-- Every time at which the strand runs is one of the clock after its epoch.
abbrev pub AfterEpoch : List ControllerMove → Type 0
AfterEpoch [] = Unit
AfterEpoch (starts n ∷ ms) = AfterEpoch ms
AfterEpoch (rejoins n ∷ ms) = AfterEpoch ms
AfterEpoch (hears p ∷ ms) = AfterEpoch ms
AfterEpoch (shuts_down ∷ ms) = AfterEpoch ms
AfterEpoch (shoots ∷ ms) = AfterEpoch ms
AfterEpoch (drops ∷ ms) = AfterEpoch ms
AfterEpoch (connect_ends b g ∷ ms) = AfterEpoch ms
AfterEpoch (strand_runs now ∷ ms) = (now < 2 ^ 63) × AfterEpoch ms

first_shot_waits : (now : ℕ) → now < 2 ^ 63 → cools_down now time_min ≡ true
unfolding cools_down
first_shot_waits now h = ground arith

module _ {F : Type 0} where
  -- No shot so far but `n` earlier ones, and no time of a last shot.
  abbrev pub Unshot : ℕ → Controller F → Type 0
  Unshot n c = (shots c.calls ≡ n) × (c.last_shot_time ≡ time_min)

  do_start-Unshot :
      (n : ℕ) (name : List ℕ) (c : Controller F) → Unshot n c → Unshot n (do_start name c)
  unfolding do_start
  do_start-Unshot n name c v =
      ground (arith, v, shots-snoc c.calls (connect ((c.connect_gen + 1) % 2 ^ 64)))

  do_shutdown-Unshot : (n : ℕ) (c : Controller F) → Unshot n c → Unshot n (do_shutdown c)
  unfolding do_shutdown
  do_shutdown-Unshot n c v = ground (arith, v, shots-snoc c.calls disconnect)

  on_connected-Unshot :
      (n : ℕ) (ok : Bool) (gen : ℕ) (c : Controller F)
      → Unshot n c
      → Unshot n (on_connected ok gen c)
  unfolding on_connected do_send_join
  on_connected-Unshot n ok gen c v =
      ground (arith, v, shots-snoc c.calls (send_join (Protocol.encode_join c.player_name)))

  handle-Unshot :
      (n : ℕ) (t : Protocol.ServerMsgType) (c : Controller F) → Unshot n c → Unshot n (handle t c)
  unfolding handle
  handle-Unshot n Protocol.ServerMsgType.accept c v = ground (arith, v)
  handle-Unshot n Protocol.ServerMsgType.reject c v = do_shutdown-Unshot n c v
  handle-Unshot n Protocol.ServerMsgType.game_end c v = ground (arith, v)
  handle-Unshot n Protocol.ServerMsgType.unknown c v = v

  message-Unshot :
      (n : ℕ) (payload : List ℕ) (c : Controller F)
      → Unshot n c
      → Unshot n (on_message_on_strand payload c)
  unfolding on_message_on_strand
  message-Unshot n payload c v =
      ground (arith, v, handle-Unshot n (Protocol.decode payload).type c v)

  run_task-Unshot :
      (n now : ℕ) (t : ControllerTask) (c : Controller F)
      → now < 2 ^ 63
      → Unshot n c
      → Unshot n (run_task now t c)
  unfolding run_task on_disconnect do_shoot
  run_task-Unshot n now (start_task name) c h v = do_start-Unshot n name c v
  run_task-Unshot n now (rejoin_task name) c h v =
      do_start-Unshot n name (do_shutdown c) (do_shutdown-Unshot n c v)
  run_task-Unshot n now (message_task payload) c h v = message-Unshot n payload c v
  run_task-Unshot n now shutdown_task c h v = do_shutdown-Unshot n c v
  run_task-Unshot n now disconnect_task c h v = ground (arith, v)
  run_task-Unshot n now (connected_task ok gen) c h v = on_connected-Unshot n ok gen c v
  run_task-Unshot n now shoot_task c h v = ground (arith, v, first_shot_waits now h)

  strand-Unshot :
      (n now : ℕ) (c : Controller F) → now < 2 ^ 63 → Unshot n c → Unshot n (strand_step now c)
  unfolding strand_step
  strand-Unshot n now c h v = go c.tasks refl
    where
      go : (ts : List ControllerTask) → c.tasks ≡ ts → Unshot n (strand_step now c)
      go [] e = ground (arith, v, e)
      go (t ∷ ts) e = ground (arith, v, e, run_task-Unshot n now t (record c { tasks = ts }) h v)

  -- A controller whose last shot is at the earliest time, as after its construction, sends no shot,
  -- whatever the world, the server and the application do, if the strand runs at times after the
  -- epoch of the clock.
  pub never_shoots :
      (n : ℕ) (moves : List ControllerMove) (c : Controller F)
      → AfterEpoch moves
      → shots c.calls ≡ n
      → c.last_shot_time ≡ time_min
      → shots (run c moves).calls ≡ n
  unfolding run step start rejoin
  never_shoots n [] c h s l = s
  never_shoots n (starts name ∷ ms) c h s l =
      never_shoots n ms (start name c) h (ground (arith, s)) (ground (arith, l))
  never_shoots n (rejoins name ∷ ms) c h s l =
      never_shoots n ms (rejoin name c) h (ground (arith, s)) (ground (arith, l))
  never_shoots n (hears payload ∷ ms) c h s l = never_shoots n ms _ h s l
  never_shoots n (shuts_down ∷ ms) c h s l = never_shoots n ms _ h s l
  never_shoots n (shoots ∷ ms) c h s l = never_shoots n ms _ h s l
  never_shoots n (drops ∷ ms) c h s l = never_shoots n ms _ h s l
  never_shoots n (connect_ends ok gen ∷ ms) c h s l = never_shoots n ms _ h s l
  never_shoots n (strand_runs now ∷ ms) c h s l =
      let v = strand-Unshot n now c h.0 (s, l) in never_shoots n ms (strand_step now c) h.1 v.0 v.1
