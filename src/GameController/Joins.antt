-- ===== src/GameController/Joins.antt =====
-- How often src/client/game_controller.cpp asks to join.
use space_shooter_c.Prelude.{
  ℕ, ◌+◌, ◌%◌, ◌^◌, ◌≤◌, ◌≡◌, refl, Bool, List, [], ◌∷◌, ◌++◌, arith, if◌then◌else◌,
}
use space_shooter_c.Protocol
use space_shooter_c.GameController.{
  TcpCall, connect, disconnect, send_join, send_shot, ControllerTask, start_task, rejoin_task,
  message_task, shutdown_task, disconnect_task, connected_task, shoot_task, Controller,
  ControllerMove, starts, rejoins, hears, shuts_down, shoots, drops, connect_ends, strand_runs,
  start, rejoin, do_start, do_shutdown, do_send_join, on_connected, on_disconnect, handle,
  on_message_on_strand, do_shoot, run_task, strand_step, step, run, is_connecting,
}

abbrev pub joins : List TcpCall → ℕ
joins [] = 0
joins (connect g ∷ cs) = joins cs
joins (disconnect ∷ cs) = joins cs
joins (send_join b ∷ cs) = 1 + joins cs
joins (send_shot ∷ cs) = joins cs

abbrev pub connects : List TcpCall → ℕ
connects [] = 0
connects (connect g ∷ cs) = 1 + connects cs
connects (disconnect ∷ cs) = connects cs
connects (send_join b ∷ cs) = connects cs
connects (send_shot ∷ cs) = connects cs

joins-snoc : (cs : List TcpCall) (c : TcpCall) → joins (cs ++ c ∷ []) ≡ joins cs + joins (c ∷ [])
joins-snoc [] c = omega arith
joins-snoc (connect g ∷ cs) c = joins-snoc cs c
joins-snoc (disconnect ∷ cs) c = joins-snoc cs c
joins-snoc (send_join b ∷ cs) c = omega (arith, joins-snoc cs c)
joins-snoc (send_shot ∷ cs) c = joins-snoc cs c

connects-snoc :
    (cs : List TcpCall) (c : TcpCall) → connects (cs ++ c ∷ []) ≡ connects cs + connects (c ∷ [])
connects-snoc [] c = omega arith
connects-snoc (connect g ∷ cs) c = omega (arith, connects-snoc cs c)
connects-snoc (disconnect ∷ cs) c = connects-snoc cs c
connects-snoc (send_join b ∷ cs) c = connects-snoc cs c
connects-snoc (send_shot ∷ cs) c = connects-snoc cs c

module _ {F : Type 0} where
  -- Every request to join was paid for by a connect, and so is the one that may still come.
  abbrev pub Paid : Controller F → Type 0
  Paid c = joins c.calls + (if is_connecting c.state then 1 else 0) ≤ connects c.calls

  do_start-Paid : (name : List ℕ) (c : Controller F) → Paid c → Paid (do_start name c)
  unfolding do_start
  do_start-Paid name c v =
      let gen = (c.connect_gen + 1) % 2 ^ 64 in
      ground (arith, v, joins-snoc c.calls (connect gen), connects-snoc c.calls (connect gen))

  do_shutdown-Paid : (c : Controller F) → Paid c → Paid (do_shutdown c)
  unfolding do_shutdown
  do_shutdown-Paid c v =
      ground (arith, v, joins-snoc c.calls disconnect, connects-snoc c.calls disconnect)

  on_connected-Paid :
      (ok : Bool) (gen : ℕ) (c : Controller F) → Paid c → Paid (on_connected ok gen c)
  unfolding on_connected do_send_join
  on_connected-Paid ok gen c v =
      let join = send_join (Protocol.encode_join c.player_name) in
      ground (arith, v, joins-snoc c.calls join, connects-snoc c.calls join)

  handle-Paid : (t : Protocol.ServerMsgType) (c : Controller F) → Paid c → Paid (handle t c)
  unfolding handle
  handle-Paid Protocol.ServerMsgType.accept c v = ground (arith, v)
  handle-Paid Protocol.ServerMsgType.reject c v = do_shutdown-Paid c v
  handle-Paid Protocol.ServerMsgType.game_end c v = ground (arith, v)
  handle-Paid Protocol.ServerMsgType.unknown c v = v

  message-Paid :
      (payload : List ℕ) (c : Controller F) → Paid c → Paid (on_message_on_strand payload c)
  unfolding on_message_on_strand
  message-Paid payload c v = ground (arith, v, handle-Paid (Protocol.decode payload).type c v)

  run_task-Paid :
      (now : ℕ) (t : ControllerTask) (c : Controller F) → Paid c → Paid (run_task now t c)
  unfolding run_task on_disconnect do_shoot
  run_task-Paid now (start_task name) c v = do_start-Paid name c v
  run_task-Paid now (rejoin_task name) c v =
      do_start-Paid name (do_shutdown c) (do_shutdown-Paid c v)
  run_task-Paid now (message_task payload) c v = message-Paid payload c v
  run_task-Paid now shutdown_task c v = do_shutdown-Paid c v
  run_task-Paid now disconnect_task c v = ground (arith, v)
  run_task-Paid now (connected_task ok gen) c v = on_connected-Paid ok gen c v
  run_task-Paid now shoot_task c v =
      ground (arith, v, joins-snoc c.calls send_shot, connects-snoc c.calls send_shot)

  strand-Paid : (now : ℕ) (c : Controller F) → Paid c → Paid (strand_step now c)
  unfolding strand_step
  strand-Paid now c v = go c.tasks refl
    where
      go : (ts : List ControllerTask) → c.tasks ≡ ts → Paid (strand_step now c)
      go [] e = ground (arith, v, e)
      go (t ∷ ts) e = ground (arith, v, e, run_task-Paid now t (record c { tasks = ts }) v)

  step-Paid : (c : Controller F) (move : ControllerMove) → Paid c → Paid (step c move)
  unfolding step start rejoin
  step-Paid c (starts name) v = ground (arith, v)
  step-Paid c (rejoins name) v = ground (arith, v)
  step-Paid c (hears payload) v = v
  step-Paid c shuts_down v = v
  step-Paid c shoots v = v
  step-Paid c drops v = v
  step-Paid c (connect_ends ok gen) v = v
  step-Paid c (strand_runs now) v = strand-Paid now c v

  -- Whatever the application, the callbacks of the connection (stale ones too) and the server do, in
  -- whatever order: as long as a controller has asked to join at most as often as it had called
  -- connect, counting the connect that is under way, it never asks to join more often.
  pub one_join_per_connect :
      (moves : List ControllerMove) (c : Controller F)
      → joins c.calls + (if is_connecting c.state then 1 else 0) ≤ connects c.calls
      → joins (run c moves).calls ≤ connects (run c moves).calls
  unfolding run
  one_join_per_connect [] c v = omega (arith, v)
  one_join_per_connect (m ∷ ms) c v = one_join_per_connect ms (step c m) (step-Paid c m v)
