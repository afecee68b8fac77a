-- ===== src/TcpServer/Accepting.antt =====
-- The sessions that src/server/tcp_server.cpp opens.
use space_shooter_c.Prelude.{
  ℕ, suc, ◌+◌, ◌^◌, ◌≤◌, ◌<◌, ◌≡◌, ◌≢◌, refl, true, false, none, some, List, [], ◌∷◌, ◌++◌,
  if◌then◌else◌, ◌==◌, arith, length, find_key-snoc,
}
use space_shooter_c.Events.{
  Event, network_message, send_packet, client_connected, player_join, client_disconnected,
  shot_message, ship_destroyed, player_move, broadcast_session_id,
}
use space_shooter_c.Session.{Session, fresh_session, start}
use space_shooter_c.SessionRegistry.{SessionRegistry, add_session, hear, get_session, events_served}
use space_shooter_c.TcpServer.{
  connection, aborted, other_error, TcpServer, ServerMove, starts, stops, accepts, hears,
  new_server, do_accept, start_server, stop_server, open_session, on_accept, step, run,
}

module _ {F : Type 0} where
  -- After at most `n` moves: the ids to come are free, and not the id of all clients.
  abbrev IdsFree : ℕ → TcpServer F → Type 0
  IdsFree n s =
      (1 ≤ s.next_session_id)
      × (s.next_session_id ≤ n + 1)
      × ((j : ℕ) → s.next_session_id ≤ j → get_session j s.session_registry ≡ none)

  hear-free :
      (event : Event F) (j : ℕ) (r : SessionRegistry F)
      → get_session j r ≡ none
      → get_session j (hear event r) ≡ none
  unfolding get_session hear
  hear-free (send_packet id payload) j r e = ground (arith, e, events_served id j payload r)
  hear-free (client_disconnected id) j r e = ground (arith, e, events_served id j [] r)
  hear-free (network_message id payload) j r e = e
  hear-free (client_connected id a) j r e = e
  hear-free (player_join id a) j r e = e
  hear-free (shot_message id) j r e = e
  hear-free (ship_destroyed id) j r e = e
  hear-free (player_move id a) j r e = e

  -- A session with a free id is found under it.
  find-add_session :
      (session : Session F) (j : ℕ) (r : SessionRegistry F)
      → get_session session.id r ≡ none
      → get_session j (add_session session r)
        ≡ (if session.id == j then some session else get_session j r)
  unfolding get_session add_session
  find-add_session session j r e = ground (arith, e, find_key-snoc j session.id session r.sessions)

  open-IdsFree :
      (n : ℕ) (address : List ℕ) (s : TcpServer F)
      → n + 2 < 2 ^ 64
      → IdsFree n s
      → IdsFree (suc n) (open_session address s)
  unfolding open_session start
  open-IdsFree n address s h v =
      let id = s.next_session_id in
      let session : Session F = start (fresh_session id) in
      (
        ground (arith, h, v),
        ground (arith, h, v),
        λ j e. ground (
          arith,
          h,
          v.0,
          v.1,
          e,
          v.2 id (ground arith),
          v.2 j,
          find-add_session session j s.session_registry,
        ),
      )

  step-IdsFree :
      (n : ℕ) (s : TcpServer F) (move : ServerMove F)
      → n + 2 < 2 ^ 64
      → IdsFree n s
      → IdsFree (suc n) (step s move)
  unfolding step start_server stop_server on_accept do_accept
  step-IdsFree n s starts h v = (v.0, ground (arith, v.1), v.2)
  step-IdsFree n s stops h v = (v.0, ground (arith, v.1), v.2)
  step-IdsFree n s (hears event) h v =
      (v.0, ground (arith, v.1), λ j e. hear-free event j s.session_registry (v.2 j e))
  step-IdsFree n s (accepts other_error) h v =
      (ground (arith, v.0), ground (arith, v.1), λ j e. ground (arith, e, v.2 j))
  step-IdsFree n s (accepts aborted) h v =
      (ground (arith, v.0), ground (arith, v.1), λ j e. ground (arith, e, v.2 j))
  step-IdsFree n s (accepts (connection address)) h v =
      let w = open-IdsFree n address (record s { accepting = false }) h v in
      (ground (arith, v.0, w.0), ground (arith, v.1, w.1), λ j e. ground (arith, e, v.2 j, w.2 j))

  run-IdsFree :
      (n : ℕ) (s : TcpServer F) (moves : List (ServerMove F))
      → n + length moves + 1 < 2 ^ 64
      → IdsFree n s
      → IdsFree (n + length moves) (run s moves)
  unfolding run
  run-IdsFree n s [] h v = ground (arith, v)
  run-IdsFree n s (m ∷ ms) h v =
      let w =
        run-IdsFree (suc n) (step s m) ms (ground (arith, h))
          (step-IdsFree n s m (ground (arith, h)) v) in
      (w.0, ground (arith, w.1), w.2)

  -- Whatever was accepted, published and stopped before, in fewer than 2 ^ 64 - 1 moves: the next
  -- client gets an id that no session has and that does not stand for all clients; its session,
  -- started, is found under this id, every other id is found as before, and its arrival is
  -- published; and the server waits for one more client exactly if the acceptor is still open.
  pub client_accepted :
      (moves : List (ServerMove F)) (address : List ℕ)
      → length moves + 1 < 2 ^ 64
      → (run new_server moves).accepting ≡ true
      → let s = run new_server moves in
        let t = on_accept (connection address) s in
        let id = s.next_session_id in
        (get_session id s.session_registry ≡ none)
        × (id ≢ broadcast_session_id)
        × ((j : ℕ)
            → get_session j t.session_registry ≡ (
                if id == j
                then some (start (fresh_session id))
                else get_session j s.session_registry))
        × (t.published ≡ s.published ++ client_connected id address ∷ [])
        × (t.accepting ≡ s.is_open)
  unfolding on_accept open_session do_accept start get_session
  client_accepted moves address h a =
      let s = run new_server moves in
      let id = s.next_session_id in
      let (least, most, free) =
        run-IdsFree 0 new_server moves (ground (arith, h))
          (ground arith, ground arith, λ j e. refl) in
      let there = free id (ground arith) in
      (
        there,
        λ e. ground (arith, least, e),
        λ j.
            ground
              (arith, a, there, find-add_session (start (fresh_session id)) j s.session_registry),
        ground (arith, a),
        ground (arith, a),
      )
