-- ===== src/Events.antt =====
-- The events of src/server/network_events.h. A session id is a 64-bit number, text the list of its
-- bytes.
use space_shooter_c.Prelude.{ℕ, List}

pub data Event (F : Type 0) : Type 0 where
  network_message : ℕ → List ℕ → Event F
  send_packet : ℕ → List ℕ → Event F
  client_connected : ℕ → List ℕ → Event F
  player_join : ℕ → List ℕ → Event F
  client_disconnected : ℕ → Event F
  shot_message : ℕ → Event F
  ship_destroyed : ℕ → Event F
  player_move : ℕ → F → Event F

-- The session id that stands for all clients.
abbrev pub broadcast_session_id : ℕ
broadcast_session_id = 0
