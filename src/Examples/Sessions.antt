-- ===== src/Examples/Sessions.antt =====
-- Sessions and their table at concrete histories.
use space_shooter_c.Prelude.{
  ℕ, ◌+◌, ◌≤◌, ◌≡◌, refl, true, false, ◌||◌, List, [], ◌∷◌, ◌++◌, ok, if◌then◌else◌, ◌==◌, none,
}
use space_shooter_c.FrameCodec.{encode, buffers}
use space_shooter_c.FrameCodec.Bytes.{native_to_big}
use space_shooter_c.FrameCodec.RoundTrip.{wire}
use space_shooter_c.Events.{network_message, send_packet, client_disconnected, broadcast_session_id}
use space_shooter_c.Session.{
  Session, SessionMove, starts, closes, strand_runs, sends, write_done, fresh_session, run,
}
use space_shooter_c.Session.Closing.{closes_once, disconnects, close_tasks}
use space_shooter_c.Session.Reading.{arrivals, frames_received}
use space_shooter_c.Session.Delivery.{writes_in_order}
use space_shooter_c.SessionRegistry.{SessionRegistry, get_session, hear, served, events_served}

abbrev listening : Session ℕ
listening = record (fresh_session 3) { reading = true }

-- The frame of 1, 2, 3 in three pieces.
abbrev pieces : List (List ℕ)
pieces = (0xDE ∷ []) ∷ (0xAD ∷ 0xBE ∷ 0xEF ∷ 0 ∷ 0 ∷ 0 ∷ 3 ∷ 1 ∷ []) ∷ (2 ∷ 3 ∷ []) ∷ []

frames_received_example :
    ((run listening (arrivals pieces)).published ≡ network_message 3 (1 ∷ 2 ∷ 3 ∷ []) ∷ [])
    × ((run listening (arrivals pieces)).read_buffer ≡ [])
    × ((run listening (arrivals pieces)).reading ≡ true)
unfolding wire encode buffers native_to_big
frames_received_example =
    frames_received ((1 ∷ 2 ∷ 3 ∷ []) ∷ []) pieces listening refl refl refl refl

abbrev history : List SessionMove
history =
    starts
    ∷ sends (5 ∷ [])
    ∷ strand_runs
    ∷ sends (6 ∷ [])
    ∷ strand_runs
    ∷ strand_runs
    ∷ write_done
    ∷ closes
    ∷ closes
    ∷ strand_runs
    ∷ []

closes_once_example :
    let s = run {F = ℕ} (fresh_session 3) history in
    disconnects s.published + close_tasks s.tasks ≡ (if s.closed then 1 else 0)
closes_once_example = closes_once ℕ 3 history

writes_in_order_example :
    let s = run {F = ℕ} (fresh_session 3) history in
    (sent : List (List ℕ)) × (rest : List (List ℕ)) × (sent ++ rest ≡ (5 ∷ []) ∷ (6 ∷ []) ∷ [])
    × (wire sent ≡ ok s.wire)
    × (s.writes_pending ≤ 1)
    × (s.closed ≡ false → s.tasks ≡ [] → s.writes_pending ≡ 0 → rest ≡ [])
writes_in_order_example = writes_in_order ℕ 3 history

abbrev two_sessions : SessionRegistry ℕ
two_sessions = record { sessions = (3, fresh_session 3) ∷ (4, listening) ∷ []; removed = [] }

events_served_example :
    (get_session 3 (hear (send_packet 0 (9 ∷ [])) two_sessions)
      ≡ served (0 == broadcast_session_id || 0 == 3) (9 ∷ []) (get_session 3 two_sessions))
    × (get_session 3 (hear (client_disconnected 0) two_sessions)
        ≡ (if 0 == 3 then none else get_session 3 two_sessions))
events_served_example = events_served 0 3 (9 ∷ []) two_sessions
