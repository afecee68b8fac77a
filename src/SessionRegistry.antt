-- ===== src/SessionRegistry.antt =====
-- The table of the sessions: src/server/session_registry.h and session_registry.cpp. A session that
-- was taken out lives on while its handlers run: it is among `removed`.
use space_shooter_c.Prelude.{
  ℕ, ◌≡◌, refl, Bool, true, ◌||◌, Option, none, some, List, [], ◌∷◌, ◌++◌, arith, if◌then◌else◌,
  ◌==◌, find_key, remove_key, find_key-remove_key,
}
use space_shooter_c.Events.{Event, send_packet, client_disconnected, broadcast_session_id}
use space_shooter_c.Session.{Session, send, close}

pub record SessionRegistry (F : Type 0) : Type 0 where
  pub sessions : List (ℕ × Session F)
  pub removed : List (Session F)

abbrev pub SessionMap : Type 0 → Type 0
SessionMap F = List (ℕ × Session F)

module _ {F : Type 0} where
  -- `emplace`: a key that is there stays as it is.
  unfoldable pub add_session : Session F → SessionRegistry F → SessionRegistry F
  add_session session r = elim (find_key session.id r.sessions) [
    | some there ↦ r
    | none ↦ record r { sessions = r.sessions ++ (session.id, session) ∷ [] }
  ]

  unfoldable pub remove_session : ℕ → SessionRegistry F → SessionRegistry F
  remove_session id r = elim (find_key id r.sessions) [
    | none ↦ r
    | some session ↦ record {
      sessions = remove_key id r.sessions;
      removed = r.removed ++ close session ∷ [];
    }
  ]

  unfoldable pub send_all : List ℕ → SessionMap F → SessionMap F
  send_all payload [] = []
  send_all payload ((id, session) ∷ m) = (id, send payload session) ∷ send_all payload m

  -- A call of `send` on the session that the table holds under an id.
  unfoldable pub send_one : ℕ → List ℕ → SessionMap F → SessionMap F
  send_one i payload [] = []
  send_one i payload ((id, session) ∷ m) =
      let rest = send_one i payload m in
      if id == i then (id, send payload session) ∷ m else (id, session) ∷ rest

  unfoldable pub broadcast : List ℕ → SessionRegistry F → SessionRegistry F
  unfolding send_all
  broadcast payload r = record r { sessions = send_all payload r.sessions }

  unfoldable pub on_send_packet : ℕ → List ℕ → SessionRegistry F → SessionRegistry F
  unfolding broadcast send_one
  on_send_packet id payload r =
      if id == broadcast_session_id
      then broadcast payload r
      else record r { sessions = send_one id payload r.sessions }

  unfoldable pub get_session : ℕ → SessionRegistry F → Option (Session F)
  get_session id r = find_key id r.sessions

  -- The two subscriptions.
  unfoldable pub hear : Event F → SessionRegistry F → SessionRegistry F
  unfolding on_send_packet remove_session
  hear (send_packet id payload) r = on_send_packet id payload r
  hear (client_disconnected id) r = remove_session id r
  hear _ r = r

  -- The session that the table finds, after a call of `send` if it is one that the packet is for.
  abbrev pub served : Bool → List ℕ → Option (Session F) → Option (Session F)
  served addressed payload none = none
  served addressed payload (some s) = some (if addressed then send payload s else s)

  find-send_all :
      (j : ℕ) (payload : List ℕ) (m : SessionMap F)
      → find_key j (send_all payload m) ≡ served true payload (find_key j m)
  unfolding send_all
  find-send_all j payload [] = refl
  find-send_all j payload ((id, s) ∷ m) = ground (arith, find-send_all j payload m)

  find-send_one :
      (i j : ℕ) (payload : List ℕ) (m : SessionMap F)
      → find_key j (send_one i payload m) ≡ served (i == j) payload (find_key j m)
  unfolding send_one
  find-send_one i j payload [] = refl
  find-send_one i j payload ((id, s) ∷ m) = ground (arith, find-send_one i j payload m)

  -- A packet is sent to the session with its id, or, with the id 0, to every session in the table,
  -- and to no other; a client that left is found no more, and every other session is found as it
  -- was.
  pub events_served :
      (id j : ℕ) (payload : List ℕ) (r : SessionRegistry F)
      → (get_session j (hear (send_packet id payload) r)
          ≡ served (id == broadcast_session_id || id == j) payload (get_session j r))
        × (get_session j (hear (client_disconnected id) r)
            ≡ (if id == j then none else get_session j r))
  unfolding get_session hear
  events_served id j payload r = (
    ground (arith, find-send_all j payload r.sessions, find-send_one id j payload r.sessions),
    ground (arith, find_key-remove_key id j r.sessions),
  )
