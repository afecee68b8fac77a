-- ===== src/Router/Requests.antt =====
-- The requests of clients on their way through src/server/network_response_router.cpp into the queue
-- of the world.
use space_shooter_c.Prelude.{ℕ, Option, List, [], ◌∷◌, ◌++◌}
use space_shooter_c.Scalar.{Scalars}
use space_shooter_c.Types.{Direction}
use space_shooter_c.Events.{Event, network_message, send_packet}
use space_shooter_c.Protocol
use space_shooter_c.Router.{Router, route}
use space_shooter_c.World.{World, ActionEvent, join_action, shot_action}

-- What a client can encode.
pub data Request : Type 0 where
  joins : List ℕ → Request
  shoots : Request
  moves : Direction → Request

abbrev pub encode_request : Request → List ℕ
encode_request (joins name) = Protocol.encode_join name
encode_request shoots = Protocol.encode_shoot
encode_request (moves direction) = Protocol.encode_move direction

-- What a client reads of the packets that are published for it.
abbrev answer : {F : Type 0} → Event F → List (ℕ × Protocol.ServerMsg)
answer (send_packet session payload) = (session, Protocol.decode payload) ∷ []
answer _ = []

abbrev pub answers : {F : Type 0} → List (Event F) → List (ℕ × Protocol.ServerMsg)
answers [] = []
answers (event ∷ events) = answer event ++ answers events

-- The answers that the rules ask for: each join is accepted.
abbrev pub acceptances : List (ℕ × Request) → List (ℕ × Protocol.ServerMsg)
acceptances [] = []
acceptances ((session, joins name) ∷ requests) =
    (session, record { type = Protocol.ServerMsgType.accept; argument = [] }) ∷ acceptances requests
acceptances ((session, shoots) ∷ requests) = acceptances requests
acceptances ((session, moves direction) ∷ requests) = acceptances requests

module _ (R : Scalars) {S : Type 0} (r : Router S) (stod : List ℕ → Option R.F) where
  open R use {F}

  -- The actions that the rules ask for: one for each join and each shot.
  abbrev pub actions : List (ℕ × Request) → List (ActionEvent F)
  actions [] = []
  actions ((session, joins name) ∷ requests) = join_action R session name ∷ actions requests
  actions ((session, shoots) ∷ requests) = shot_action R session ∷ actions requests
  actions ((session, moves direction) ∷ requests) = actions requests

  -- The messages arrive one after the other.
  unfoldable pub route_all : List (ℕ × Request) → S → List (Event F) × S
  route_all [] s = ([], s)
  route_all ((session, request) ∷ requests) s =
      let one = route stod r (network_message session (encode_request request)) s in
      let rest = route_all requests one.1 in (one.0 ++ rest.0, rest.1)
