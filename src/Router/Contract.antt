-- ===== src/Router/Contract.antt =====
-- What a client of src/common/protocol.cpp says, and what src/server/network_response_router.cpp and
-- the world of src/server/world_instance.cpp make of it.
use space_shooter_c.Prelude.{
  ℕ, ◌≡◌, refl, Bool, false, ◌||◌, ◌&&◌, Option, none, some, List, [], ◌∷◌, ◌++◌, ◌==◌, leb, foldl,
  ascii,
}
use space_shooter_c.Scalar.{Scalars}
use space_shooter_c.Types.{Direction}
use space_shooter_c.Events.{Event, network_message}
use space_shooter_c.Protocol
use space_shooter_c.Router.{Router, on_move, on_message_received, route}
use space_shooter_c.World.{World, enqueue_action, receive, on_player_move, move_action}

-- A byte that a number for std::stod may begin with: white space, a sign, a digit, the point, or the
-- first letter of `inf` and `nan`.
abbrev pub begins_number : ℕ → Bool
begins_number b =
    leb b 32
    || b == 43
    || b == 45
    || b == 46
    || leb 48 b && leb b 57
    || b == 73
    || b == 105
    || b == 78
    || b == 110

-- std::stod throws if no conversion can be performed.
pub record IsStrict {F : Type 0} (stod : List ℕ → Option F) : Type 0 where
  pub refuses : (b : ℕ) (text : List ℕ) → begins_number b ≡ false → stod (b ∷ text) ≡ none

module _ (R : Scalars) {S : Type 0} (r : Router S) (stod : List ℕ → Option R.F) where
  open R use {F}

  -- The world after it heard all events that the router published.
  abbrev pub hear : World F → List (Event F) → World F
  hear w events = foldl (λ v e. receive R e v) w events

  -- A move is heard if what stands behind the keyword is a number: the world queues an action with
  -- that angle.
  pub angle_heard :
      (session : ℕ) (text : List ℕ) (angle : F) (w : World F) (s : S)
      → stod text ≡ some angle
      → hear w (route stod r (network_message session (ascii "MOVE " ++ text)) s).0
        ≡ record w { action_queue = w.action_queue ++ move_action R session angle ∷ [] }
  unfolding route on_message_received on_move receive on_player_move enqueue_action
  angle_heard session text angle w s h = rw (h, on_move) refl

  -- The moves that a client can encode are words, and the router takes only numbers: none of them
  -- has any effect, on the world or on the handler.
  pub move_dropped :
      (session : ℕ) (direction : Direction) (w : World F) (s : S)
      → IsStrict stod
      → let moved = route stod r (network_message session (Protocol.encode_move direction)) s in
        (moved ≡ ([], s)) × (hear w moved.0 ≡ w)
  unfolding route on_message_received on_move Protocol.encode_move Protocol.direction_wire
  move_dropped session Direction.up w s strict =
      rw (strict.refuses 117 (ascii "p") refl, on_move) (refl, refl)
  move_dropped session Direction.down w s strict =
      rw (strict.refuses 100 (ascii "own") refl, on_move) (refl, refl)
  move_dropped session Direction.left w s strict =
      rw (strict.refuses 108 (ascii "eft") refl, on_move) (refl, refl)
  move_dropped session Direction.right w s strict =
      rw (strict.refuses 114 (ascii "ight") refl, on_move) (refl, refl)
