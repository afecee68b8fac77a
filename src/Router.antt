-- ===== src/Router.antt =====
-- src/server/network_response_router.cpp: a message of a client becomes events. The events that a
-- call publishes are the list that it returns.
pub mod Contract
pub mod Requests
use space_shooter_c.Prelude.{
  ℕ, Option, none, some, List, [], ◌∷◌, if◌then◌else◌, drop, ascii, same_text, starts_with,
}
use space_shooter_c.Events.{
  Event, network_message, send_packet, player_join, shot_message, player_move, broadcast_session_id,
}

-- The listener for messages that the router does not know, with the state that it works on.
pub record Router (S : Type 0) : Type 0 where
  pub message_handler : Option (S → ℕ → List ℕ → S)

abbrev pub accept_bytes : List ℕ
accept_bytes = ascii "ACCEPT"

module _ {S : Type 0} where
  unfoldable pub set_message_handler : Option (S → ℕ → List ℕ → S) → Router S → Router S
  set_message_handler handler r = record r { message_handler = handler }

  unfoldable pub hand_over : Router S → ℕ → List ℕ → S → S
  hand_over r session payload s = elim r.message_handler [
    | none ↦ s
    | some handler ↦ handler s session payload
  ]

module _ {F : Type 0} where
  unfoldable pub send_to : ℕ → List ℕ → List (Event F)
  send_to session payload = send_packet session payload ∷ []

  unfoldable pub broadcast : List ℕ → List (Event F)
  broadcast payload = send_packet broadcast_session_id payload ∷ []

  -- `stod` is std::stod: no value where it throws.
  module _ (stod : List ℕ → Option F) where
    unfoldable pub on_move : ℕ → List ℕ → List (Event F)
    on_move session text = elim (stod text) [
      | none ↦ []
      | some angle ↦ player_move session angle ∷ []
    ]

    module _ {S : Type 0} (r : Router S) where
      unfoldable pub on_message_received : ℕ → List ℕ → S → List (Event F) × S
      on_message_received session msg s =
          if same_text msg (ascii "SHOOT")
          then (shot_message session ∷ [], s)
          else if starts_with (ascii "JOIN ") msg
          then (player_join session (drop 5 msg) ∷ send_packet session accept_bytes ∷ [], s)
          else if starts_with (ascii "MOVE ") msg
          then (on_move session (drop 5 msg), s)
          else ([], hand_over r session msg s)

      -- The subscriptions: connections are only logged.
      unfoldable pub route : Event F → S → List (Event F) × S
      route (network_message session payload) s = on_message_received session payload s
      route _ s = ([], s)
