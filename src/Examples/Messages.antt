-- ===== src/Examples/Messages.antt =====
-- Messages of clients at concrete texts.
use space_shooter_c.Prelude.{
  ℕ, ◌+◌, ◌≡◌, Option, none, some, List, [], ◌∷◌, if◌then◌else◌, ascii, arith,
}
use space_shooter_c.Types.{Direction}
use space_shooter_c.Protocol
use space_shooter_c.Events.{network_message}
use space_shooter_c.Router.{Router, route}
use space_shooter_c.Router.Contract.{begins_number, IsStrict, hear, move_dropped}
use space_shooter_c.Router.Requests.{Request, joins, shoots, moves}
use space_shooter_c.Examples.Samples.{whole}
use space_shooter_c.Examples.Worlds.{one_player}

-- A conversion that knows the numbers of one digit.
abbrev one_digit : List ℕ → Option ℕ
one_digit [] = none
one_digit (b ∷ text) = if begins_number b then some b else none

abbrev counting : Router ℕ
counting = record { message_handler = some (λ n session payload. n + 1) }

one_digit-IsStrict : IsStrict one_digit
one_digit-IsStrict = record { refuses = λ b text h. ground arith }

abbrev asked : List (ℕ × Request)
asked = (7, joins (ascii "bo")) ∷ (8, moves Direction.up) ∷ (7, shoots) ∷ []

move_dropped_example :
    let moved =
      route one_digit counting (network_message 7 (Protocol.encode_move Direction.left)) 0 in
    (moved ≡ ([], 0)) × (hear whole counting one_digit one_player moved.0 ≡ one_player)
move_dropped_example =
    move_dropped whole counting one_digit 7 Direction.left one_player 0 one_digit-IsStrict
