-- ===== src/Protocol.antt =====
-- src/common/protocol.h and protocol.cpp: the messages as lists of bytes, in ASCII.
pub mod Decoding
use space_shooter_c.Prelude.{
  ℕ, Bool, true, false, ◌||◌, Option, none, some, List, [], ◌∷◌, ◌++◌, if◌then◌else◌, ◌==◌, ascii,
  same_text,
}
use space_shooter_c.Types.{Direction}

pub data ServerMsgType : Type 0 where
  accept reject game_end unknown : ServerMsgType

pub record ServerMsg : Type 0 where
  pub type : ServerMsgType
  pub argument : List ℕ

unfoldable pub direction_wire : Direction → List ℕ
direction_wire Direction.up = ascii "up"
direction_wire Direction.down = ascii "down"
direction_wire Direction.left = ascii "left"
direction_wire Direction.right = ascii "right"

unfoldable pub encode_join : List ℕ → List ℕ
encode_join player_name = ascii "JOIN " ++ player_name

unfoldable pub encode_move : Direction → List ℕ
unfolding direction_wire
encode_move direction = ascii "MOVE " ++ direction_wire direction

unfoldable pub encode_shoot : List ℕ
encode_shoot = ascii "SHOOT"

-- The text up to the first space, and what is behind it: nothing, if there is no space.
unfoldable pub split_space : List ℕ → List ℕ × List ℕ
split_space [] = ([], [])
split_space (b ∷ text) =
    let (keyword, rest) = split_space text in if b == 32 then ([], text) else (b ∷ keyword, rest)

abbrev pub is_blank : ℕ → Bool
is_blank b = b == 32 || b == 9

-- From the first byte that is neither a space nor a tab.
unfoldable pub skip_blanks : List ℕ → List ℕ
skip_blanks [] = []
skip_blanks (b ∷ text) = let rest = skip_blanks text in if is_blank b then rest else b ∷ text

unfoldable pub keyword_type : List ℕ → ServerMsgType
keyword_type keyword =
    if same_text keyword (ascii "ACCEPT")
    then accept
    else if same_text keyword (ascii "REJECT")
    then reject
    else if same_text keyword (ascii "GAME_END")
    then game_end
    else unknown

unfoldable pub decode : List ℕ → ServerMsg
decode text =
    let (keyword, rest) = split_space text in
    record { type = keyword_type keyword; argument = skip_blanks rest }
