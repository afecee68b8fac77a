-- ===== src/ClientViews.antt =====
-- What the client draws: src/client/score_view.cpp, leaderboard_view.cpp and death_screen.cpp. Text is
-- the list of its bytes; std::format of a number is a parameter.
pub mod Shown
use space_shooter_c.Prelude.{
  ℕ, suc, ◌+◌, ◌*◌, ◌^◌, ◌≤◌, ◌<◌, ◌≡◌, refl, ap, inl, inr, Bool, true, false, not, ◌||◌, Option,
  none, some, List, [], ◌∷◌, ◌++◌, if◌then◌else◌, ◌==◌, leb, length, find_key, arith, Option-cases,
  Bool-cases, ascii, length-append,
}
use space_shooter_c.Snapshot.{EntitySnapshot, LeaderboardEntry, GameSnapshot}
use space_shooter_c.ClientWorld.{
  ClientWorld, emplace, emplace_all, update_snapshot, is_my_player_alive, update_death_screen,
}

-- A call of `IRenderer::drawText`.
pub record DrawnText : Type 0 where
  pub text : List ℕ
  pub x : ℕ
  pub y : ℕ

pub record ScoreView : Type 0 where
  pub last_score : ℕ
  pub cached_text : List ℕ
  pub is_initialized : Bool

abbrev pub new_score_view : ScoreView
new_score_view = record { last_score = 0; cached_text = []; is_initialized = false }

module _ {F : Type 0} where
  -- The score of the player's ship, and 0 without one.
  unfoldable pub current_score : ClientWorld F → ℕ
  current_score world = elim (find_key world.my_player_id world.entities) [
    | none ↦ 0
    | some entity ↦ elim entity.ship [ none ↦ 0 | some ship ↦ ship.score ]
  ]

abbrev pub line_height : ℕ
line_height = 25

module _ (decimal : ℕ → List ℕ) where
  abbrev pub score_text : ℕ → List ℕ
  score_text score = ascii "Score: " ++ decimal score

  -- The view that `render` leaves, and what it draws.
  unfoldable pub render_score : {F : Type 0} → ClientWorld F → ScoreView → ScoreView × DrawnText
  unfolding current_score
  render_score world view =
      let score = current_score world in
      let fresh : ScoreView = record {
        last_score = score;
        cached_text = score_text score;
        is_initialized = true;
      } in
      let shown : ScoreView =
        if not view.is_initialized || not (score == view.last_score) then fresh else view in
      (shown, record { text = shown.cached_text; x = 10; y = 10 })

  -- One line of the table: std::format_to_n writes at most 127 of the bytes, and `count` is the
  -- number of all. A string of more bytes than were written reads past them: none.
  unfoldable pub leaderboard_line : ℕ → LeaderboardEntry → Option (List ℕ)
  leaderboard_line place entry =
      let text = decimal place ++ ascii ". " ++ entry.name ++ ascii " - " ++ decimal entry.score in
      if leb (length text) 127 then some text else none

  -- `current_y` is an int: none is also its overflow, behind the last line too.
  unfoldable pub render_lines : ℕ → ℕ → List LeaderboardEntry → Option (List DrawnText)
  unfolding leaderboard_line
  render_lines i current_y [] = some []
  render_lines i current_y (entry ∷ rest) =
      let below = render_lines (suc i) (current_y + line_height) rest in
      if leb (2 ^ 31) (current_y + line_height)
      then none
      else (elim (leaderboard_line (i + 1) entry) [
        | none ↦ none
        | some text ↦ elim below [
          | none ↦ none
          | some lines ↦ some (record { text = text; x = 500; y = current_y } ∷ lines)
        ]
      ])

  unfoldable pub render_leaderboard : {F : Type 0} → ClientWorld F → Option (List DrawnText)
  unfolding render_lines
  render_leaderboard world = render_lines 0 50 world.leaderboard

  -- `DeathScreen::render`, of a screen that is active or not.
  unfoldable pub render_death_screen : Bool → ℕ → ℕ → List DrawnText
  render_death_screen is_active final_score place =
      let stats = ascii "Score: " ++ decimal final_score ++ ascii " | Place: " ++ decimal place in
      if is_active
      then record { text = ascii "YOU DIED"; x = 400; y = 300 }
        ∷ record { text = stats; x = 400; y = 330 }
        ∷ []
      else []
