-- ===== src/ClientViews/Shown.antt =====
-- The texts that the views of src/client draw.
use space_shooter_c.Prelude.{
  ℕ, suc, ◌+◌, ◌*◌, ◌^◌, ◌≤◌, ◌<◌, ◌≡◌, refl, true, some, List, [], ◌∷◌, ◌++◌, length, arith, ascii,
  length-append, map,
}
use space_shooter_c.Snapshot.{LeaderboardEntry}
use space_shooter_c.ClientWorld.{ClientWorld}
use space_shooter_c.ClientViews.{
  DrawnText, ScoreView, new_score_view, current_score, score_text, render_score, leaderboard_line,
  line_height, render_lines, render_leaderboard,
}

-- The cache holds the text of the score that it was made for.
abbrev IsFresh : (ℕ → List ℕ) → ScoreView → Type 0
IsFresh decimal view =
    view.is_initialized ≡ true → view.cached_text ≡ score_text decimal view.last_score

module _ (decimal : ℕ → List ℕ) {F : Type 0} where
  -- What a view draws of the worlds, one after the other.
  unfoldable pub drawn_scores : ScoreView → List (ClientWorld F) → List (List ℕ)
  unfolding render_score
  drawn_scores view [] = []
  drawn_scores view (world ∷ worlds) =
      let (shown, drawn) = render_score decimal world view in drawn.text ∷ drawn_scores shown worlds

  render-IsFresh :
      (world : ClientWorld F) (view : ScoreView)
      → IsFresh decimal view
      → IsFresh decimal (render_score decimal world view).0
        × ((render_score decimal world view).1.text ≡ score_text decimal (current_score world))
  unfolding render_score
  render-IsFresh world view v = ground (arith, v)

  scores_drawn :
      (worlds : List (ClientWorld F)) (view : ScoreView)
      → IsFresh decimal view
      → drawn_scores view worlds ≡ map (λ w. score_text decimal (current_score w)) worlds
  unfolding drawn_scores
  scores_drawn [] view v = refl
  scores_drawn (w ∷ ws) view v =
      let (kept, text) = render-IsFresh w view v in
      ground (arith, text, scores_drawn ws (render_score decimal w view).0 kept)

  -- The cache is never stale: whatever worlds a new view is shown, one after the other, it draws for
  -- each the text of its own score.
  pub score_never_stale :
      (worlds : List (ClientWorld F))
      → drawn_scores new_score_view worlds ≡ map (λ w. score_text decimal (current_score w)) worlds
  score_never_stale worlds = scores_drawn worlds new_score_view (λ e. absurd (ground (arith, e)))

-- The lines of a table, each whole and below the last.
abbrev pub whole_lines : (ℕ → List ℕ) → ℕ → ℕ → List LeaderboardEntry → List DrawnText
whole_lines decimal i y [] = []
whole_lines decimal i y (e ∷ es) =
    record {
      text = decimal (i + 1) ++ ascii ". " ++ e.name ++ ascii " - " ++ decimal e.score;
      x = 500;
      y = y;
    }
    ∷ whole_lines decimal (suc i) (y + line_height) es

-- Names as a snapshot can carry them, of at most 32 bytes, and scores of 32 bits.
abbrev pub AllShort : List LeaderboardEntry → Type 0
AllShort [] = Unit {0}
AllShort (e ∷ es) = (length e.name ≤ 32) × (e.score < 2 ^ 32) × AllShort es

module _ (decimal : ℕ → List ℕ) (digits : (n : ℕ) → n < 2 ^ 64 → length (decimal n) ≤ 20) where
  line_fits :
      (place : ℕ) (e : LeaderboardEntry)
      → place < 2 ^ 64
      → length e.name ≤ 32
      → e.score < 2 ^ 32
      → length (decimal place ++ ascii ". " ++ e.name ++ ascii " - " ++ decimal e.score) ≤ 127
  line_fits place e p n s =
      let a = decimal place in
      let b = a ++ ascii ". " in
      let c = b ++ e.name in
      ground (
        arith,
        n,
        digits place p,
        digits e.score (ground (arith, s)),
        length-append a (ascii ". "),
        length-append b e.name,
        length-append c (ascii " - "),
        length-append (c ++ ascii " - ") (decimal e.score),
      )

  lines_fit :
      (i y : ℕ) (es : List LeaderboardEntry)
      → i + length es + 1 < 2 ^ 64
      → y + length es * line_height < 2 ^ 31
      → AllShort es
      → render_lines decimal i y es ≡ some (whole_lines decimal i y es)
  unfolding render_lines leaderboard_line
  lines_fit i y [] h b v = refl
  lines_fit i y (e ∷ es) h b v = ground (
    arith,
    line_fits (i + 1) e (ground (arith, h)) v.0 v.1,
    lines_fit (suc i) (y + line_height) es (ground (arith, h)) (ground (arith, b)) v.2,
    b,
  )

  -- The table draws no byte that was not written: with names of at most 32 bytes, scores of 32 bits,
  -- and no more entries than leave the place below the last line in the range of an int (85,899,343),
  -- every line is drawn whole, in order, each below the last. A number of 64 bits is taken to have
  -- at most 20 digits.
  pub leaderboard_whole :
      {F : Type 0} (world : ClientWorld F)
      → 50 + length world.leaderboard * line_height < 2 ^ 31
      → AllShort world.leaderboard
      → render_leaderboard decimal world ≡ some (whole_lines decimal 0 50 world.leaderboard)
  unfolding render_leaderboard
  leaderboard_whole world h v = lines_fit 0 50 world.leaderboard (ground (arith, h)) h v
