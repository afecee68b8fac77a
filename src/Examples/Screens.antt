-- ===== src/Examples/Screens.antt =====
-- The views at a concrete table.
use space_shooter_c.Prelude.{
  ℕ, zero, suc, ◌+◌, ◌/◌, ◌%◌, ◌≤◌, ◌≡◌, some, List, [], ◌∷◌, ◌++◌, arith, ascii, if◌then◌else◌,
  ltb, length, length-append,
}
use space_shooter_c.ClientWorld.{ClientWorld}
use space_shooter_c.ClientViews.{render_leaderboard}
use space_shooter_c.ClientViews.Shown.{whole_lines, leaderboard_whole}

-- The decimal digits of a number, at most one more than the fuel.
abbrev digits : ℕ → ℕ → List ℕ
digits zero n = (48 + n % 10) ∷ []
digits (suc k) n =
    let rest = digits k (n / 10) in if ltb n 10 then (48 + n) ∷ [] else rest ++ (48 + n % 10) ∷ []

length-digits : (k n : ℕ) → length (digits k n) ≤ k + 1
length-digits zero n = ground arith
length-digits (suc k) n =
    ground (arith, length-digits k (n / 10), length-append (digits k (n / 10)) ((48 + n % 10) ∷ []))

abbrev table : ClientWorld ℕ
table = record {
  my_player_id = 1;
  entities = [];
  leaderboard =
      record { name = ascii "ada"; score = 120 } ∷ record { name = ascii "bob"; score = 7 } ∷ [];
}

leaderboard_whole_example :
    render_leaderboard (digits 19) table ≡ some (whole_lines (digits 19) 0 50 table.leaderboard)
leaderboard_whole_example =
    leaderboard_whole (digits 19) (λ n h. length-digits 19 n) table (omega arith)
      ((omega arith, omega arith, (omega arith, omega arith, tt)))
