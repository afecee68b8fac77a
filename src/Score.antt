-- ===== src/Score.antt =====
-- src/server/score_utils.h: scores are 32-bit.
use space_shooter_c.Prelude.{ℕ, ◌+◌, ◌-◌, ◌≤◌, ◌≡◌, arith, ltb, leb, if◌then◌else◌, min}
use space_shooter_c.Entity.{ShipComponent}

abbrev pub max_score : ℕ
max_score = 0xFFFFFFFF

module _ {F : Type 0} where
  unfoldable pub add_score : ShipComponent F → ℕ → ShipComponent F
  add_score ship points = record ship {
    score = if ltb (max_score - ship.score) points then max_score else ship.score + points;
  }

  unfoldable pub subtract_score : ShipComponent F → ℕ → ShipComponent F
  subtract_score ship penalty = record ship {
    score = if leb ship.score penalty then 0 else ship.score - penalty;
  }

  -- The 32-bit score never wraps: it stops at its largest value, and at 0. Nothing else changes.
  pub score_saturates :
      (ship : ShipComponent F) (n : ℕ)
      → ship.score ≤ max_score
      → (add_score ship n ≡ record ship { score = min max_score (ship.score + n) })
        × (subtract_score ship n ≡ record ship { score = ship.score - n })
  unfolding add_score subtract_score
  score_saturates ship n h = ground arith
