-- ===== src/ClientWorld.antt =====
-- The world as the client sees it: src/client/client_world.h and client_world.cpp. The map of the
-- entities is a list of entries with one entry for a key.
pub mod Lookup
use space_shooter_c.Prelude.{ℕ, Bool, false, not, List, [], ◌∷◌, ◌++◌, none, some, find_key}
use space_shooter_c.Snapshot.{EntitySnapshot, LeaderboardEntry, GameSnapshot}

pub record ClientWorld (F : Type 0) : Type 0 where
  pub my_player_id : ℕ
  pub entities : List (ℕ × EntitySnapshot F)
  pub leaderboard : List LeaderboardEntry

module _ {F : Type 0} where
  -- `emplace`: the first entity of an id stays.
  unfoldable pub emplace :
      List (ℕ × EntitySnapshot F) → EntitySnapshot F → List (ℕ × EntitySnapshot F)
  emplace m e = elim (find_key e.id m) [ some there ↦ m | none ↦ m ++ (e.id, e) ∷ [] ]

  unfoldable pub emplace_all :
      List (EntitySnapshot F) → List (ℕ × EntitySnapshot F) → List (ℕ × EntitySnapshot F)
  emplace_all [] m = m
  emplace_all (e ∷ es) m = emplace_all es (emplace m e)

  unfoldable pub update_snapshot : GameSnapshot F → ℕ → ClientWorld F → ClientWorld F
  update_snapshot snapshot my_player_id w = record {
    my_player_id = my_player_id;
    entities = emplace_all snapshot.snapshots [];
    leaderboard = snapshot.leaderboard;
  }

  unfoldable pub is_my_player_alive : ClientWorld F → Bool
  is_my_player_alive w = elim (find_key w.my_player_id w.entities) [
    | none ↦ false
    | some e ↦ not e.is_destroyed
  ]

  -- Whether the death screen is active after `updateDeathScreen`.
  unfoldable pub update_death_screen : ClientWorld F → Bool
  update_death_screen w = not (is_my_player_alive w)
