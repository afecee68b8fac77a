-- ===== src/World/Leaderboard.antt =====
-- `buildLeaderboard` of src/server/world_instance.cpp. std::partial_sort by descending score is a
-- parameter: how many entries to sort, and the entries.
use space_shooter_c.Prelude.{
  ℕ, not, ◌&&◌, Option, none, some, List, [], ◌∷◌, if◌then◌else◌, ltb, length, take, min,
}
use space_shooter_c.Types.{EntityType, same_type}
use space_shooter_c.Entity.{Entity}
use space_shooter_c.Snapshot.{LeaderboardEntry}
use space_shooter_c.Snapshot.Game.{until_nul, max_leaderboard_size}
use space_shooter_c.World.{World}

abbrev pub PartialSort : Type 0
PartialSort = ℕ → List LeaderboardEntry → List LeaderboardEntry

module _ {F : Type 0} where
  -- The entry of a live player: a ship with its components, with health, not destroyed.
  unfoldable pub entry_of : Entity F → Option LeaderboardEntry
  entry_of e = elim e.ship [
    | none ↦ none
    | some s ↦ elim e.health [
      | none ↦ none
      | some h ↦
          if same_type e.type EntityType.ship && ltb 0 h.current && not e.is_destroyed
          then some (record { name = until_nul s.name; score = s.score })
          else none
    ]
  ]

  unfoldable pub top_players : List (Option (Entity F)) → List LeaderboardEntry
  top_players [] = []
  top_players (none ∷ slots) = top_players slots
  top_players (some e ∷ slots) =
      let rest = top_players slots in elim (entry_of e) [ none ↦ rest | some x ↦ x ∷ rest ]

  unfoldable pub build_leaderboard : PartialSort → World F → List LeaderboardEntry
  build_leaderboard partial_sort w =
      let players = top_players w.entities.storage in
      let top_count = min max_leaderboard_size (length players) in
      take top_count (partial_sort top_count players)
