-- ===== src/ClientWorld/Lookup.antt =====
-- What src/client/client_world.cpp finds after a snapshot.
use space_shooter_c.Prelude.{
  ℕ, ◌≡◌, inl, inr, Bool, false, not, Option, none, some, List, [], ◌∷◌, if◌then◌else◌, ◌==◌, arith,
  find_key, find_key-snoc, Option-cases,
}
use space_shooter_c.Snapshot.{EntitySnapshot, GameSnapshot}
use space_shooter_c.ClientWorld.{
  ClientWorld, emplace, emplace_all, update_snapshot, is_my_player_alive, update_death_screen,
}

module _ {F : Type 0} where
  -- The first entity with an id, and whether it is there and not destroyed.
  abbrev pub first_with : ℕ → List (EntitySnapshot F) → Option (EntitySnapshot F)
  first_with j [] = none
  first_with j (e ∷ es) = let rest = first_with j es in if e.id == j then some e else rest

  abbrev pub lives : Option (EntitySnapshot F) → Bool
  lives none = false
  lives (some e) = not e.is_destroyed

  find-emplace :
      (j : ℕ) (m : List (ℕ × EntitySnapshot F)) (e : EntitySnapshot F)
      → find_key j (emplace m e) ≡ elim (find_key j m) as (λ x. Option (EntitySnapshot F)) [
        | some there ↦ some there
        | none ↦ if e.id == j then some e else none
      ]
  unfolding emplace
  find-emplace j m e = elim (Option-cases (find_key e.id m)) [
    | inl x ↦ ground (arith, x, find_key-snoc j e.id e m)
    | inr (w, x) ↦ ground (arith, x)
  ]

  find-emplace_all :
      (j : ℕ) (es : List (EntitySnapshot F)) (m : List (ℕ × EntitySnapshot F))
      → find_key j (emplace_all es m) ≡ elim (find_key j m) as (λ x. Option (EntitySnapshot F)) [
        | some there ↦ some there
        | none ↦ first_with j es
      ]
  unfolding emplace_all
  find-emplace_all j [] m = ground arith
  find-emplace_all j (e ∷ es) m =
      ground (arith, find-emplace j m e, find-emplace_all j es (emplace m e))

  -- After a snapshot, whatever the client knew before: every id finds the first entity of the
  -- snapshot that has it, and nothing else; and the death screen is active exactly if the player's
  -- entity is missing or destroyed.
  pub snapshot_shown :
      (snapshot : GameSnapshot F) (my_player_id j : ℕ) (world : ClientWorld F)
      → let after = update_snapshot snapshot my_player_id world in
        (find_key j after.entities ≡ first_with j snapshot.snapshots)
        × (update_death_screen after ≡ not (lives (first_with my_player_id snapshot.snapshots)))
  unfolding update_snapshot update_death_screen is_my_player_alive
  snapshot_shown snapshot my_player_id j world = (
    find-emplace_all j snapshot.snapshots [],
    ground (arith, find-emplace_all my_player_id snapshot.snapshots []),
  )
