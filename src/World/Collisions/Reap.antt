-- ===== src/World/Collisions/Reap.antt =====
-- `reapDestroyedShips` of src/server/world_instance.cpp: which sessions lose their ship, and what the
-- other parts of the server hear of it.
use space_shooter_c.Prelude.{
  ℕ, zero, suc, ◌+◌, ◌≡◌, refl, sym, ap, inl, inr, Bool, true, false, ◌&&◌, Option, none, some,
  List, [], ◌∷◌, ◌++◌, arith, if◌then◌else◌, ◌==◌, get_elem?, find_key, Bool-cases, Option-cases,
}
use space_shooter_c.Scalar.{Scalars}
use space_shooter_c.Entity.{Entity}
use space_shooter_c.EntityPool.{EntityPool, find_by_entity_id}
use space_shooter_c.EntityPool.Invariant.{IsSound}
use space_shooter_c.EntityPool.Lookup.{find-Holds}
use space_shooter_c.Events.{
  Event, network_message, send_packet, client_connected, player_join, client_disconnected,
  shot_message, ship_destroyed, player_move,
}
use space_shooter_c.World.{World}
use space_shooter_c.World.Collisions.{Slots, is_destroyed_id, reap_sessions, reap_destroyed_ships}

-- Every key of the map has one entry.
abbrev pub UniqueKeys : List (ℕ × ℕ) → Type 0
UniqueKeys [] = Unit
UniqueKeys ((k, v) ∷ m) = (find_key k m ≡ none) × UniqueKeys m

module _ {F : Type 0} where
  abbrev pub is_death_of : ℕ → Event F → ℕ
  is_death_of s (network_message i p) = 0
  is_death_of s (send_packet i p) = 0
  is_death_of s (client_connected i a) = 0
  is_death_of s (player_join i n) = 0
  is_death_of s (client_disconnected i) = 0
  is_death_of s (shot_message i) = 0
  is_death_of s (ship_destroyed i) = if i == s then 1 else 0
  is_death_of s (player_move i a) = 0

  -- How often the death of the session's ship was published.
  abbrev pub deaths : ℕ → List (Event F) → ℕ
  deaths s [] = 0
  deaths s (e ∷ es) = is_death_of s e + deaths s es

  deaths-append : (s : ℕ) (es fs : List (Event F)) → deaths s (es ++ fs) ≡ deaths s es + deaths s fs
  deaths-append s [] fs = omega arith
  deaths-append s (e ∷ es) fs = omega (arith, deaths-append s es fs)

  abbrev kept : Slots F → Option ℕ → Option ℕ
  kept slots none = none
  kept slots (some i) = if is_destroyed_id slots i then none else some i

  abbrev lost : Slots F → Option ℕ → ℕ
  lost slots none = 0
  lost slots (some i) = if is_destroyed_id slots i then 1 else 0

  reap_sessions-exact :
      (slots : Slots F) (m : List (ℕ × ℕ)) (s : ℕ)
      → UniqueKeys m
      → (find_key s (reap_sessions slots m).0 ≡ kept slots (find_key s m))
        × (deaths s (reap_sessions slots m).1 ≡ lost slots (find_key s m))
  unfolding reap_sessions
  reap_sessions-exact slots [] s u = (refl, refl)
  reap_sessions-exact slots ((k, i) ∷ m) s u =
      ground (arith, reap_sessions-exact slots m s u.1, ap (kept slots) u.0, ap (lost slots) u.0)

  held_destroyed :
      (slots : Slots F) (i : ℕ)
      → is_destroyed_id slots i ≡ true
      → (idx : ℕ) × (e : Entity F) × (get_elem? slots idx ≡ some (some e))
        × (e.id ≡ i)
        × (e.is_destroyed ≡ true)
  unfolding is_destroyed_id
  held_destroyed [] i h = cc
  held_destroyed (none ∷ slots) i h =
      let (idx, e, at, same, dead) = held_destroyed slots i h in (suc idx, e, at, same, dead)
  held_destroyed (some e ∷ slots) i h = elim (Bool-cases (e.is_destroyed && e.id == i)) [
    | inl here ↦ (0, e, refl, ground arith, ground arith)
    | inr elsewhere ↦
        let (idx, x, at, same, dead) = held_destroyed slots i (ground arith) in
        (suc idx, x, at, same, dead)
  ]

  destroyed_held :
      (slots : Slots F) (i idx : ℕ) (e : Entity F)
      → get_elem? slots idx ≡ some (some e)
      → e.id ≡ i
      → e.is_destroyed ≡ true
      → is_destroyed_id slots i ≡ true
  unfolding is_destroyed_id
  destroyed_held [] i idx e at same dead = cc
  destroyed_held (none ∷ slots) i zero e at same dead = cc
  destroyed_held (some x ∷ slots) i zero e at same dead = ground arith
  destroyed_held (none ∷ slots) i (suc idx) e at same dead =
      destroyed_held slots i idx e at same dead
  destroyed_held (some x ∷ slots) i (suc idx) e at same dead =
      ground (arith, destroyed_held slots i idx e at same dead)

  abbrev pub is_dead : Option (Entity F) → Bool
  is_dead none = false
  is_dead (some e) = e.is_destroyed

module _ (R : Scalars) where
  open R use {F}

  is_destroyed_id-find :
      (p : EntityPool F) (i : ℕ)
      → IsSound p
      → is_destroyed_id p.storage i ≡ is_dead (find_by_entity_id R p i)
  is_destroyed_id-find p i v = elim (Bool-cases (is_destroyed_id p.storage i)) [
    | inl dead ↦
        let (idx, e, at, same, gone) = held_destroyed p.storage i dead in
        rw (dead, (find-Holds R p i e v).1 idx at same) (sym gone)
    | inr alive ↦ elim (Option-cases (find_by_entity_id R p i)) [
      | inl e ↦ rw (alive, e)
      | inr (x, e) ↦
          let (idx, at, same) = (find-Holds R p i x v).0 e in
          rw (alive, e)
            (elim (Bool-cases x.is_destroyed) [
              | inl gone ↦ absurd (ground (arith, destroyed_held p.storage i idx x at same gone))
              | inr lives ↦ sym lives
            ])
    ]
  ]

  -- The session's ship, unless the pool holds it as destroyed.
  abbrev pub surviving : EntityPool F → Option ℕ → Option ℕ
  surviving p none = none
  surviving p (some i) = if is_dead (find_by_entity_id R p i) then none else some i

  -- The deaths to publish for a session.
  abbrev pub death_count : EntityPool F → Option ℕ → ℕ
  death_count p none = 0
  death_count p (some i) = if is_dead (find_by_entity_id R p i) then 1 else 0

  -- In a sound pool, the reaping takes from a session its ship exactly if the pool holds that ship as
  -- destroyed; then it publishes one death of the session, and otherwise none.
  pub reap_exact :
      (w : World F) (s : ℕ)
      → IsSound w.entities
      → UniqueKeys w.session_to_ship
      → (find_key s (reap_destroyed_ships R w).session_to_ship
          ≡ surviving w.entities (find_key s w.session_to_ship))
        × (deaths s (reap_destroyed_ships R w).published
            ≡ deaths s w.published + death_count w.entities (find_key s w.session_to_ship))
  unfolding reap_destroyed_ships
  reap_exact w s v u =
      let slots = w.entities.storage in
      let (a, b) = reap_sessions-exact slots w.session_to_ship s u in
      let c = deaths-append s w.published (reap_sessions slots w.session_to_ship).1 in
      elim (Option-cases (find_key s w.session_to_ship)) [
        | inl e ↦ ground (arith, a, b, c, e)
        | inr (i, e) ↦ ground (arith, a, b, c, e, is_destroyed_id-find w.entities i v)
      ]
