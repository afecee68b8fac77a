-- ===== src/World/Tick/Broadcast.antt =====
-- What the clients get to see of a tick: `buildGameSnapshot` and `broadcastSnapshot` of src/server/
-- world_instance.cpp.
use space_shooter_c.Prelude.{
  ℕ, zero, suc, ◌^◌, ◌≤◌, ◌<◌, ◌≡◌, ◌≢◌, refl, subst, Option, none, some, List, [], ◌∷◌, ◌++◌, ok,
  arith, ◌==◌, length, length-take, take, min, get_elem?, inl, inr, Bool-cases, Option-cases,
}
use space_shooter_c.Scalar.{Scalars}
use space_shooter_c.Types.{EntityType}
use space_shooter_c.Entity.{
  Entity, ShipComponent, HealthComponent, CombatComponent, AsteroidComponent,
}
use space_shooter_c.EntityPool.{is_active}
use space_shooter_c.EntityUtils.{
  to_ship_snapshot, to_entity_snapshot, snapshots_of, build_entity_snapshots,
}
use space_shooter_c.Snapshot.{LeaderboardEntry}
use space_shooter_c.Snapshot.Serder.{FlatBuffers, IsFaithful, OptionFits, to_table, to_wire}
use space_shooter_c.Snapshot.Game.{serialize, deserialize, until_nul, max_leaderboard_size}
use space_shooter_c.Snapshot.RoundTrip.{
  All, EntryFits, EntityFits, SnapshotFits, deserialize-serialize,
}
use space_shooter_c.Events.{send_packet, broadcast_session_id}
use space_shooter_c.World.{World}
use space_shooter_c.World.Leaderboard.{PartialSort, entry_of, top_players, build_leaderboard}
use space_shooter_c.World.Tick.{build_game_snapshot, broadcast_snapshot}

-- std::partial_sort only rearranges: what it leaves is among what it was given.
abbrev pub Rearranges : PartialSort → Type 0
Rearranges partial_sort =
    (k : ℕ) (xs : List LeaderboardEntry) (i : ℕ) (x : LeaderboardEntry)
    → get_elem? (partial_sort k xs) i ≡ some x
    → (j : ℕ) × (get_elem? xs j ≡ some x)

module _ {ℓ κ} {A : Type ℓ} (P : A → Type κ) where
  All-of_get : (xs : List A) → ((i : ℕ) (x : A) → get_elem? xs i ≡ some x → P x) → All P xs
  All-of_get [] h = tt
  All-of_get (x ∷ xs) h = (h 0 x refl, All-of_get xs (λ i. h (suc i)))

  All-get : (xs : List A) (i : ℕ) (x : A) → All P xs → get_elem? xs i ≡ some x → P x
  All-get [] i x h e = absurd (ground arith)
  All-get (y ∷ ys) zero x h e = subst P (some-inj e) h.0
    where
      some-inj : some y ≡ some x → y ≡ x
      some-inj p = cc
  All-get (y ∷ ys) (suc i) x h e = All-get ys i x h.1 e

  All-take : (n : ℕ) (xs : List A) → All P xs → All P (take n xs)
  All-take zero xs h = tt
  All-take (suc n) [] h = tt
  All-take (suc n) (x ∷ xs) h = (h.0, All-take n xs h.1)

-- The integers of an entity are in the range of their fields, and its name in its array.
pub record IsRepresentable {F : Type 0} (e : Entity F) : Type 0 where
  pub id_u64 : e.id < 2 ^ 64
  pub ship_fits :
      OptionFits
        (λ (s : ShipComponent F). (length s.name ≤ 32) × (s.score < 2 ^ 32) × (s.frags < 2 ^ 16))
        e.ship
  pub health_fits :
      OptionFits (λ (h : HealthComponent). (h.current < 2 ^ 16) × (h.max < 2 ^ 16)) e.health
  pub combat_fits :
      OptionFits (λ (c : CombatComponent). (c.damage < 2 ^ 16) × (c.owner_id < 2 ^ 64)) e.combat
  pub asteroid_fits : OptionFits (λ (a : AsteroidComponent). a.score_reward < 2 ^ 16) e.asteroid

abbrev pub SlotFits : {F : Type 0} → Option (Entity F) → Type 0
SlotFits none = Unit {0}
SlotFits (some e) = IsRepresentable e

until_nul-All : (bs : List ℕ) → All (λ b. b ≢ 0) (until_nul bs)
unfolding until_nul
until_nul-All [] = tt
until_nul-All (b ∷ bs) = elim (Bool-cases (b == 0)) [
  | inl nul ↦ rw nul tt
  | inr other ↦ rw other ((λ e. ground arith), until_nul-All bs)
]

length-until_nul : (bs : List ℕ) → length (until_nul bs) ≤ length bs
unfolding until_nul
length-until_nul [] = omega arith
length-until_nul (b ∷ bs) = ground (arith, length-until_nul bs)

module _ (R : Scalars) (fb : FlatBuffers R.F) where
  open R use {F}

  to_wire-lt : (t : EntityType) → to_wire t < 2 ^ 8
  unfolding to_wire
  to_wire-lt t = ground arith

  snapshot-Fits : (e : Entity F) → IsRepresentable e → EntityFits fb (to_entity_snapshot R e)
  unfolding to_table to_entity_snapshot to_ship_snapshot
  snapshot-Fits e v = record {
    id_u64 = v.id_u64;
    type_u8 = to_wire-lt e.type;
    ship_fits = ground (arith, v.ship_fits);
    health_fits = ground (arith, v.health_fits);
    combat_fits = ground (arith, v.combat_fits);
    asteroid_fits = ground (arith, v.asteroid_fits);
  }

  snapshots-Fit :
      (ss : List (Option (Entity F))) → All SlotFits ss → All (EntityFits fb) (snapshots_of R ss)
  unfolding snapshots_of
  snapshots-Fit [] h = tt
  snapshots-Fit (none ∷ ss) h = snapshots-Fit ss h.1
  snapshots-Fit (some e ∷ ss) h = elim (Bool-cases (is_active R (some e))) [
    | inl active ↦ rw active (snapshot-Fits e h.0, snapshots-Fit ss h.1)
    | inr skipped ↦ rw skipped (snapshots-Fit ss h.1)
  ]

  entry-Fits :
      (e : Entity F) (x : LeaderboardEntry) → IsRepresentable e → entry_of e ≡ some x → EntryFits x
  unfolding entry_of
  entry-Fits e x v h = elim (Option-cases e.ship) [
    | inl no_ship ↦ absurd (ground arith)
    | inr (s, es) ↦
        let same : record { name = until_nul s.name; score = s.score } ≡ x = ground arith in
        let (named, scored, fragged) = rw es at v.ship_fits in
        subst EntryFits same (omega (arith, length-until_nul s.name), until_nul-All s.name, scored)
  ]

  players-Fit : (ss : List (Option (Entity F))) → All SlotFits ss → All EntryFits (top_players ss)
  unfolding top_players
  players-Fit [] h = tt
  players-Fit (none ∷ ss) h = players-Fit ss h.1
  players-Fit (some e ∷ ss) h = elim (Option-cases (entry_of e)) [
    | inl none_there ↦ rw (none_there, top_players) (players-Fit ss h.1)
    | inr (x, is) ↦ rw (is, top_players) (entry-Fits e x h.0 is, players-Fit ss h.1)
  ]

  module _ (partial_sort : PartialSort) (law : Rearranges partial_sort) where
    leaderboard-Fits :
        (w : World F)
        → All SlotFits w.entities.storage
        → All EntryFits (build_leaderboard partial_sort w)
    unfolding build_leaderboard
    leaderboard-Fits w h =
        let players = top_players w.entities.storage in
        let n = min max_leaderboard_size (length players) in
        All-take EntryFits n (partial_sort n players) (
          All-of_get EntryFits (partial_sort n players) λ i x at.
            let (j, from) = law n players i x at in
            All-get EntryFits players j x (players-Fit w.entities.storage h) from)

    length-leaderboard :
        (w : World F) → length (build_leaderboard partial_sort w) ≤ max_leaderboard_size
    unfolding build_leaderboard
    length-leaderboard w =
        let players = top_players w.entities.storage in
        let n = min max_leaderboard_size (length players) in
        omega (arith, length-take n (partial_sort n players))

    world-SnapshotFits :
        (w : World F)
        → All SlotFits w.entities.storage
        → SnapshotFits fb (build_game_snapshot R fb partial_sort w)
    unfolding build_game_snapshot build_entity_snapshots
    world-SnapshotFits w h = record {
      tick_u32 = omega arith;
      few_entries = length-leaderboard w;
      entries = leaderboard-Fits w h;
      entities = snapshots-Fit w.entities.storage h;
    }

    -- What a tick broadcasts, a client reads back: if the integers of the entities are in range and
    -- the snapshot is serialised, one packet for all sessions is published, and its payload is
    -- deserialised to the snapshot that was built of the world.
    pub broadcast_readable :
        (w : World F) (payload : List ℕ)
        → IsFaithful fb
        → All SlotFits w.entities.storage
        → serialize fb (build_game_snapshot R fb partial_sort w) ≡ ok payload
        → let s = build_game_snapshot R fb partial_sort w in
          ((broadcast_snapshot R fb partial_sort s w).published
            ≡ w.published ++ send_packet broadcast_session_id payload ∷ [])
          × (deserialize fb payload ≡ ok s)
    unfolding broadcast_snapshot
    broadcast_readable w payload faithful h e =
        let s = build_game_snapshot R fb partial_sort w in
        (
          rw (e, broadcast_snapshot),
          (deserialize-serialize fb s payload 0 [] faithful (world-SnapshotFits w h) e).0,
        )
