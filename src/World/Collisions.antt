-- ===== src/World/Collisions.antt =====
-- `resolveCollisions` of src/server/world_instance.cpp and what it calls. A pass over the slots ends
-- early if the test of two circles throws: the flag beside the slots says so.
pub mod Rules
pub mod Reap
use space_shooter_c.Prelude.{
  ℕ, zero, suc, ◌+◌, ◌-◌, Bool, true, false, not, ◌&&◌, ◌||◌, Option, none, some, List, [], ◌∷◌,
  ◌++◌, Result, ok, err, if◌then◌else◌, ◌==◌, length, get_elem?, set, is_some,
}
use space_shooter_c.Scalar.{Scalars}
use space_shooter_c.Types.{EntityType, same_type}
use space_shooter_c.Entity.{Entity, Vector2D, GrowthPredicate}
use space_shooter_c.EntityPool.{EntityPool, recycle_destroyed}
use space_shooter_c.Score.{add_score}
use space_shooter_c.Math.{clamp_to_world_bounds, circle_intersects_opposite_world_bounds}
use space_shooter_c.Math.Circles.{check_circle_collision}
use space_shooter_c.Collision.{Hit}
use space_shooter_c.Collision
use space_shooter_c.Events.{Event, ship_destroyed}
use space_shooter_c.World.{World}

pub data GrowStatus : Type 0 where
  fits cannot_fit invalid_input : GrowStatus

abbrev pub is_fitting : GrowStatus → Bool
is_fitting fits = true
is_fitting cannot_fit = false
is_fitting invalid_input = false

abbrev pub Slots : Type 0 → Type 0
Slots F = List (Option (Entity F))

-- The two entities after their collision, and what the bullet's callback is told.
pub record Contact (F : Type 0) : Type 0 where
  pub a : Entity F
  pub b : Entity F
  pub hit : Option Hit

unfoldable pub may_collide : EntityType → EntityType → Bool
may_collide a b =
    if same_type a EntityType.none || same_type b EntityType.none
    then false
    else if same_type a EntityType.bullet && same_type b EntityType.bullet
    then false
    else if same_type a EntityType.asteroid && same_type b EntityType.asteroid
    then false
    else true

module _ {F : Type 0} where
  abbrev pub entity_at : Slots F → ℕ → Option (Entity F)
  entity_at slots i = elim (get_elem? slots i) [ none ↦ none | some slot ↦ slot ]

  -- A hit is worth 5 points, and a destroyed ship 50.
  unfoldable pub credited : Bool → Entity F → Entity F
  credited destroyed e =
      if same_type e.type EntityType.ship
      then (elim e.ship [
        | none ↦ e
        | some s ↦ record e { ship = some (add_score s (if destroyed then 50 else 5)) }
      ])
      else e

  -- The callback of a bullet hit: the first slot that holds the owner, alive, is credited.
  unfoldable pub award_owner : Hit → Slots F → Slots F
  award_owner hit [] = []
  award_owner hit (none ∷ slots) = none ∷ award_owner hit slots
  award_owner hit (some e ∷ slots) =
      let rest = award_owner hit slots in
      if e.is_destroyed || not (e.id == hit.owner)
      then some e ∷ rest
      else some (credited hit.ship_destroyed e) ∷ slots

  abbrev pub award : Option Hit → Slots F → Slots F
  award none slots = slots
  award (some hit) slots = award_owner hit slots

  unfoldable pub is_destroyed_id : Slots F → ℕ → Bool
  is_destroyed_id [] i = false
  is_destroyed_id (none ∷ slots) i = is_destroyed_id slots i
  is_destroyed_id (some e ∷ slots) i = e.is_destroyed && e.id == i || is_destroyed_id slots i

  -- The loop over the sessions: those whose ship was destroyed leave, with an event for each.
  unfoldable pub reap_sessions : Slots F → List (ℕ × ℕ) → List (ℕ × ℕ) × List (Event F)
  reap_sessions slots [] = ([], [])
  reap_sessions slots ((session, ship_id) ∷ m) =
      let (kept, events) = reap_sessions slots m in
      if is_destroyed_id slots ship_id
      then (kept, ship_destroyed session ∷ events)
      else ((session, ship_id) ∷ kept, events)

module _ (R : Scalars) where
  open R use {F, lit, lt, le, is_finite}

  module _ (world_width world_height : F) where
    -- The status, and the position that the call leaves.
    unfoldable pub try_grow_ship : Vector2D F → F → GrowStatus × Vector2D F
    try_grow_ship position radius =
        let clamped = clamp_to_world_bounds R position world_width world_height in
        if not (is_finite position.x)
          || not (is_finite position.y)
          || not (is_finite radius)
          || lt radius (lit 0 1)
          || not (is_finite world_width)
          || not (is_finite world_height)
          || le world_width (lit 0 1)
          || le world_height (lit 0 1)
        then (invalid_input, position)
        else (if circle_intersects_opposite_world_bounds R clamped radius world_width world_height
            then (cannot_fit, clamped)
            else (fits, clamped))

    -- The lambda `can_grow`, which keeps the last status.
    unfoldable pub can_grow : GrowthPredicate R GrowStatus
    can_grow status position radius =
        let (answer, moved) = try_grow_ship position radius in (is_fitting answer, moved, answer)

    -- A ship that would not fit the world is destroyed.
    unfoldable pub on_collision_ship_asteroid : Entity F → Entity F → Entity F × Entity F
    on_collision_ship_asteroid ship asteroid =
        let (s, a, status) = Collision.on_collision_ship_asteroid R can_grow fits ship asteroid in
        (
          elim status [
            | fits ↦ s
            | cannot_fit ↦ record s { is_destroyed = true }
            | invalid_input ↦ s
          ],
          a,
        )

    -- Bullets fly through asteroids.
    unfoldable pub on_collision_bullet_asteroid : Entity F → Entity F → Entity F × Entity F
    on_collision_bullet_asteroid proj asteroid = (proj, asteroid)

    abbrev pub quiet : Entity F × Entity F → Contact F
    quiet (a, b) = record { a = a; b = b; hit = none }

    unfoldable pub dispatch_collision : Entity F → Entity F → Contact F
    dispatch_collision a b =
        let ship_ship = quiet (Collision.on_collision_ship_ship R a b) in
        let ship_asteroid = quiet (on_collision_ship_asteroid a b) in
        let asteroid_ship = (let (s, x) = on_collision_ship_asteroid b a in quiet (x, s)) in
        let bullet_ship : Contact F =
          (let r = Collision.on_collision_bullet_ship R a b in
            record { a = r.bullet; b = r.ship; hit = r.hit }) in
        let ship_bullet : Contact F =
          (let r = Collision.on_collision_bullet_ship R b a in
            record { a = r.ship; b = r.bullet; hit = r.hit }) in
        let bullet_asteroid = quiet (on_collision_bullet_asteroid a b) in
        let asteroid_bullet = (let (p, x) = on_collision_bullet_asteroid b a in quiet (x, p)) in
        let nothing : Contact F = quiet (a, b) in
        elim a.type [
          | EntityType.none ↦ nothing
          | EntityType.ship ↦ elim b.type [
            | EntityType.none ↦ nothing
            | EntityType.ship ↦ ship_ship
            | EntityType.asteroid ↦ ship_asteroid
            | EntityType.bullet ↦ ship_bullet
          ]
          | EntityType.asteroid ↦ elim b.type [
            | EntityType.none ↦ nothing
            | EntityType.ship ↦ asteroid_ship
            | EntityType.asteroid ↦ nothing
            | EntityType.bullet ↦ asteroid_bullet
          ]
          | EntityType.bullet ↦ elim b.type [
            | EntityType.none ↦ nothing
            | EntityType.ship ↦ bullet_ship
            | EntityType.asteroid ↦ bullet_asteroid
            | EntityType.bullet ↦ nothing
          ]
        ]

    -- The two entities of a collision go back to their slots, and then the callback runs.
    unfoldable pub collide : ℕ → ℕ → Entity F → Entity F → Slots F → Slots F
    collide i j a b slots =
        let c = dispatch_collision a b in award c.hit (set (set slots i (some c.a)) j (some c.b))

    -- The inner loop's body for the slots `i` and `j`, at the entity `a` of slot `i`.
    unfoldable pub visit : ℕ → ℕ → Entity F → Slots F → Slots F × Bool
    visit i j a slots = elim (entity_at slots j) [
      | none ↦ (slots, false)
      | some b ↦ elim b.transform [
        | none ↦ (slots, false)
        | some tb ↦ elim a.transform [
          | none ↦ (slots, false)
          | some ta ↦
              if b.is_destroyed || not (may_collide a.type b.type)
              then (slots, false)
              else elim (check_circle_collision R ta.position a.radius tb.position b.radius) [
                | err x ↦ (slots, true)
                | ok touching ↦ (if touching then collide i j a b slots else slots, false)
              ]
        ]
      ]
    ]

    -- `rounds` more rounds of the inner loop, from slot `j`. Slot `i` stays engaged.
    unfoldable pub sweep : ℕ → ℕ → ℕ → Slots F → Slots F × Bool
    sweep zero i j slots = (slots, false)
    sweep (suc rounds) i j slots = elim (entity_at slots i) [
      | none ↦ (slots, false)
      | some a ↦
          let r = visit i j a slots in
          let rest = sweep rounds i (j + 1) r.0 in
          if a.is_destroyed then (slots, false) else (if r.1 then r else rest)
    ]

    abbrev pub takes_part : Option (Entity F) → Bool
    takes_part none = false
    takes_part (some a) = not a.is_destroyed && is_some a.transform

    -- `rounds` more rounds of the outer loop, from slot `i`.
    unfoldable pub pass : ℕ → ℕ → Slots F → Slots F × Bool
    pass zero i slots = (slots, false)
    pass (suc rounds) i slots =
        let r =
          (if takes_part (entity_at slots i)
            then sweep rounds i (i + 1) slots
            else (slots, false)) in
        let rest = pass rounds (i + 1) r.0 in if r.1 then r else rest

  unfoldable pub reap_destroyed_ships : World F → World F
  reap_destroyed_ships w =
      let (kept, events) = reap_sessions w.entities.storage w.session_to_ship in
      record w {
        entities = recycle_destroyed R w.entities;
        session_to_ship = kept;
        published = w.published ++ events;
      }

  -- The world after the call, and whether it threw.
  unfoldable pub resolve_collisions : World F → World F × Bool
  resolve_collisions w =
      let slots = w.entities.storage in
      let (after, thrown) = pass w.world_width w.world_height (length slots) 0 slots in
      let collided : World F = record w { entities = record w.entities { storage = after } } in
      if thrown then (collided, true) else (reap_destroyed_ships collided, false)
