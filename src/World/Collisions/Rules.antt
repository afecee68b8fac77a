-- ===== src/World/Collisions/Rules.antt =====
-- What a pass over the slots of src/server/world_instance.cpp leaves alone.
use space_shooter_c.Prelude.{
  ℕ, zero, suc, ◌+◌, ◌≡◌, refl, ap, ◌∙◌, inl, inr, Bool, Option, none, some, [], ◌∷◌, arith,
  get_elem?, set, get_elem?-set_ne, ◌<◌, Option-cases,
}
use space_shooter_c.Scalar.{Scalars}
use space_shooter_c.Entity.{Entity, GrowthPredicate, add_mass}
use space_shooter_c.EntityPool.Writes.{ids, ids-set}
use space_shooter_c.Collision
use space_shooter_c.Collision.Asteroids.{add_mass_outcome}
use space_shooter_c.World.Collisions.{
  fits, Slots, entity_at, credited, award_owner, award, can_grow, on_collision_ship_asteroid,
  on_collision_bullet_asteroid, dispatch_collision, collide, visit, sweep, pass,
}

module _ (R : Scalars) where
  open R use {F}

  ship_ship-id :
      (a b : Entity F)
      → ((Collision.on_collision_ship_ship R a b).0.id ≡ a.id)
        × ((Collision.on_collision_ship_ship R a b).1.id ≡ b.id)
  unfolding Collision.on_collision_ship_ship Collision.crash
  ship_ship-id a b = ground arith

  bullet_ship-id :
      (a b : Entity F)
      → ((Collision.on_collision_bullet_ship R a b).bullet.id ≡ a.id)
        × ((Collision.on_collision_bullet_ship R a b).ship.id ≡ b.id)
  unfolding Collision.on_collision_bullet_ship Collision.bullet_ship Collision.strike
      Collision.ignored
  bullet_ship-id a b = ground arith

  module _ {S : Type 0} (grows : GrowthPredicate R S) (s : S) where
    add_mass-id : (amount : F) (e : Entity F) → (add_mass R grows s amount e).0.id ≡ e.id
    add_mass-id amount e = ground (arith, add_mass_outcome R grows s amount e)

    ship_asteroid-id :
        (a b : Entity F)
        → ((Collision.on_collision_ship_asteroid R grows s a b).0.id ≡ a.id)
          × ((Collision.on_collision_ship_asteroid R grows s a b).1.id ≡ b.id)
    unfolding Collision.on_collision_ship_asteroid Collision.ship_asteroid Collision.absorb
        Collision.repel_asteroid Collision.apply_percentage_damage
    ship_asteroid-id a b = ground (arith, add_mass-id b.mass a, add_mass-id a.mass b)

  module _ (width height : F) where
    dispatch-id :
        (a b : Entity F)
        → ((dispatch_collision R width height a b).a.id ≡ a.id)
          × ((dispatch_collision R width height a b).b.id ≡ b.id)
    unfolding dispatch_collision on_collision_ship_asteroid on_collision_bullet_asteroid
    dispatch-id a b = ground (
      arith,
      ship_ship-id a b,
      bullet_ship-id a b,
      bullet_ship-id b a,
      ship_asteroid-id (can_grow R width height) fits a b,
      ship_asteroid-id (can_grow R width height) fits b a,
    )

  credited-id : (d : Bool) (e : Entity F) → (credited d e).id ≡ e.id
  unfolding credited
  credited-id d e = ground arith

  award_owner-ids :
      (hit : Collision.Hit) (slots : Slots F) → ids (award_owner hit slots) ≡ ids slots
  unfolding award_owner
  award_owner-ids hit [] = refl
  award_owner-ids hit (none ∷ slots) = ap (◌∷◌ none) (award_owner-ids hit slots)
  award_owner-ids hit (some e ∷ slots) =
      ground (arith, award_owner-ids hit slots, credited-id hit.ship_destroyed e)

  award-ids : (hit : Option Collision.Hit) (slots : Slots F) → ids (award hit slots) ≡ ids slots
  award-ids none slots = refl
  award-ids (some hit) slots = award_owner-ids hit slots

  entity_at-get :
      (slots : Slots F) (i : ℕ) (a : Entity F)
      → entity_at slots i ≡ some a
      → get_elem? slots i ≡ some (some a)
  entity_at-get slots i a h = ground arith

  module _ (width height : F) where
    collide-ids :
        (i j : ℕ) (a b : Entity F) (slots : Slots F)
        → entity_at slots i ≡ some a
        → entity_at slots j ≡ some b
        → i < j
        → ids (collide R width height i j a b slots) ≡ ids slots
    unfolding collide
    collide-ids i j a b slots ha hb lt =
        let c = dispatch_collision R width height a b in
        let (ia, ib) = dispatch-id width height a b in
        award-ids c.hit (set (set slots i (some c.a)) j (some c.b))
        ∙ ids-set (set slots i (some c.a)) j b c.b
            (get_elem?-set_ne slots i j (some c.a) (λ e. omega arith) ∙ entity_at-get slots j b hb)
            ib
        ∙ ids-set slots i a c.a (entity_at-get slots i a ha) ia

    visit-ids :
        (i j : ℕ) (a : Entity F) (slots : Slots F)
        → entity_at slots i ≡ some a
        → i < j
        → ids (visit R width height i j a slots).0 ≡ ids slots
    unfolding visit
    visit-ids i j a slots ha lt = elim (Option-cases (entity_at slots j)) [
      | inl e ↦ rw (e, visit)
      | inr (b, e) ↦ ground (arith, collide-ids i j a b slots ha e lt)
    ]

    sweep-ids :
        (rounds i j : ℕ) (slots : Slots F)
        → i < j
        → ids (sweep R width height rounds i j slots).0 ≡ ids slots
    unfolding sweep
    sweep-ids zero i j slots lt = refl
    sweep-ids (suc rounds) i j slots lt = elim (Option-cases (entity_at slots i)) [
      | inl e ↦ rw (e, sweep)
      | inr (a, e) ↦ ground (
        arith,
        visit-ids i j a slots e lt,
        sweep-ids rounds i (j + 1) (visit R width height i j a slots).0 (omega arith),
      )
    ]

    -- A pass over all pairs of slots, complete or ended by an exception, leaves every entity in its
    -- slot, under its id, and engages and frees no slot.
    pub pass-ids :
        (rounds i : ℕ) (slots : Slots F) → ids (pass R width height rounds i slots).0 ≡ ids slots
    unfolding pass
    pass-ids zero i slots = refl
    pass-ids (suc rounds) i slots =
        let n = sweep R width height rounds i (i + 1) slots in
        ground (
          arith,
          sweep-ids rounds i (i + 1) slots (omega arith),
          pass-ids rounds (i + 1) n.0,
          pass-ids rounds (i + 1) slots,
        )
