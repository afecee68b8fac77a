-- ===== src/Collision/Asteroids.antt =====
-- Ships that collide with asteroids, and the growth of a ship: src/server/collision_utils.h and
-- `addMass` of src/server/entity.h.
use space_shooter_c.Prelude.{
  ℕ, zero, suc, ◌≤◌, ◌<◌, ◌≡◌, refl, ◌∙◌, ◌⊎◌, Bool, true, false, not, ◌&&◌, ◌||◌, inl, inr, arith,
  Option-cases, Bool-cases, some, if◌then◌else◌,
}
use space_shooter_c.Scalar.{Scalars}
use space_shooter_c.Entity.{
  Entity, TransformComponent, GrowthPredicate, mass_for_radius, add_mass, grow, growth_rounds,
}
use space_shooter_c.Collision.{apply_percentage_damage, repel_asteroid, absorb, ship_asteroid}

module _ (R : Scalars) where
  open R use {F, lit, add, mul, div, lt, le, max_value, is_finite}

  -- The radius after `n` doublings.
  abbrev pub doubled : ℕ → F → F
  doubled zero r = r
  doubled (suc n) r = doubled n (mul r (lit 2 1))

  module _ {S : Type 0} (can_grow : GrowthPredicate R S) where
    -- One round of the loop as the source has it: whether it goes on to a next one, and what it
    -- leaves if it does not.
    abbrev pub goes_on : S → Entity F → TransformComponent F → Bool
    goes_on s e t =
        let next_radius = mul e.radius (lit 2 1) in
        let target_mass = mass_for_radius R next_radius in
        le e.radius (div max_value (lit 2 1))
        && not (not (is_finite target_mass) || lt e.mass target_mass)
        && (can_grow s t.position next_radius).0

    abbrev pub left_behind : S → Entity F → TransformComponent F → Entity F × S
    left_behind s e t =
        let next_radius = mul e.radius (lit 2 1) in
        let target_mass = mass_for_radius R next_radius in
        let asked = can_grow s t.position next_radius in
        if le e.radius (div max_value (lit 2 1))
          && not (not (is_finite target_mass) || lt e.mass target_mass)
        then (record e { transform = some (record t { position = asked.1 }) }, asked.2)
        else (record e { transform = some t }, s)

    -- The loop without a bound: it leaves by its own tests after `k` full rounds, with `out`.
    abbrev pub LeavesAfter : ℕ → S → Entity F → TransformComponent F → Entity F × S → Type 0
    LeavesAfter zero s e t out = (goes_on s e t ≡ false) × (out ≡ left_behind s e t)
    LeavesAfter (suc k) s e t out =
        let asked = can_grow s t.position (mul e.radius (lit 2 1)) in
        (goes_on s e t ≡ true)
        × LeavesAfter k asked.2 (record e { radius = mul e.radius (lit 2 1) })
            (record t { position = asked.1 }) out

    grow-leaves :
        (f : ℕ) (s : S) (e : Entity F) (t : TransformComponent F)
        → goes_on s e t ≡ false
        → grow R (suc f) can_grow s e t ≡ left_behind s e t
    unfolding grow
    grow-leaves f s e t h = ground (arith, h)

    grow-goes :
        (f : ℕ) (s : S) (e : Entity F) (t : TransformComponent F)
        → goes_on s e t ≡ true
        → let asked = can_grow s t.position (mul e.radius (lit 2 1)) in
          grow R (suc f) can_grow s e t
          ≡ grow R f can_grow asked.2
              (record e { radius = mul e.radius (lit 2 1) })
              (record t { position = asked.1 })
    unfolding grow
    grow-goes f s e t h = ground (arith, h)

    -- The loop of addMass ends by its own tests: if `n` doublings take the radius past half of the
    -- largest number, then the loop without a bound leaves after at most `n` full rounds, with what
    -- every fuel above `n` gives, whatever the callback answers.
    pub grow-fuel :
        (n f : ℕ) (s : S) (e : Entity F) (t : TransformComponent F)
        → le (doubled n e.radius) (div max_value (lit 2 1)) ≡ false
        → n < f
        → (k : ℕ) × (k ≤ n) × LeavesAfter k s e t (grow R f can_grow s e t)
    grow-fuel n zero s e t h i = absurd (omega arith)
    grow-fuel zero (suc f) s e t h i =
        let stops : goes_on s e t ≡ false = ground (arith, h) in
        (0, omega arith, (stops, grow-leaves f s e t stops))
    grow-fuel (suc n) (suc f) s e t h i = elim (Bool-cases (goes_on s e t)) [
      | inl more ↦
          let asked = can_grow s t.position (mul e.radius (lit 2 1)) in
          let (k, le, rest) =
            grow-fuel n f asked.2 (record e { radius = mul e.radius (lit 2 1) })
              (record t { position = asked.1 }) h (omega arith) in
          (suc k, omega arith, (more, rw (grow-goes f s e t more) rest))
      | inr stops ↦ (0, omega arith, (stops, grow-leaves f s e t stops))
    ]

    grow_keeps :
        (f : ℕ) (s : S) (e : Entity F) (t : TransformComponent F)
        → (grow R f can_grow s e t).0 ≡ record e {
          radius = (grow R f can_grow s e t).0.radius;
          transform = (grow R f can_grow s e t).0.transform;
        }
    unfolding grow
    grow_keeps zero s e t = refl
    grow_keeps (suc f) s e t =
        let a = can_grow s t.position (mul e.radius (lit 2 1)) in
        ground (
          arith,
          grow_keeps f a.2 (record e { radius = mul e.radius (lit 2 1) })
              (record t { position = a.1 }),
        )

    -- The mass that the entity has suffices for every one of the first `k` doublings.
    abbrev pub MassReaches : ℕ → Entity F → Type 0
    MassReaches zero e = Unit {0}
    MassReaches (suc k) e =
        (lt e.mass (mass_for_radius R (mul e.radius (lit 2 1))) ≡ false)
        × MassReaches k (record e { radius = mul e.radius (lit 2 1) })

    -- One round: the radius stays, or the mass suffices for the next one and the loop goes on.
    grow_round :
        (f : ℕ) (s : S) (e : Entity F) (t : TransformComponent F)
        → ((grow R (suc f) can_grow s e t).0.radius ≡ e.radius)
          ⊎ ((lt e.mass (mass_for_radius R (mul e.radius (lit 2 1))) ≡ false)
              × ((grow R (suc f) can_grow s e t).0.radius
                  ≡ (grow R f can_grow
                      (can_grow s t.position (mul e.radius (lit 2 1))).2
                      (record e { radius = mul e.radius (lit 2 1) })
                      (record t {
                        position = (can_grow s t.position (mul e.radius (lit 2 1))).1;
                      })).0.radius))
    unfolding grow
    grow_round f s e t = ground arith

    -- The growth of an entity is a number of doublings, and its mass suffices for each.
    pub grow-MassReaches :
        (f : ℕ) (s : S) (e : Entity F) (t : TransformComponent F)
        → (k : ℕ) × (k ≤ f)
          × ((grow R f can_grow s e t).0.radius ≡ doubled k e.radius)
          × MassReaches k e
    unfolding grow
    grow-MassReaches zero s e t = (0, omega arith, refl, tt)
    grow-MassReaches (suc f) s e t = elim (grow_round f s e t) [
      | inl same ↦ (0, omega arith, same, tt)
      | inr (reached, again) ↦
          let a = can_grow s t.position (mul e.radius (lit 2 1)) in
          let (k, le, eq, all) =
            grow-MassReaches f a.2 (record e { radius = mul e.radius (lit 2 1) })
              (record t { position = a.1 }) in
          (suc k, omega arith, again ∙ eq, (reached, all))
    ]

    -- `addMass` either refuses, and leaves the entity and the predicate's state as they were, or
    -- adds the amount to the mass; then it may change the radius and the transform, nothing else.
    pub add_mass_outcome :
        (s : S) (amount : F) (e : Entity F)
        → (((add_mass R can_grow s amount e).1 ≡ false)
            × ((add_mass R can_grow s amount e).0 ≡ e)
            × ((add_mass R can_grow s amount e).2 ≡ s))
          ⊎ (((add_mass R can_grow s amount e).1 ≡ true)
              × ((add_mass R can_grow s amount e).0 ≡ record e {
                mass = add e.mass amount;
                radius = (add_mass R can_grow s amount e).0.radius;
                transform = (add_mass R can_grow s amount e).0.transform;
              }))
    unfolding add_mass
    add_mass_outcome s amount e = elim (Option-cases e.transform) [
      | inl n ↦ ground arith
      | inr (t, p) ↦
          ground (arith, grow_keeps growth_rounds s (record e { mass = add e.mass amount }) t)
    ]

    -- Only an asteroid of more than 20 and less than 50 percent of the ship's mass does anything:
    -- the collision with any other leaves both as they were, and does not call the predicate.
    pub asteroid_outside_band :
        (s : S) (ship asteroid : Entity F)
        → (not (le (div asteroid.mass ship.mass) (lit 2 10))
            && lt (div asteroid.mass ship.mass) (lit 5 10))
          ≡ false
        → ship_asteroid R can_grow s ship asteroid ≡ (ship, asteroid, s)
    unfolding ship_asteroid repel_asteroid apply_percentage_damage
    asteroid_outside_band s ship asteroid h = ground arith

    -- An asteroid that a ship eats is destroyed exactly if its mass went to the ship.
    pub absorb_outcome :
        (s : S) (ship asteroid : Entity F)
        → let grown = add_mass R can_grow s asteroid.mass ship in
          let after = absorb R can_grow s ship asteroid in
          (after.1 ≡ record asteroid { is_destroyed = asteroid.is_destroyed || grown.1 })
          × (after.0.mass ≡ grown.0.mass)
    unfolding absorb
    absorb_outcome s ship asteroid = ground arith
