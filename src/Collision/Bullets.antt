-- ===== src/Collision/Bullets.antt =====
-- Bullets that hit ships: src/server/collision_utils.h.
use space_shooter_c.Prelude.{
  ◌-◌, ◌<◌, ◌≡◌, ◌≢◌, ◌⊎◌, inl, inr, Bool, true, false, not, ◌&&◌, ◌==◌, none, some, ltb, leb,
  is_some, arith, Option-cases, Bool-cases,
}
use space_shooter_c.Scalar.{Scalars}
use space_shooter_c.Types.{EntityType}
use space_shooter_c.Entity.{Entity, HealthComponent, CombatComponent, is_valid, is_damageable}
use space_shooter_c.Health.{apply_damage, is_alive}
use space_shooter_c.Collision.{
  BulletOutcome, ignored, strike, bullet_ship, on_collision_bullet_ship,
}

module _ (R : Scalars) where
  open R use {F}

  -- A ship's own bullet flies through it: nothing changes and the callback is not called.
  pub own_bullet :
      (bullet ship : Entity F) (c : CombatComponent)
      → bullet.combat ≡ some c
      → c.owner_id ≡ ship.id
      → bullet_ship R bullet ship ≡ record { bullet = bullet; ship = ship; hit = none }
  unfolding bullet_ship strike ignored
  own_bullet bullet ship c e h = ground arith

  -- All that a bullet and a ship need for a hit.
  record CanHit (bullet : Entity F) (ship : Entity F) (c : CombatComponent) (h : HealthComponent)
      : Type 0 where
    pub flies : is_valid R bullet ≡ true
    pub sails : is_valid R ship ≡ true
    pub armed : bullet.combat ≡ some c
    pub has_health : ship.health ≡ some h
    pub has_ship : is_some ship.ship ≡ true
    pub alive : 0 < h.current
    pub of_another : c.owner_id ≢ ship.id

  -- The hit as the rules describe it: the bullet is spent, and the ship loses 25 points of health.
  abbrev after_hit : Entity F → Entity F → CombatComponent → HealthComponent → BulletOutcome F
  after_hit bullet ship c h = record {
    bullet = record bullet { is_destroyed = true };
    ship = record ship {
      health = some (record h { current = h.current - 25 });
      is_destroyed = leb h.current 25;
    };
    hit = some (record { owner = c.owner_id; ship_destroyed = leb h.current 25 });
  }

  abbrev unchanged : Entity F → Entity F → BulletOutcome F
  unchanged bullet ship = record { bullet = bullet; ship = ship; hit = none }

  hits_if :
      (bullet ship : Entity F) (c : CombatComponent) (h : HealthComponent)
      → bullet.type ≡ EntityType.bullet
      → ship.type ≡ EntityType.ship
      → CanHit bullet ship c h
      → on_collision_bullet_ship R bullet ship ≡ after_hit bullet ship c h
  unfolding on_collision_bullet_ship bullet_ship strike is_damageable is_valid apply_damage is_alive
  hits_if bullet ship c h tb ts v = ground (arith, v)

  -- Whether the bullet hits, once its combat and the ship's health are known.
  abbrev may_hit : Entity F → Entity F → CombatComponent → HealthComponent → Bool
  may_hit bullet ship c h =
      is_valid R bullet
      && is_valid R ship
      && is_some ship.ship
      && ltb 0 h.current
      && not (c.owner_id == ship.id)

  may_hit-CanHit :
      (bullet ship : Entity F) (c : CombatComponent) (h : HealthComponent)
      → bullet.combat ≡ some c
      → ship.health ≡ some h
      → may_hit bullet ship c h ≡ true
      → CanHit bullet ship c h
  may_hit-CanHit bullet ship c h ec eh m = record {
    flies = ground (arith, m);
    sails = ground (arith, m);
    armed = ec;
    has_health = eh;
    has_ship = ground (arith, m);
    alive = ground (arith, m);
    of_another = λ e. ground (arith, m, e);
  }

  unarmed_misses :
      (bullet ship : Entity F)
      → bullet.type ≡ EntityType.bullet
      → ship.type ≡ EntityType.ship
      → (bullet.combat ≡ none) ⊎ (ship.health ≡ none)
      → on_collision_bullet_ship R bullet ship ≡ unchanged bullet ship
  unfolding on_collision_bullet_ship bullet_ship ignored
  unarmed_misses bullet ship tb ts h = ground (arith, h)

  misses_if :
      (bullet ship : Entity F) (c : CombatComponent) (h : HealthComponent)
      → bullet.type ≡ EntityType.bullet
      → ship.type ≡ EntityType.ship
      → bullet.combat ≡ some c
      → ship.health ≡ some h
      → may_hit bullet ship c h ≡ false
      → on_collision_bullet_ship R bullet ship ≡ unchanged bullet ship
  unfolding on_collision_bullet_ship bullet_ship strike ignored is_damageable
  misses_if bullet ship c h tb ts ec eh m = ground (arith, m)

  arguments_swap :
      (bullet ship : Entity F)
      → bullet.type ≡ EntityType.bullet
      → ship.type ≡ EntityType.ship
      → on_collision_bullet_ship R ship bullet ≡ (
          let out = on_collision_bullet_ship R bullet ship in
          record { bullet = out.ship; ship = out.bullet; hit = out.hit })
  unfolding on_collision_bullet_ship
  arguments_swap bullet ship tb ts = ground arith

  refuted :
      (bullet ship : Entity F) (c : CombatComponent) (h : HealthComponent) (d : CombatComponent)
      (k : HealthComponent)
      → bullet.combat ≡ some c
      → ship.health ≡ some h
      → may_hit bullet ship c h ≡ false
      → CanHit bullet ship d k
      → ⊥
  refuted bullet ship c h d k ec eh m v =
      ground (
        arith, ec, eh, m, v.flies, v.sails, v.armed, v.has_health, v.has_ship, v.alive,
        v.of_another,
      )

  abbrev Strikable : Entity F → Entity F → Type 0
  Strikable bullet ship = (c : CombatComponent) × (h : HealthComponent) × CanHit bullet ship c h

  -- A bullet and a ship that touch: if both are valid, the bullet has its owner, the ship has its
  -- component and health left, and the owner is not that ship, then the bullet is spent, the ship
  -- loses 25 points of health and is destroyed exactly if it had no more, and the callback is told
  -- the owner and whether it was; if any of this is missing, nothing changes and the callback is not
  -- called. The order of the two arguments makes no difference.
  bullet_hits :
      (bullet ship : Entity F)
      → bullet.type ≡ EntityType.bullet
      → ship.type ≡ EntityType.ship
      → let out = on_collision_bullet_ship R bullet ship in
        (((c : CombatComponent) × (h : HealthComponent) × CanHit bullet ship c h
            × (out ≡ after_hit bullet ship c h))
          ⊎ ((¬ Strikable bullet ship) × (out ≡ unchanged bullet ship)))
        × (on_collision_bullet_ship R ship bullet
            ≡ record { bullet = out.ship; ship = out.bullet; hit = out.hit })
  bullet_hits bullet ship tb ts = (cases, arguments_swap bullet ship tb ts)
    where
      cases :
          ((c : CombatComponent) × (h : HealthComponent) × CanHit bullet ship c h
            × (on_collision_bullet_ship R bullet ship ≡ after_hit bullet ship c h))
          ⊎ ((¬ Strikable bullet ship)
              × (on_collision_bullet_ship R bullet ship ≡ unchanged bullet ship))
      cases = elim (Option-cases bullet.combat) [
        | inl n ↦ inr (
          λ (c, h, v). absurd (ground (arith, n, v.armed)),
          unarmed_misses bullet ship tb ts (inl n),
        )
        | inr (c, ec) ↦ elim (Option-cases ship.health) [
          | inl n ↦ inr (
            λ (d, h, v). absurd (ground (arith, n, v.has_health)),
            unarmed_misses bullet ship tb ts (inr n),
          )
          | inr (h, eh) ↦ elim (Bool-cases (may_hit bullet ship c h)) [
            | inl m ↦
                let v = may_hit-CanHit bullet ship c h ec eh m in
                inl (c, h, v, hits_if bullet ship c h tb ts v)
            | inr m ↦ inr (
              λ (d, k, v). refuted bullet ship c h d k ec eh m v,
              misses_if bullet ship c h tb ts ec eh m,
            )
          ]
        ]
      ]

  -- Without a hit nothing changes, and with one the bullet is destroyed.
  pub bullet_unless_hit :
      (bullet ship : Entity F)
      → (((bullet_ship R bullet ship).hit ≡ none)
          × ((bullet_ship R bullet ship).bullet ≡ bullet)
          × ((bullet_ship R bullet ship).ship ≡ ship))
        ⊎ ((is_some (bullet_ship R bullet ship).hit ≡ true)
            × ((bullet_ship R bullet ship).bullet.is_destroyed ≡ true))
  unfolding bullet_ship strike ignored
  bullet_unless_hit bullet ship = ground arith
