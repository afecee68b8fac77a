-- ===== src/Collision/Ships.antt =====
-- Ships that collide with ships: src/server/collision_utils.h.
use space_shooter_c.Prelude.{
  ℕ, ◌+◌, ◌-◌, ◌≤◌, ◌≡◌, refl, ap, ◌∙◌, Bool, true, false, ◌&&◌, some, if◌then◌else◌, leb, arith,
  min,
}
use space_shooter_c.Scalar.{Scalars}
use space_shooter_c.Types.{EntityType}
use space_shooter_c.Entity.{Entity, ShipComponent, HealthComponent, is_valid, is_damageable}
use space_shooter_c.Score.{add_score, subtract_score}
use space_shooter_c.Health.{apply_damage, is_alive}
use space_shooter_c.Collision.{
  collision_damage, reward_survivor, crashed, rewarded, crash, on_collision_ship_ship,
}

module _ (R : Scalars) where
  open R use {F, lit, add, div, lt, le}

  -- Every guard of the ship-ship handler, passed.
  pub record CanCrash (e : Entity F) (s : ShipComponent F) (h : HealthComponent) : Type 0 where
    pub a_ship : e.type ≡ EntityType.ship
    pub valid : is_valid R e ≡ true
    pub damageable : is_damageable R e ≡ true
    pub has_ship : e.ship ≡ some s
    pub has_health : e.health ≡ some h

  alive-valid : (e : Entity F) → is_valid R e ≡ true → e.is_destroyed ≡ false
  unfolding is_valid
  alive-valid e v = ground arith

  crash_reached :
      (a b : Entity F) (s t : ShipComponent F) (h k : HealthComponent)
      → CanCrash a s h
      → CanCrash b t k
      → on_collision_ship_ship R a b ≡ crash R a b s t h k
  unfolding on_collision_ship_ship
  crash_reached a b s t h k u v = ground arith

  -- The damage as the rules describe it: 10 to the lighter ship, 5 to the heavier, 7 at equal masses.
  abbrev pub damage_to : F → F → ℕ
  damage_to own other = if lt own other then 10 else (if lt other own then 5 else 7)

  -- The reward as the rules describe it: 30 points and a frag, on 32 and 16 bits that do not wrap.
  abbrev pub with_reward : ShipComponent F → ShipComponent F
  with_reward s = record s {
    score = min 0xFFFFFFFF (s.score + 30);
    frags = min 0xFFFF (s.frags + 1);
  }

  -- The ship as the rules describe it: fined, hurt, destroyed if its health is used up, and rewarded
  -- if it survives a collision that destroyed the other.
  abbrev pub after_collision : Entity F → ShipComponent F → HealthComponent → ℕ → Bool → Entity F
  after_collision e s h damage other_destroyed =
      let fined : ShipComponent F = record s { score = s.score - 5 } in
      record e {
        ship = some (
            if leb h.current damage
            then fined
            else (if other_destroyed then with_reward fined else fined));
        health = some (record h { current = h.current - damage });
        is_destroyed = leb h.current damage;
      }

  -- The counters of a ship have 32 and 16 bits.
  abbrev pub InBits : ShipComponent F → Type 0
  InBits s = (s.score ≤ 0xFFFFFFFF) × (s.frags ≤ 0xFFFF)

  subtract_score_lem :
      (s : ShipComponent F) → InBits s → subtract_score s 5 ≡ record s { score = s.score - 5 }
  unfolding subtract_score
  subtract_score_lem s v = ground (arith, v)

  reward_survivor_lem : (s : ShipComponent F) → InBits s → reward_survivor R s ≡ with_reward s
  unfolding reward_survivor add_score
  reward_survivor_lem s v = ground (arith, v)

  crash_lem :
      (a b : Entity F) (s t : ShipComponent F) (h k : HealthComponent) (m n : ℕ)
      → a.is_destroyed ≡ false
      → b.is_destroyed ≡ false
      → InBits s
      → InBits t
      → collision_damage R a.mass b.mass ≡ (m, n)
      → crash R a b s t h k
        ≡ (after_collision a s h m (leb k.current n), after_collision b t k n (leb h.current m))
  unfolding crash crashed rewarded apply_damage is_alive
  crash_lem a b s t h k m n da db v w e =
      let p : InBits (record s { score = s.score - 5 }) = ground (arith, v) in
      let q : InBits (record t { score = t.score - 5 }) = ground (arith, w) in
      rw (e, subtract_score_lem s v, subtract_score_lem t w, crash)
        (ground (
          arith,
          reward_survivor_lem (record s { score = s.score - 5 }) p,
          reward_survivor_lem (record t { score = t.score - 5 }) q,
        ))

  damage_lem :
      (x y : F)
      → (lt x y && lt y x) ≡ false
      → collision_damage R x y ≡ (damage_to x y, damage_to y x)
  unfolding collision_damage
  damage_lem x y h = ground (arith, h)

  -- Two ships that pass every guard and collide, with masses that are not each below the other: each
  -- loses 5 points, down to 0 at most, and health, 10 points for the lighter ship, 5 for the heavier
  -- and 7 at equal masses; it is destroyed exactly if that uses up its health; and it is rewarded
  -- with 30 points and a frag exactly if it survives and the other does not, up to the largest
  -- numbers of 32 and 16 bits.
  pub ship_ship_effect :
      (a b : Entity F) (s t : ShipComponent F) (h k : HealthComponent)
      → CanCrash a s h
      → CanCrash b t k
      → InBits s
      → InBits t
      → (lt a.mass b.mass && lt b.mass a.mass) ≡ false
      → let m = damage_to a.mass b.mass in
        let n = damage_to b.mass a.mass in
        on_collision_ship_ship R a b
        ≡ (after_collision a s h m (leb k.current n), after_collision b t k n (leb h.current m))
  ship_ship_effect a b s t h k u v x y asym =
      crash_reached a b s t h k u v
      ∙ crash_lem a b s t h k _ _ (alive-valid a u.valid) (alive-valid b v.valid) x y
          (damage_lem a.mass b.mass asym)

  damage-symmetric :
      (x y : F)
      → (lt x y && lt y x) ≡ false
      → collision_damage R y x ≡ ((collision_damage R x y).1, (collision_damage R x y).0)
  unfolding collision_damage
  damage-symmetric x y h = ground arith

  crash-symmetric :
      (a b : Entity F) (s t : ShipComponent F) (h k : HealthComponent)
      → (lt a.mass b.mass && lt b.mass a.mass) ≡ false
      → crash R b a t s k h ≡ ((crash R a b s t h k).1, (crash R a b s t h k).0)
  unfolding crash
  crash-symmetric a b s t h k e = go (collision_damage R a.mass b.mass) refl
    where
      go :
          (d : ℕ × ℕ)
          → collision_damage R a.mass b.mass ≡ d
          → crash R b a t s k h ≡ ((crash R a b s t h k).1, (crash R a b s t h k).0)
      go (m, n) q =
          let q' : collision_damage R b.mass a.mass ≡ (n, m) =
            damage-symmetric a.mass b.mass e ∙ ap {B = ℕ × ℕ} (λ (d : ℕ × ℕ). (d.1, d.0)) q in
          rw (q, q', crash) (ground arith)

  -- The order of the arguments does not matter, if `<` on the two masses is asymmetric.
  pub ship_ship_symmetric :
      (a b : Entity F)
      → (lt a.mass b.mass && lt b.mass a.mass) ≡ false
      → on_collision_ship_ship R b a
        ≡ ((on_collision_ship_ship R a b).1, (on_collision_ship_ship R a b).0)
  unfolding on_collision_ship_ship
  ship_ship_symmetric a b h = grind (arith, crash-symmetric)
