-- ===== src/Examples/Buffers.antt =====
-- A buffer format for the tests: every field in a place of its own, the ship's name at the end.
use space_shooter_c.Prelude.{
  ℕ, zero, suc, ◌≡◌, refl, Bool, true, false, Option, none, some, List, [], ◌∷◌, arith, ltb,
}
use space_shooter_c.Entity.{Vector2D}
use space_shooter_c.Snapshot.{HealthSnapshot, CombatSnapshot, AsteroidSnapshot}
use space_shooter_c.Snapshot.Serder.{
  TransformTable, ShipTable, EntityTable, FlatBuffers, IsFaithful,
}

abbrev presence : {A : Type 0} → Option A → ℕ
presence none = 0
presence (some a) = 1

abbrev unless_absent : {A : Type 0} → ℕ → A → Option A
unless_absent zero a = none
unless_absent (suc n) a = some a

abbrev flag : Bool → ℕ
flag false = 0
flag true = 1

abbrev or_else : {A : Type 0} → A → Option A → A
or_else a none = a
or_else a (some b) = b

abbrev origin : Vector2D ℕ
origin = record { x = 0; y = 0 }

abbrev no_transform : TransformTable ℕ
no_transform = record { position = none; velocity = none; angle = 0 }

abbrev no_ship : ShipTable ℕ
no_ship = record {
  name = none;
  score = 0;
  thrust_power = 0;
  drag = 0;
  is_thrusting = false;
  frags = 0;
}

abbrev no_health : HealthSnapshot
no_health = record { current = 0; max = 0 }

abbrev no_combat : CombatSnapshot
no_combat = record { damage = 0; owner_id = 0 }

abbrev no_asteroid : AsteroidSnapshot
no_asteroid = record { score_reward = 0 }

abbrev write_transform : TransformTable ℕ → List ℕ → List ℕ
write_transform t rest =
    let p = or_else origin t.position in
    let v = or_else origin t.velocity in
    presence t.position ∷ p.x ∷ p.y ∷ presence t.velocity ∷ v.x ∷ v.y ∷ t.angle ∷ rest

abbrev write_ship : ShipTable ℕ → List ℕ → List ℕ
write_ship s rest =
    s.score ∷ s.thrust_power ∷ s.drag ∷ flag s.is_thrusting ∷ s.frags ∷ presence s.name ∷ rest

abbrev write_entity : EntityTable ℕ → List ℕ
write_entity t =
    let tr = or_else no_transform t.transform in
    let s = or_else no_ship t.ship in
    let h = or_else no_health t.health in
    let c = or_else no_combat t.combat in
    let a = or_else no_asteroid t.asteroid in
    t.id
    ∷ t.type
    ∷ t.mass
    ∷ t.radius
    ∷ flag t.is_destroyed
    ∷ presence t.transform
    ∷ presence t.ship
    ∷ presence t.health
    ∷ presence t.combat
    ∷ presence t.asteroid
    ∷ h.current
    ∷ h.max
    ∷ c.damage
    ∷ c.owner_id
    ∷ a.score_reward
    ∷ write_transform tr (write_ship s (or_else [] s.name))

abbrev empty_table : EntityTable ℕ
empty_table = record {
  id = 0;
  type = 0;
  mass = 0;
  radius = 0;
  is_destroyed = false;
  transform = none;
  ship = none;
  health = none;
  combat = none;
  asteroid = none;
}

abbrev read_entity : List ℕ → EntityTable ℕ
read_entity
      (id ∷ type ∷ mass ∷ radius ∷ dead ∷ ht ∷ hs ∷ hh ∷ hc ∷ ha ∷ hp ∷ hp_max ∷ damage ∷ owner
        ∷ reward ∷ pp ∷ px ∷ py ∷ pv ∷ vx ∷ vy ∷ angle ∷ score ∷ thrust ∷ drag ∷ thrusts ∷ frags
        ∷ pn ∷ name) =
    record {
      id = id;
      type = type;
      mass = mass;
      radius = radius;
      is_destroyed = ltb 0 dead;
      transform = unless_absent ht (record {
        position = unless_absent pp (record { x = px; y = py });
        velocity = unless_absent pv (record { x = vx; y = vy });
        angle = angle;
      });
      ship = unless_absent hs (record {
        name = unless_absent pn name;
        score = score;
        thrust_power = thrust;
        drag = drag;
        is_thrusting = ltb 0 thrusts;
        frags = frags;
      });
      health = unless_absent hh (record { current = hp; max = hp_max });
      combat = unless_absent hc (record { damage = damage; owner_id = owner });
      asteroid = unless_absent ha (record { score_reward = reward });
    }
read_entity _ = empty_table

abbrev pub plain_buffers : FlatBuffers ℕ
plain_buffers = record {
  finish = write_entity;
  has_identifier = λ bytes. true;
  verify = λ bytes. true;
  get_root = read_entity;
}

read_written : (t : EntityTable ℕ) → read_entity (write_entity t) ≡ t
read_written t = ground arith

pub plain_buffers-IsFaithful : IsFaithful plain_buffers
plain_buffers-IsFaithful = record {
  long_enough = λ t. omega arith;
  identified = λ t. refl;
  verified = λ t. refl;
  read_back = λ t fits. read_written t;
}
