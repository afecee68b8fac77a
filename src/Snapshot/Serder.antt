-- ===== src/Snapshot/Serder.antt =====
-- src/common/entity_snapshot_serder.cpp. The FlatBuffers library and the code generated from
-- schemas/entity_snapshot.fbs are parameters: a buffer is built from a table and read as a table.
use space_shooter_c.Prelude.{
  ℕ, ◌^◌, ◌<◌, ◌≤◌, ◌≡◌, refl, Bool, true, not, Option, none, some, List, [], ltb, if◌then◌else◌,
  ◌==◌, length, arith,
}
use space_shooter_c.Types.{EntityType}
use space_shooter_c.Entity.{Vector2D}
use space_shooter_c.Snapshot.{
  TransformSnapshot, HealthSnapshot, CombatSnapshot, AsteroidSnapshot, EntitySnapshot,
}

-- The generated tables. An optional field is one that the reader finds absent.
pub record TransformTable (F : Type 0) : Type 0 where
  pub position : Option (Vector2D F)
  pub velocity : Option (Vector2D F)
  pub angle : F

pub record ShipTable (F : Type 0) : Type 0 where
  pub name : Option (List ℕ)
  pub score : ℕ
  pub thrust_power : F
  pub drag : F
  pub is_thrusting : Bool
  pub frags : ℕ

pub record EntityTable (F : Type 0) : Type 0 where
  pub id : ℕ
  pub type : ℕ
  pub mass : F
  pub radius : F
  pub is_destroyed : Bool
  pub transform : Option (TransformTable F)
  pub ship : Option (ShipTable F)
  pub health : Option HealthSnapshot
  pub combat : Option CombatSnapshot
  pub asteroid : Option AsteroidSnapshot

-- FinishEntitySnapshotBuffer, BufferHasIdentifier, VerifyEntitySnapshotBuffer, GetEntitySnapshot.
pub record FlatBuffers (F : Type 0) : Type 0 where
  pub finish : EntityTable F → List ℕ
  pub has_identifier : List ℕ → Bool
  pub verify : List ℕ → Bool
  pub get_root : List ℕ → EntityTable F

abbrev pub OptionFits : {A : Type 0} → (A → Type 0) → Option A → Type 0
OptionFits P none = Unit {0}
OptionFits P (some a) = P a

-- The integers of a table are in the range of the field that the schema gives them.
pub record Fits {F : Type 0} (t : EntityTable F) : Type 0 where
  pub id_u64 : t.id < 2 ^ 64
  pub type_u8 : t.type < 2 ^ 8
  pub ship_fits : OptionFits (λ (s : ShipTable F). (s.score < 2 ^ 32) × (s.frags < 2 ^ 16)) t.ship
  pub health_fits :
      OptionFits (λ (h : HealthSnapshot). (h.current < 2 ^ 16) × (h.max < 2 ^ 16)) t.health
  pub combat_fits :
      OptionFits (λ (c : CombatSnapshot). (c.damage < 2 ^ 16) × (c.owner_id < 2 ^ 64)) t.combat
  pub asteroid_fits : OptionFits (λ (a : AsteroidSnapshot). a.score_reward < 2 ^ 16) t.asteroid

-- What FlatBuffers documents: a finished buffer carries the identifier, passes the verifier and is
-- read as the table that it was built from.
pub record IsFaithful {F : Type 0} (fb : FlatBuffers F) : Type 0 where
  pub long_enough : (t : EntityTable F) → 8 ≤ length (fb.finish t)
  pub identified : (t : EntityTable F) → fb.has_identifier (fb.finish t) ≡ true
  pub verified : (t : EntityTable F) → fb.verify (fb.finish t) ≡ true
  pub read_back : (t : EntityTable F) → Fits t → fb.get_root (fb.finish t) ≡ t

unfoldable pub to_wire : EntityType → ℕ
to_wire EntityType.none = 0
to_wire EntityType.ship = 1
to_wire EntityType.asteroid = 2
to_wire EntityType.bullet = 3

unfoldable pub from_wire : ℕ → EntityType
from_wire v =
    if ltb 3 v
    then EntityType.none
    else (if v == 0
        then EntityType.none
        else (if v == 1
            then EntityType.ship
            else (if v == 2 then EntityType.asteroid else EntityType.bullet)))

abbrev pub min_flat_buffer_size : ℕ
min_flat_buffer_size = 8

module _ {F : Type 0} (fb : FlatBuffers F) where
  -- The table that `SerializeEntity` builds, children first.
  unfoldable pub to_table : EntitySnapshot F → EntityTable F
  to_table dto = record {
    id = dto.id;
    type = to_wire dto.type;
    mass = dto.mass;
    radius = dto.radius;
    is_destroyed = dto.is_destroyed;
    transform = elim dto.transform [
      | none ↦ none
      | some t ↦
          some (record { position = some t.position; velocity = some t.velocity; angle = t.angle })
    ];
    ship = elim dto.ship [
      | none ↦ none
      | some s ↦ some (record {
        name = some s.name;
        score = s.score;
        thrust_power = s.thrust_power;
        drag = s.drag;
        is_thrusting = s.is_thrusting;
        frags = s.frags;
      })
    ];
    health = dto.health;
    combat = dto.combat;
    asteroid = dto.asteroid;
  }

  unfoldable pub serialize_entity : EntitySnapshot F → List ℕ
  serialize_entity dto = fb.finish (to_table dto)

  abbrev pub name_or_empty : Option (List ℕ) → List ℕ
  name_or_empty none = []
  name_or_empty (some n) = n

  unfoldable pub from_table : EntityTable F → Option (TransformSnapshot F) → EntitySnapshot F
  from_table t transform = record {
    id = t.id;
    type = from_wire t.type;
    mass = t.mass;
    radius = t.radius;
    is_destroyed = t.is_destroyed;
    transform = transform;
    ship = elim t.ship [
      | none ↦ none
      | some s ↦ some (record {
        name = name_or_empty s.name;
        score = s.score;
        thrust_power = s.thrust_power;
        drag = s.drag;
        is_thrusting = s.is_thrusting;
        frags = s.frags;
      })
    ];
    health = t.health;
    combat = t.combat;
    asteroid = t.asteroid;
  }

  -- A transform table without its structs makes the whole buffer malformed.
  unfoldable pub read_table : EntityTable F → Option (EntitySnapshot F)
  read_table t = elim t.transform [
    | none ↦ some (from_table t none)
    | some tr ↦ elim tr.position [
      | none ↦ none
      | some pos ↦ elim tr.velocity [
        | none ↦ none
        | some vel ↦
            some (from_table t (some (record { position = pos; velocity = vel; angle = tr.angle })))
      ]
    ]
  ]

  -- Empty, short, unidentified and unverified buffers are refused before anything is read.
  unfoldable pub deserialize_entity : List ℕ → Option (EntitySnapshot F)
  deserialize_entity bytes =
      if length bytes == 0
      then none
      else if ltb (length bytes) min_flat_buffer_size
      then none
      else if not (fb.has_identifier bytes)
      then none
      else if not (fb.verify bytes)
      then none
      else read_table (fb.get_root bytes)

  from_wire-to_wire : (t : EntityType) → from_wire (to_wire t) ≡ t
  unfolding from_wire to_wire
  from_wire-to_wire EntityType.none = refl
  from_wire-to_wire EntityType.ship = refl
  from_wire-to_wire EntityType.asteroid = refl
  from_wire-to_wire EntityType.bullet = refl

  read-to_table : (dto : EntitySnapshot F) → read_table (to_table dto) ≡ some dto
  unfolding read_table to_table from_table
  read-to_table dto = ground (arith, from_wire-to_wire dto.type)

  -- An entity whose integers fit their wire fields comes back from its buffer as it was.
  pub deserialize-serialize_entity :
      (dto : EntitySnapshot F)
      → IsFaithful fb
      → Fits (to_table dto)
      → deserialize_entity (serialize_entity dto) ≡ some dto
  unfolding deserialize_entity serialize_entity
  deserialize-serialize_entity dto law fits =
      let t = to_table dto in
      ground (
        arith,
        law.long_enough t,
        law.identified t,
        law.verified t,
        law.read_back t fits,
        read-to_table dto,
      )
