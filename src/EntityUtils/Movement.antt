-- ===== src/EntityUtils/Movement.antt =====
-- What a tick of motion may do to an entity: src/server/entity_utils.h.
use space_shooter_c.Prelude.{◌≡◌, ◌⊎◌, true, arith, is_some}
use space_shooter_c.Scalar.{Scalars}
use space_shooter_c.Types.{EntityType}
use space_shooter_c.Entity.{Entity}
use space_shooter_c.EntityUtils.{move_entity, confine}

module _ (R : Scalars) where
  open R use {F}

  -- A tick of motion changes the transform of an entity and nothing else, but for a bullet, which it
  -- may destroy; it neither adds nor removes a transform.
  pub move_entity_effect :
      (dt width height : F) (e : Entity F)
      → let m = move_entity R dt width height e in
        (m ≡ record e { transform = m.transform; is_destroyed = m.is_destroyed })
        × (is_some m.transform ≡ is_some e.transform)
        × ((m.is_destroyed ≡ e.is_destroyed)
            ⊎ ((m.is_destroyed ≡ true) × (e.type ≡ EntityType.bullet)))
  unfolding move_entity confine
  move_entity_effect dt width height e = ground arith
