-- ===== src/Examples/EntityPool.antt =====
-- The pool at a concrete history.
use space_shooter_c.Prelude.{ℕ, ◌≡◌, some, arith, get_elem?, ◌==◌, if◌then◌else◌}
use space_shooter_c.Types.{increment}
use space_shooter_c.EntityPool.{
  EntityPool, acquire, empty_pool, recycle_destroyed, find_by_entity_id, fresh,
}
use space_shooter_c.EntityPool.Invariant.{IsSound, empty_pool-IsSound, acquire-IsSound}
use space_shooter_c.EntityPool.Lookup.{find-acquire, find-recycle, live}
use space_shooter_c.Examples.Samples.{whole}

abbrev two_entities : EntityPool ℕ
two_entities = (acquire whole (acquire whole (empty_pool whole)).0).0

two_entities-IsSound : IsSound two_entities
unfolding acquire empty_pool increment
two_entities-IsSound =
    acquire-IsSound whole (acquire whole (empty_pool whole)).0
      (acquire-IsSound whole (empty_pool whole) (empty_pool-IsSound whole) (omega arith))
      (omega arith)

find-acquire_example :
    (find_by_entity_id whole (acquire whole two_entities).0 3 ≡ (
      if 3 == two_entities.next_id
      then some (fresh whole two_entities.next_id)
      else find_by_entity_id whole two_entities 3))
    × (get_elem? (acquire whole two_entities).0.storage (acquire whole two_entities).1
        ≡ some (some (fresh whole two_entities.next_id)))
unfolding acquire empty_pool increment
find-acquire_example = find-acquire whole two_entities 3 two_entities-IsSound (omega arith)

find-recycle_example :
    find_by_entity_id whole (recycle_destroyed whole two_entities) 2
    ≡ live whole (find_by_entity_id whole two_entities 2)
find-recycle_example = find-recycle whole two_entities 2 two_entities-IsSound
