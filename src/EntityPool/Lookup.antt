-- ===== src/EntityPool/Lookup.antt =====
-- `findByEntityID` and `activeCount` of src/server/entity_pool.h, before and after the operations.
use space_shooter_c.Prelude.{
  ℕ, ◌+◌, ◌<◌, ◌≡◌, ◌≢◌, refl, inl, inr, Option, none, some, List, [], ◌∷◌, arith, if◌then◌else◌,
  ◌==◌, length, get_elem?, Option-cases, Bool-cases, get_elem?-set, get_elem?-snoc, get_elem?-lt,
}
use space_shooter_c.Scalar.{Scalars}
use space_shooter_c.Types.{id_mod}
use space_shooter_c.Entity.{Entity}
use space_shooter_c.EntityPool.{
  EntityPool, acquire, recycle_destroyed, active_count, find_by_entity_id, fresh,
}
use space_shooter_c.EntityPool.Invariant.{
  IsSound, engaged_count, slots_split, acquire-IsSound, vacant_slot,
}
use space_shooter_c.EntityPool.Recycle.{recycle-IsSound, recycle-swept}

module _ (R : Scalars) where
  open R use {F}

  -- `activeCount` is the number of engaged slots, counted one by one.
  pub active_count-engaged :
      (p : EntityPool F) → IsSound p → active_count R p ≡ engaged_count p.storage
  unfolding active_count
  active_count-engaged p v = omega (arith, v.free_count, slots_split p.storage)

  pub find-slot :
      (p : EntityPool F) (idx : ℕ) (e : Entity F)
      → IsSound p
      → get_elem? p.storage idx ≡ some (some e)
      → find_by_entity_id R p e.id ≡ some e
  unfolding find_by_entity_id
  find-slot p idx e v at = ground (arith, v.indexed idx e at)

  -- In a sound pool the lookup by id is exact: it answers with an entity exactly if some slot holds
  -- that entity and the id is the entity's own.
  pub find-Holds :
      (p : EntityPool F) (i : ℕ) (e : Entity F)
      → IsSound p
      → ((find_by_entity_id R p i ≡ some e)
          → (idx : ℕ) × (get_elem? p.storage idx ≡ some (some e)) × (e.id ≡ i))
        × ((idx : ℕ)
            → get_elem? p.storage idx ≡ some (some e)
            → e.id ≡ i
            → find_by_entity_id R p i ≡ some e)
  unfolding find_by_entity_id
  find-Holds p i e v = (
    λ h. elim (Option-cases (p.id_to_indices i)) [
      | inl k ↦ absurd (ground arith)
      | inr (idx, k) ↦ let (x, at, same) = v.found i idx k in (idx, ground arith, ground arith)
    ],
    λ idx at same. rw (← same) (find-slot p idx e v at),
  )

  find-none :
      (p : EntityPool F) (i : ℕ)
      → IsSound p
      → ((idx : ℕ) (e : Entity F) → get_elem? p.storage idx ≡ some (some e) → e.id ≢ i)
      → find_by_entity_id R p i ≡ none
  unfolding find_by_entity_id
  find-none p i v h = elim (Option-cases (p.id_to_indices i)) [
    | inl k ↦ ground arith
    | inr (idx, k) ↦ let (x, at, same) = v.found i idx k in absurd (h idx x at same)
  ]

  -- The slot that `acquire` returns was not engaged, and it is the only one that changes.
  pub acquire-stored :
      (p : EntityPool F) (j : ℕ)
      → IsSound p
      → (get_elem? (acquire R p).0.storage j ≡ (
          if (acquire R p).1 == j then some (some (fresh R p.next_id)) else get_elem? p.storage j))
        × ((e : Entity F) → get_elem? p.storage (acquire R p).1 ≢ some (some e))
  unfolding acquire
  acquire-stored p j v = go p.free_indices refl
    where
      go :
          (free : List ℕ)
          → p.free_indices ≡ free
          → (get_elem? (acquire R p).0.storage j ≡ (
              if (acquire R p).1 == j
              then some (some (fresh R p.next_id))
              else get_elem? p.storage j))
            × ((e : Entity F) → get_elem? p.storage (acquire R p).1 ≢ some (some e))
      go [] e =
          rw (e, acquire)
            (
              get_elem?-snoc p.storage j (some (fresh R p.next_id)),
              λ x at. omega (arith, get_elem?-lt p.storage (length p.storage) at),
            )
      go (idx ∷ rest) e =
          let at = vacant_slot R p idx rest v e in
          rw (e, acquire)
            (
              get_elem?-set p.storage idx j (some (fresh R p.next_id))
                  (get_elem?-lt p.storage idx at),
              λ x here. cc,
            )

  -- `acquire` adds the blank entity under the next id, and no other lookup changes. The slot that
  -- it returns holds that entity.
  pub find-acquire :
      (p : EntityPool F) (i : ℕ)
      → IsSound p
      → p.next_id + 1 < id_mod
      → (find_by_entity_id R (acquire R p).0 i
          ≡ (if i == p.next_id then some (fresh R p.next_id) else find_by_entity_id R p i))
        × (get_elem? (acquire R p).0.storage (acquire R p).1 ≡ some (some (fresh R p.next_id)))
  find-acquire p i v h =
      let q = (acquire R p).0 in
      let w = acquire-IsSound R p v h in
      let at : get_elem? q.storage (acquire R p).1 ≡ some (some (fresh R p.next_id)) =
        ground (arith, (acquire-stored p (acquire R p).1 v).0) in
      (
        elim (Bool-cases (i == p.next_id)) [
          | inl new ↦
              rw new ((find-Holds q i (fresh R p.next_id) w).1 (acquire R p).1 at (ground arith))
          | inr old ↦ rw old (elim (Option-cases (find_by_entity_id R p i)) [
            | inl e ↦ rw e (
                find-none q i w λ idx x here same.
                  let before : get_elem? p.storage idx ≡ some (some x) =
                    ground (arith, (acquire-stored p idx v).0) in
                  let hit = find-slot p idx x v before in cc)
            | inr (x, e) ↦
                let (idx, here, same) = (find-Holds p i x v).0 e in
                rw e (
                  (find-Holds q i x w).1 idx
                    (ground (arith, (acquire-stored p idx v).0, (acquire-stored p idx v).1 x)) same)
          ])
        ],
        at,
      )

  abbrev pub live : Option (Entity F) → Option (Entity F)
  live none = none
  live (some e) = if e.is_destroyed then none else some e

  -- After `recycleDestroyed` a lookup finds what it found before, but for the destroyed entities.
  pub find-recycle :
      (p : EntityPool F) (i : ℕ)
      → IsSound p
      → find_by_entity_id R (recycle_destroyed R p) i ≡ live (find_by_entity_id R p i)
  find-recycle p i v =
      let w = recycle-IsSound R p v in
      elim (Option-cases (find_by_entity_id R p i)) [
        | inl e ↦ rw e (
            find-none (recycle_destroyed R p) i w λ idx x at same.
              let before : get_elem? p.storage idx ≡ some (some x) =
                ground (arith, recycle-swept R p idx) in
              let hit = find-slot p idx x v before in cc)
        | inr (x, e) ↦
            let (idx, at, same) = (find-Holds p i x v).0 e in
            elim (Bool-cases x.is_destroyed) [
              | inl dead ↦
                  rw (e, dead)
                    (find-none (recycle_destroyed R p) i w λ j y at' same'.
                      let before : get_elem? p.storage j ≡ some (some y) =
                        ground (arith, recycle-swept R p j) in
                      ground (
                        arith,
                        v.indexed idx x at,
                        v.indexed j y before,
                        recycle-swept R p idx,
                        recycle-swept R p j,
                      ))
              | inr kept ↦
                  let hit =
                    (find-Holds (recycle_destroyed R p) i x w).1 idx
                      (ground (arith, recycle-swept R p idx)) same in
                  rw e (ground arith)
            ]
      ]
