-- ===== src/EntityPool.antt =====
-- src/server/entity_pool.h: slots, the stack of free indices (its head is the back of the vector), the
-- table of ids and the next id, a 64-bit counter.
pub mod Invariant
pub mod Recycle
pub mod Lookup
pub mod Writes
use space_shooter_c.Prelude.{
  ℕ, zero, suc, ◌+◌, ◌-◌, ◌%◌, ◌^◌, Bool, true, false, not, ◌&&◌, Option, none, some, List, [], ◌∷◌,
  ◌++◌, if◌then◌else◌, ◌==◌, length, get_elem?, set,
}
use space_shooter_c.Scalar.{Scalars}
use space_shooter_c.Entity.{Entity, blank}
use space_shooter_c.Types.{EntityType, same_type, id_mod, increment}

pub record EntityPool (F : Type 0) : Type 0 where
  pub storage : List (Option (Entity F))
  pub free_indices : List ℕ
  pub id_to_indices : ℕ → Option ℕ
  pub next_id : ℕ

-- A write into the hash table, and the removal of a key.
abbrev pub insert_or_assign : (ℕ → Option ℕ) → ℕ → ℕ → ℕ → Option ℕ
insert_or_assign m k v j = if j == k then some v else m j

abbrev pub erase : (ℕ → Option ℕ) → ℕ → ℕ → Option ℕ
erase m k j = if j == k then none else m j

module _ (R : Scalars) where
  open R use {F}

  unfoldable pub empty_pool : EntityPool F
  empty_pool = record { storage = []; free_indices = []; id_to_indices = λ _. none; next_id = 1 }

  abbrev pub fresh : ℕ → Entity F
  fresh i = record (blank R) { id = i }

  -- The new pool, and the index of the slot whose address is returned.
  unfoldable pub acquire : EntityPool F → EntityPool F × ℕ
  acquire p = elim p.free_indices [
    | idx ∷ rest ↦ (
      record {
        storage = set p.storage idx (some (fresh p.next_id));
        free_indices = rest;
        id_to_indices = insert_or_assign p.id_to_indices p.next_id idx;
        next_id = increment p.next_id;
      },
      idx,
    )
    | [] ↦ (
      record {
        storage = p.storage ++ some (fresh p.next_id) ∷ [];
        free_indices = [];
        id_to_indices = insert_or_assign p.id_to_indices p.next_id (length p.storage);
        next_id = increment p.next_id;
      },
      length p.storage,
    )
  ]

  -- The body of the loop of `recycleDestroyed`, at slot `i`.
  unfoldable pub recycle_slot : ℕ → EntityPool F → EntityPool F
  recycle_slot i p = elim (get_elem? p.storage i) [
    | none ↦ p
    | some none ↦ p
    | some (some e) ↦
        if e.is_destroyed
        then record p {
          storage = set p.storage i none;
          free_indices = i ∷ p.free_indices;
          id_to_indices = erase p.id_to_indices e.id;
        }
        else p
  ]

  -- `n` more rounds of the loop, from slot `i`.
  unfoldable pub recycle_from : ℕ → ℕ → EntityPool F → EntityPool F
  recycle_from zero i p = p
  recycle_from (suc n) i p = recycle_from n (i + 1) (recycle_slot i p)

  unfoldable pub recycle_destroyed : EntityPool F → EntityPool F
  recycle_destroyed p = recycle_from (length p.storage) 0 p

  unfoldable pub is_active : Option (Entity F) → Bool
  is_active none = false
  is_active (some e) = not (same_type e.type EntityType.none) && not e.is_destroyed

  unfoldable pub active_count : EntityPool F → ℕ
  active_count p = length p.storage - length p.free_indices

  -- The entity that the returned pointer refers to.
  unfoldable pub find_by_entity_id : EntityPool F → ℕ → Option (Entity F)
  find_by_entity_id p i = elim (p.id_to_indices i) [
    | none ↦ none
    | some idx ↦ elim (get_elem? p.storage idx) [ none ↦ none | some slot ↦ slot ]
  ]

  -- A write through the pointer to the entity of slot `i`.
  unfoldable pub modify_slot :
      List (Option (Entity F)) → ℕ → (Entity F → Entity F) → List (Option (Entity F))
  modify_slot [] i f = []
  modify_slot (none ∷ slots) zero f = none ∷ slots
  modify_slot (some e ∷ slots) zero f = some (f e) ∷ slots
  modify_slot (s ∷ slots) (suc i) f = s ∷ modify_slot slots i f

  abbrev pub modify : EntityPool F → ℕ → (Entity F → Entity F) → EntityPool F
  modify p i f = record p { storage = modify_slot p.storage i f }

  -- The pointer that `findByEntityID` returns: the slot's index, with the entity that it holds.
  unfoldable pub locate : EntityPool F → ℕ → Option (ℕ × Entity F)
  locate p i = elim (p.id_to_indices i) [
    | none ↦ none
    | some idx ↦ elim (get_elem? p.storage idx) [
      | none ↦ none
      | some none ↦ none
      | some (some e) ↦ some (idx, e)
    ]
  ]
