-- ===== src/EntityPool/Recycle.antt =====
-- `recycleDestroyed` of src/server/entity_pool.h, round by round.
use space_shooter_c.Prelude.{
  ℕ, zero, suc, ◌+◌, ◌≡◌, ◌≢◌, refl, ap, ◌∙◌, inl, inr, Option, none, some, arith, if◌then◌else◌,
  ◌==◌, length, get_elem?, Option-cases, Bool-cases, get_elem?-set, get_elem?-lt, ltb, leb, ◌&&◌,
}
use space_shooter_c.Scalar.{Scalars}
use space_shooter_c.Entity.{Entity}
use space_shooter_c.EntityPool.{EntityPool, recycle_slot, recycle_from, recycle_destroyed}
use space_shooter_c.EntityPool.Invariant.{IsSound, vacancies-release}

module _ (R : Scalars) where
  open R use {F}

  recycle_slot-IsSound : (i : ℕ) (p : EntityPool F) → IsSound p → IsSound (recycle_slot R i p)
  unfolding recycle_slot
  recycle_slot-IsSound i p v = elim (Option-cases (get_elem? p.storage i)) [
    | inl e ↦ rw (e, recycle_slot) v
    | inr (none, e) ↦ rw (e, recycle_slot) v
    | inr (some x, e) ↦ elim (Bool-cases x.is_destroyed) [
      | inr kept ↦ rw (e, recycle_slot, kept) v
      | inl dead ↦
          let stored = λ (j : ℕ). get_elem?-set p.storage i j none (get_elem?-lt p.storage i e) in
          let here = v.indexed i x e in
          rw (e, recycle_slot, dead)
            (record {
              bijection = λ j. ground (arith, v.bijection j, stored j);
              free_count = ground (arith, v.free_count, vacancies-release p.storage i x e);
              found = λ j idx k.
                  let old : p.id_to_indices j ≡ some idx = ground arith in
                  let other : j ≢ x.id = ground arith in
                  let (y, at, same) = v.found j idx old in (y, ground (arith, stored idx), same);
              indexed = λ j y at. ground (arith, stored j, v.indexed j y, here);
              below = λ j y at. ground (arith, stored j, v.below j y);
            })
    ]
  ]

  recycle_from-IsSound : (n i : ℕ) (p : EntityPool F) → IsSound p → IsSound (recycle_from R n i p)
  unfolding recycle_from
  recycle_from-IsSound zero i p v = v
  recycle_from-IsSound (suc n) i p v =
      recycle_from-IsSound n (i + 1) (recycle_slot R i p) (recycle_slot-IsSound i p v)

  pub recycle-IsSound : (p : EntityPool F) → IsSound p → IsSound (recycle_destroyed R p)
  unfolding recycle_destroyed
  recycle-IsSound p v = recycle_from-IsSound (length p.storage) 0 p v

  -- What becomes of a slot: a destroyed entity is dropped.
  abbrev pub swept : Option (Option (Entity F)) → Option (Option (Entity F))
  swept none = none
  swept (some none) = some none
  swept (some (some e)) = if e.is_destroyed then some none else some (some e)

  slot-swept :
      (i j : ℕ) (p : EntityPool F)
      → get_elem? (recycle_slot R i p).storage j
        ≡ (if i == j then swept (get_elem? p.storage j) else get_elem? p.storage j)
  unfolding recycle_slot
  slot-swept i j p = elim (Option-cases (get_elem? p.storage i)) [
    | inl e ↦ rw (e, recycle_slot) (ground arith)
    | inr (none, e) ↦ rw (e, recycle_slot) (ground arith)
    | inr (some x, e) ↦ elim (Bool-cases x.is_destroyed) [
      | inr kept ↦ rw (e, recycle_slot, kept) (ground arith)
      | inl dead ↦
          rw (e, recycle_slot, dead)
            (ground (arith, get_elem?-set p.storage i j none (get_elem?-lt p.storage i e)))
    ]
  ]

  loop-swept :
      (n i j : ℕ) (p : EntityPool F)
      → get_elem? (recycle_from R n i p).storage j ≡ (
          if leb i j && ltb j (i + n) then swept (get_elem? p.storage j) else get_elem? p.storage j)
  unfolding recycle_from
  loop-swept zero i j p = ground arith
  loop-swept (suc n) i j p =
      ground (arith, loop-swept n (i + 1) j (recycle_slot R i p), slot-swept i j p)

  -- After the call every slot that held a destroyed entity is empty, and no other slot changed.
  pub recycle-swept :
      (p : EntityPool F) (j : ℕ)
      → get_elem? (recycle_destroyed R p).storage j ≡ swept (get_elem? p.storage j)
  unfolding recycle_destroyed
  recycle-swept p j = elim (Option-cases (get_elem? p.storage j)) [
    | inl e ↦ ground (arith, loop-swept (length p.storage) 0 j p)
    | inr (s, e) ↦ ground (arith, loop-swept (length p.storage) 0 j p, get_elem?-lt p.storage j e)
  ]

  untouched :
      (i : ℕ) (p : EntityPool F)
      → swept (get_elem? p.storage i) ≡ get_elem? p.storage i
      → recycle_slot R i p ≡ p
  unfolding recycle_slot
  untouched i p h = ground arith

  nothing_dead :
      (n i : ℕ) (p : EntityPool F)
      → ((j : ℕ) → swept (get_elem? p.storage j) ≡ get_elem? p.storage j)
      → recycle_from R n i p ≡ p
  unfolding recycle_from
  nothing_dead zero i p h = refl
  nothing_dead (suc n) i p h =
      ap (recycle_from R n (i + 1)) (untouched i p (h i)) ∙ nothing_dead n (i + 1) p h

  swept-swept : (s : Option (Option (Entity F))) → swept (swept s) ≡ swept s
  swept-swept none = refl
  swept-swept (some none) = refl
  swept-swept (some (some e)) = ground arith

  -- Calling it again with no destruction in between changes nothing.
  pub recycle_idempotent :
      (p : EntityPool F) → recycle_destroyed R (recycle_destroyed R p) ≡ recycle_destroyed R p
  recycle_idempotent p =
      let q = recycle_destroyed R p in
      unfold recycle_destroyed in
      nothing_dead (length q.storage) 0 q
        (λ j. rw (recycle-swept p j) (swept-swept (get_elem? p.storage j)))
