-- ===== src/EntityPool/Invariant.antt =====
-- The invariant that the comment of src/server/entity_pool.h states.
use space_shooter_c.Prelude.{
  ℕ, zero, suc, ◌+◌, ◌<◌, ◌≡◌, ◌≢◌, refl, ap, inl, inr, Option, none, some, List, [], ◌∷◌, ◌++◌,
  arith, if◌then◌else◌, ◌==◌, length, get_elem?, set, count, Bool-cases, get_elem?-set,
  get_elem?-snoc, get_elem?-lt,
}
use space_shooter_c.Scalar.{Scalars}
use space_shooter_c.Types.{id_mod, increment}
use space_shooter_c.Entity.{Entity}
use space_shooter_c.EntityPool.{EntityPool, acquire, fresh, empty_pool, insert_or_assign}

module _ {F : Type 0} where
  -- 1 at a disengaged slot, 0 at an engaged one and out of range.
  abbrev pub vacant : Option (Option (Entity F)) → ℕ
  vacant none = 0
  vacant (some none) = 1
  vacant (some (some e)) = 0

  abbrev pub engaged : Option (Entity F) → ℕ
  engaged none = 0
  engaged (some e) = 1

  abbrev pub vacancies : List (Option (Entity F)) → ℕ
  vacancies [] = 0
  vacancies (s ∷ ss) = vacant (some s) + vacancies ss

  abbrev pub engaged_count : List (Option (Entity F)) → ℕ
  engaged_count [] = 0
  engaged_count (s ∷ ss) = engaged s + engaged_count ss

  pub slots_split : (ss : List (Option (Entity F))) → vacancies ss + engaged_count ss ≡ length ss
  slots_split [] = refl
  slots_split (none ∷ ss) = omega (arith, slots_split ss)
  slots_split (some e ∷ ss) = omega (arith, slots_split ss)

  vacancies-engage :
      (ss : List (Option (Entity F))) (i : ℕ) (e : Entity F)
      → get_elem? ss i ≡ some none
      → vacancies (set ss i (some e)) + 1 ≡ vacancies ss
  vacancies-engage [] i e h = cc
  vacancies-engage (s ∷ ss) zero e h = ground arith
  vacancies-engage (s ∷ ss) (suc i) e h = omega (arith, vacancies-engage ss i e h)

  pub vacancies-release :
      (ss : List (Option (Entity F))) (i : ℕ) (e : Entity F)
      → get_elem? ss i ≡ some (some e)
      → vacancies (set ss i none) ≡ vacancies ss + 1
  vacancies-release [] i e h = cc
  vacancies-release (s ∷ ss) zero e h = ground arith
  vacancies-release (s ∷ ss) (suc i) e h = omega (arith, vacancies-release ss i e h)

  vacancies-snoc :
      (ss : List (Option (Entity F))) (e : Entity F) → vacancies (ss ++ some e ∷ []) ≡ vacancies ss
  vacancies-snoc [] e = refl
  vacancies-snoc (s ∷ ss) e = omega (arith, vacancies-snoc ss e)

  -- The entity of that id stands in the slot.
  abbrev pub Holds : List (Option (Entity F)) → ℕ → ℕ → Type 0
  Holds ss idx i = (e : Entity F) × (get_elem? ss idx ≡ some (some e)) × (e.id ≡ i)

  pub record IsSound (p : EntityPool F) : Type 0 where
    -- An index is free, once, exactly if its slot is disengaged.
    pub bijection : (i : ℕ) → count i p.free_indices ≡ vacant (get_elem? p.storage i)
    pub free_count : length p.free_indices ≡ vacancies p.storage
    -- The table of ids is exact.
    pub found : (i idx : ℕ) → p.id_to_indices i ≡ some idx → Holds p.storage idx i
    pub indexed :
        (idx : ℕ) (e : Entity F)
        → get_elem? p.storage idx ≡ some (some e)
        → p.id_to_indices e.id ≡ some idx
    pub below :
        (idx : ℕ) (e : Entity F) → get_elem? p.storage idx ≡ some (some e) → e.id < p.next_id

module _ (R : Scalars) where
  open R use {F}

  pub vacant_slot :
      (p : EntityPool F) (idx : ℕ) (rest : List ℕ)
      → IsSound p
      → p.free_indices ≡ idx ∷ rest
      → get_elem? p.storage idx ≡ some none
  vacant_slot p idx rest v e = ground (arith, v.bijection idx)

  pub empty_pool-IsSound : IsSound (empty_pool R)
  unfolding empty_pool
  empty_pool-IsSound = record {
    bijection = λ i. refl;
    free_count = refl;
    found = λ i idx e. cc;
    indexed = λ idx e at. cc;
    below = λ idx e at. cc;
  }

  -- The tables, after a fresh entity went into a slot that was not engaged.
  module _ (p q : EntityPool F) (idx : ℕ) (v : IsSound p)
      (free : (e : Entity F) → get_elem? p.storage idx ≢ some (some e))
      (stored : (j : ℕ)
        → get_elem? q.storage j
          ≡ (if idx == j then some (some (fresh R p.next_id)) else get_elem? p.storage j))
      (tabled : (i : ℕ)
        → q.id_to_indices i ≡ (if i == p.next_id then some idx else p.id_to_indices i))
      (counted : q.next_id ≡ p.next_id + 1) where
    engage-found : (i j : ℕ) → q.id_to_indices i ≡ some j → Holds q.storage j i
    engage-found i j e = elim (Bool-cases (i == p.next_id)) [
      | inl new ↦ (fresh R p.next_id, ground (arith, stored j, tabled i), ground arith)
      | inr old ↦
          let (x, at, same) = v.found i j (ground (arith, tabled i)) in
          (x, ground (arith, stored j, free x), same)
    ]

    engage-indexed :
        (j : ℕ) (e : Entity F)
        → get_elem? q.storage j ≡ some (some e)
        → q.id_to_indices e.id ≡ some j
    engage-indexed j e at = ground (arith, stored j, tabled e.id, v.indexed j e, v.below j e)

    engage-below : (j : ℕ) (e : Entity F) → get_elem? q.storage j ≡ some (some e) → e.id < q.next_id
    engage-below j e at = ground (arith, stored j, counted, v.below j e)

  -- `acquire` on its two branches.
  acquire_reuse :
      (p : EntityPool F) (idx : ℕ) (rest : List ℕ)
      → p.free_indices ≡ idx ∷ rest
      → IsSound p
      → p.next_id + 1 < id_mod
      → IsSound (acquire R p).0
  unfolding acquire
  acquire_reuse p idx rest e v h =
      let at = vacant_slot p idx rest v e in
      let q : EntityPool F = record {
        storage = set p.storage idx (some (fresh R p.next_id));
        free_indices = rest;
        id_to_indices = insert_or_assign p.id_to_indices p.next_id idx;
        next_id = increment p.next_id;
      } in
      let same : (acquire R p).0 ≡ q = rw (e, acquire) in
      let stored = λ (j : ℕ).
        get_elem?-set p.storage idx j (some (fresh R p.next_id)) (get_elem?-lt p.storage idx at) in
      let free : (x : Entity F) → get_elem? p.storage idx ≢ some (some x) = λ x k. ground arith in
      let next : q.next_id ≡ p.next_id + 1 = unfold increment in omega arith in
      rw same (record {
        bijection = λ i. ground (arith, v.bijection i, stored i, ap (count i) e);
        free_count = ground (
          arith,
          v.free_count,
          vacancies-engage p.storage idx (fresh R p.next_id) at,
          ap length e,
        );
        found = engage-found p q idx v free stored (λ i. refl) next;
        indexed = engage-indexed p q idx v free stored (λ i. refl) next;
        below = engage-below p q idx v free stored (λ i. refl) next;
      })

  acquire_grow :
      (p : EntityPool F)
      → p.free_indices ≡ []
      → IsSound p
      → p.next_id + 1 < id_mod
      → IsSound (acquire R p).0
  unfolding acquire
  acquire_grow p e v h =
      let q : EntityPool F = record {
        storage = p.storage ++ some (fresh R p.next_id) ∷ [];
        free_indices = [];
        id_to_indices = insert_or_assign p.id_to_indices p.next_id (length p.storage);
        next_id = increment p.next_id;
      } in
      let same : (acquire R p).0 ≡ q = rw (e, acquire) in
      let idx = length p.storage in
      let stored = λ (j : ℕ). get_elem?-snoc p.storage j (some (fresh R p.next_id)) in
      let free : (x : Entity F) → get_elem? p.storage idx ≢ some (some x) =
        λ x k. omega (arith, get_elem?-lt p.storage idx k) in
      let next : q.next_id ≡ p.next_id + 1 = unfold increment in omega arith in
      rw same (record {
        bijection = λ i. ground (arith, v.bijection i, stored i, ap (count i) e);
        free_count =
            ground (arith, v.free_count, vacancies-snoc p.storage (fresh R p.next_id), ap length e);
        found = engage-found p q idx v free stored (λ i. refl) next;
        indexed = engage-indexed p q idx v free stored (λ i. refl) next;
        below = engage-below p q idx v free stored (λ i. refl) next;
      })

  -- `acquire` keeps the pool sound, as long as the 64-bit counter of ids does not wrap.
  pub acquire-IsSound :
      (p : EntityPool F) → IsSound p → p.next_id + 1 < id_mod → IsSound (acquire R p).0
  acquire-IsSound p v h = go p.free_indices refl
    where
      go : (free : List ℕ) → p.free_indices ≡ free → IsSound (acquire R p).0
      go [] e = acquire_grow p e v h
      go (idx ∷ rest) e = acquire_reuse p idx rest e v h
