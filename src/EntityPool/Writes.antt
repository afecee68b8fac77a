-- ===== src/EntityPool/Writes.antt =====
-- Writes through pointers into the pool of src/server/entity_pool.h: the ids of
-- the entities, and the pool's invariant.
use space_shooter_c.Prelude.{
  ℕ, zero, suc, ◌+◌, ◌≡◌, refl, sym, ap, ◌∙◌, Option, none, some, List, [], ◌∷◌, arith, length,
  get_elem?, set, ◌==◌, if◌then◌else◌,
}
use space_shooter_c.Scalar.{Scalars}
use space_shooter_c.Entity.{Entity}
use space_shooter_c.EntityPool.{EntityPool, modify_slot, locate}
use space_shooter_c.EntityPool.Invariant.{IsSound, vacancies, vacant}

abbrev count_none : List (Option ℕ) → ℕ
count_none [] = 0
count_none (none ∷ rest) = 1 + count_none rest
count_none (some i ∷ rest) = 0 + count_none rest

module _ {F : Type 0} where
  abbrev pub id_of : Option (Entity F) → Option ℕ
  id_of none = none
  id_of (some e) = some e.id

  -- What the tables of the pool say of the slots.
  abbrev pub ids : List (Option (Entity F)) → List (Option ℕ)
  ids [] = []
  ids (s ∷ ss) = id_of s ∷ ids ss

  abbrev id_slot : Option (Option (Entity F)) → Option (Option ℕ)
  id_slot none = none
  id_slot (some s) = some (id_of s)

  get_elem?-ids :
      (ss : List (Option (Entity F))) (i : ℕ) → get_elem? (ids ss) i ≡ id_slot (get_elem? ss i)
  get_elem?-ids [] i = refl
  get_elem?-ids (s ∷ ss) zero = refl
  get_elem?-ids (s ∷ ss) (suc i) = get_elem?-ids ss i

  vacancies-ids : (ss : List (Option (Entity F))) → vacancies ss ≡ count_none (ids ss)
  vacancies-ids [] = refl
  vacancies-ids (none ∷ ss) = omega (arith, vacancies-ids ss)
  vacancies-ids (some e ∷ ss) = omega (arith, vacancies-ids ss)

  vacant-id_slot : (a b : Option (Option (Entity F))) → id_slot a ≡ id_slot b → vacant a ≡ vacant b
  vacant-id_slot none none h = refl
  vacant-id_slot none (some s) h = cc
  vacant-id_slot (some s) none h = cc
  vacant-id_slot (some none) (some none) h = refl
  vacant-id_slot (some none) (some (some e)) h = cc
  vacant-id_slot (some (some e)) (some none) h = cc
  vacant-id_slot (some (some e)) (some (some f)) h = refl

  held-id_slot :
      (a b : Option (Option (Entity F))) (e : Entity F)
      → id_slot a ≡ id_slot b
      → a ≡ some (some e)
      → (f : Entity F) × (b ≡ some (some f)) × (f.id ≡ e.id)
  held-id_slot a none e h k = absurd (ground arith)
  held-id_slot a (some none) e h k = absurd (ground arith)
  held-id_slot a (some (some f)) e h k = (f, refl, ground arith)

  slot-ids :
      (ss ts : List (Option (Entity F))) (i : ℕ)
      → ids ss ≡ ids ts
      → id_slot (get_elem? ss i) ≡ id_slot (get_elem? ts i)
  slot-ids ss ts i h = sym (get_elem?-ids ss i) ∙ ap (λ is. get_elem? is i) h ∙ get_elem?-ids ts i

  -- New slots with the same ids in the same places leave the pool sound.
  pub IsSound-ids :
      (p : EntityPool F) (ss : List (Option (Entity F)))
      → ids ss ≡ ids p.storage
      → IsSound p
      → IsSound (record p { storage = ss })
  IsSound-ids p ss h v = record {
    bijection = λ i.
        v.bijection i
        ∙ vacant-id_slot (get_elem? p.storage i) (get_elem? ss i) (sym (slot-ids ss p.storage i h));
    free_count =
        v.free_count ∙ vacancies-ids p.storage ∙ sym (ap count_none h) ∙ sym (vacancies-ids ss);
    found = λ i idx e.
        let (x, at, same) = v.found i idx e in
        let (y, here, eq) =
          held-id_slot (get_elem? p.storage idx) (get_elem? ss idx) x
            (sym (slot-ids ss p.storage idx h)) at in
        (y, here, eq ∙ same);
    indexed = λ idx e at.
        let (x, here, eq) =
          held-id_slot (get_elem? ss idx) (get_elem? p.storage idx) e (slot-ids ss p.storage idx h)
            at in
        rw (← eq) (v.indexed idx x here);
    below = λ idx e at.
        let (x, here, eq) =
          held-id_slot (get_elem? ss idx) (get_elem? p.storage idx) e (slot-ids ss p.storage idx h)
            at in
        rw (← eq) (v.below idx x here);
  }

  pub ids-set :
      (ss : List (Option (Entity F))) (i : ℕ) (x e : Entity F)
      → get_elem? ss i ≡ some (some x)
      → e.id ≡ x.id
      → ids (set ss i (some e)) ≡ ids ss
  ids-set [] i x e at h = cc
  ids-set (s ∷ ss) zero x e at h = ground arith
  ids-set (s ∷ ss) (suc i) x e at h = ap (◌∷◌ (id_of s)) (ids-set ss i x e at h)

module _ (R : Scalars) where
  open R use {F}

  pub ids-modify_slot :
      (ss : List (Option (Entity F))) (i : ℕ) (f : Entity F → Entity F)
      → ((e : Entity F) → (f e).id ≡ e.id)
      → ids (modify_slot R ss i f) ≡ ids ss
  unfolding modify_slot
  ids-modify_slot [] i f h = refl
  ids-modify_slot (none ∷ ss) zero f h = refl
  ids-modify_slot (some e ∷ ss) zero f h = ap (λ i. some i ∷ ids ss) (h e)
  ids-modify_slot (none ∷ ss) (suc i) f h = ap (◌∷◌ none) (ids-modify_slot ss i f h)
  ids-modify_slot (some e ∷ ss) (suc i) f h = ap (◌∷◌ (some e.id)) (ids-modify_slot ss i f h)

  pub modify_slot-IsSound :
      (p : EntityPool F) (i : ℕ) (f : Entity F → Entity F)
      → ((e : Entity F) → (f e).id ≡ e.id)
      → IsSound p
      → IsSound (record p { storage = modify_slot R p.storage i f })
  modify_slot-IsSound p i f h v =
      IsSound-ids p (modify_slot R p.storage i f) (ids-modify_slot p.storage i f h) v

  abbrev pub written :
      (Entity F → Entity F) → Option (Option (Entity F)) → Option (Option (Entity F))
  written f none = none
  written f (some none) = some none
  written f (some (some e)) = some (some (f e))

  pub get_elem?-modify_slot :
      (ss : List (Option (Entity F))) (i j : ℕ) (f : Entity F → Entity F)
      → get_elem? (modify_slot R ss i f) j
        ≡ (if i == j then written f (get_elem? ss j) else get_elem? ss j)
  unfolding modify_slot
  get_elem?-modify_slot [] i j f = ground arith
  get_elem?-modify_slot (none ∷ ss) zero zero f = ground arith
  get_elem?-modify_slot (none ∷ ss) zero (suc j) f = ground arith
  get_elem?-modify_slot (some e ∷ ss) zero zero f = ground arith
  get_elem?-modify_slot (some e ∷ ss) zero (suc j) f = ground arith
  get_elem?-modify_slot (s ∷ ss) (suc i) zero f = ground arith
  get_elem?-modify_slot (none ∷ ss) (suc i) (suc j) f =
      ground (arith, get_elem?-modify_slot ss i j f)
  get_elem?-modify_slot (some e ∷ ss) (suc i) (suc j) f =
      ground (arith, get_elem?-modify_slot ss i j f)

  pub length-modify_slot :
      (ss : List (Option (Entity F))) (i : ℕ) (f : Entity F → Entity F)
      → length (modify_slot R ss i f) ≡ length ss
  unfolding modify_slot
  length-modify_slot [] i f = refl
  length-modify_slot (none ∷ ss) zero f = refl
  length-modify_slot (some e ∷ ss) zero f = refl
  length-modify_slot (none ∷ ss) (suc i) f = ap suc (length-modify_slot ss i f)
  length-modify_slot (some e ∷ ss) (suc i) f = ap suc (length-modify_slot ss i f)

  -- The located entity stands in its slot, under the id.
  pub locate-get :
      (p : EntityPool F) (i idx : ℕ) (e : Entity F)
      → locate R p i ≡ some (idx, e)
      → (get_elem? p.storage idx ≡ some (some e)) × (p.id_to_indices i ≡ some idx)
  unfolding locate
  locate-get p i idx e h = ground arith
