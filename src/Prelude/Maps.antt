-- ===== src/Prelude/Maps.antt =====
-- std::unordered_map with numbers for keys, as the list of its entries. A key has one entry, since
-- `assign` replaces the one that is there.
use Prim.Native.Nat.{ℕ}
use mathlib.Core.Path.{◌≡◌, refl}
use mathlib.Core.Option.{Option, none, some}
use mathlib.Core.List.{List, [], ◌∷◌, ◌++◌}
use native.Mathlib.Omega.{arith}
use space_shooter_c.Prelude.Tests.{◌==◌, if◌then◌else◌}

module _ {ℓ} {V : Type ℓ} where
  abbrev pub find_key : ℕ → List (ℕ × V) → Option V
  find_key k [] = none
  find_key k ((j, v) ∷ m) = if j == k then some v else find_key k m

  abbrev pub assign : ℕ → V → List (ℕ × V) → List (ℕ × V)
  assign k v [] = (k, v) ∷ []
  assign k v ((j, w) ∷ m) = if j == k then (k, v) ∷ m else (j, w) ∷ assign k v m

  abbrev pub remove_key : ℕ → List (ℕ × V) → List (ℕ × V)
  remove_key k [] = []
  remove_key k ((j, w) ∷ m) = let rest = remove_key k m in if j == k then rest else (j, w) ∷ rest

  pub find_key-assign :
      (k j : ℕ) (v : V) (m : List (ℕ × V))
      → find_key j (assign k v m) ≡ (if k == j then some v else find_key j m)
  find_key-assign k j v [] = refl
  find_key-assign k j v ((i, w) ∷ m) = ground (arith, find_key-assign k j v m)

  pub find_key-remove_key :
      (k j : ℕ) (m : List (ℕ × V))
      → find_key j (remove_key k m) ≡ (if k == j then none else find_key j m)
  find_key-remove_key k j [] = ground arith
  find_key-remove_key k j ((i, w) ∷ m) = ground (arith, find_key-remove_key k j m)

  -- An entry behind the others is found for its key, if none of them has it.
  pub find_key-snoc :
      (j k : ℕ) (v : V) (m : List (ℕ × V))
      → find_key j (m ++ (k, v) ∷ []) ≡ elim (find_key j m) as (λ x. Option V) [
        | some w ↦ some w
        | none ↦ if k == j then some v else none
      ]
  find_key-snoc j k v [] = refl
  find_key-snoc j k v ((i, w) ∷ m) = ground (arith, find_key-snoc j k v m)
