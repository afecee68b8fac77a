-- ===== src/AsteroidFactory/Weights.antt =====
-- The budget loop of src/server/asteroid_factory.cpp.
use space_shooter_c.Prelude.{
  ℕ, zero, suc, ◌≤◌, ◌<◌, ◌≡◌, true, false, inl, inr, List, [], ◌∷◌, arith, Bool-cases,
}
use space_shooter_c.Scalar.{Scalars, std_min}
use space_shooter_c.AsteroidFactory.{
  Randomness, min_asteroids_weight, min_asteroid_weight, max_asteroid_weight, weight_rounds,
  weights_from,
}

module _ (R : Scalars) where
  open R use {F, sub, le}

  -- std::uniform_real_distribution draws between its bounds.
  pub record DrawsBetween {G : Type 0} (rng : Randomness F G) : Type 0 where
    pub from_low : (lo hi : F) (g : G) → le lo hi ≡ true → le lo (rng.draw lo hi g).0 ≡ true
    pub to_high : (lo hi : F) (g : G) → le lo hi ≡ true → le (rng.draw lo hi g).0 hi ≡ true

  -- What holds of doubles between 10 and 500, with the whole tens in a number as `tens`: the least of
  -- 80 and such a number is between 10 and that number, and to subtract from it 10 or more, up to
  -- the number itself, leaves fewer tens and at most 500. At most 500 are at most 50 tens.
  pub record CountsTens (tens : F → ℕ) : Type 0 where
    pub few : (r : F) → le r (min_asteroids_weight R) ≡ true → tens r ≤ 50
    pub least :
        (r : F)
        → le (min_asteroid_weight R) r ≡ true
        → le (min_asteroid_weight R) (std_min R (max_asteroid_weight R) r) ≡ true
    pub below :
        (r d : F)
        → le (min_asteroid_weight R) r ≡ true
        → le d (std_min R (max_asteroid_weight R) r) ≡ true
        → le d r ≡ true
    pub falls :
        (r d : F)
        → le (min_asteroid_weight R) r ≡ true
        → le r (min_asteroids_weight R) ≡ true
        → le (min_asteroid_weight R) d ≡ true
        → le d r ≡ true
        → (tens (sub r d) < tens r) × (le (sub r d) (min_asteroids_weight R) ≡ true)

  module _ {G : Type 0} (rng : Randomness F G) where
    abbrev pub drawn : F → G → F × G
    drawn r s = rng.draw (min_asteroid_weight R) (std_min R (max_asteroid_weight R) r) s

    -- The loop without a bound: it leaves by its own test after `k` rounds, with `out`.
    abbrev pub LeavesAfter : ℕ → F → G → List F × G → Type 0
    LeavesAfter zero r s out = (le (min_asteroid_weight R) r ≡ false) × (out ≡ ([], s))
    LeavesAfter (suc k) r s out =
        let d = drawn r s in
        (le (min_asteroid_weight R) r ≡ true)
        × (rest : List F × G) × LeavesAfter k (sub r d.0) d.1 rest
        × (out ≡ (d.0 ∷ rest.0, rest.1))

    module _ (tens : F → ℕ) (draws : DrawsBetween rng) (counts : CountsTens tens) where
      draw_falls :
          (r : F) (s : G)
          → le (min_asteroid_weight R) r ≡ true
          → le r (min_asteroids_weight R) ≡ true
          → (tens (sub r (drawn r s).0) < tens r)
            × (le (sub r (drawn r s).0) (min_asteroids_weight R) ≡ true)
      draw_falls r s low high =
          let bounds = counts.least r low in
          let from = draws.from_low (min_asteroid_weight R) _ s bounds in
          let to = draws.to_high (min_asteroid_weight R) _ s bounds in
          counts.falls r (drawn r s).0 low high from (counts.below r (drawn r s).0 low to)

      fuel_enough :
          (f : ℕ) (r : F) (s : G)
          → le r (min_asteroids_weight R) ≡ true
          → tens r < f
          → (k : ℕ) × (k ≤ tens r) × LeavesAfter k r s (weights_from R rng f r s)
      unfolding weights_from
      fuel_enough zero r s high h = absurd (omega arith)
      fuel_enough (suc f) r s high h = elim (Bool-cases (le (min_asteroid_weight R) r)) [
        | inl low ↦
            let d = drawn r s in
            let fall = draw_falls r s low high in
            let (k, few, rest) = fuel_enough f (sub r d.0) d.1 fall.1 (ground (arith, fall.0, h)) in
            (
              suc k,
              ground (arith, few, fall.0),
              (low, weights_from R rng f (sub r d.0) d.1, rest, ground (arith, low)),
            )
        | inr out ↦ (0, omega arith, (out, ground (arith, out)))
      ]

      -- The loop over the budget ends by its own test, for a budget of at most 500: without a bound
      -- it leaves after at most 50 rounds, with the weights and the state of the generator that the
      -- bounded loop gives. The generator is taken to draw between its bounds, and the scalars to
      -- count tens up to 500 as doubles do.
      pub weights_from-fuel :
          (r : F) (s : G)
          → le r (min_asteroids_weight R) ≡ true
          → (k : ℕ) × (k ≤ 50) × LeavesAfter k r s (weights_from R rng weight_rounds r s)
      weights_from-fuel r s high =
          let few = counts.few r high in
          let (k, le, leaves) = fuel_enough weight_rounds r s high (omega (arith, few)) in
          (k, omega (arith, le, few), leaves)
