-- ===== src/Examples/Samples.antt =====
-- Concrete parameters for the tests.
use space_shooter_c.Prelude.{
  ℕ, ◌+◌, ◌-◌, ◌*◌, ◌/◌, ◌%◌, true, Option, none, some, List, [], ◌∷◌, ◌++◌, ltb, leb, ◌==◌,
}
use space_shooter_c.Scalar.{Scalars}

-- Whole numbers in the place of doubles: enough to run the code at.
abbrev pub whole : Scalars
whole = record {
  F = ℕ;
  lit = λ n d. n / d;
  add = λ a b. a + b;
  sub = λ a b. a - b;
  mul = λ a b. a * b;
  div = λ a b. a / b;
  neg = λ a. 0;
  lt = λ a b. ltb a b;
  le = λ a b. leb a b;
  eq = λ a b. a == b;
  is_finite = λ a. true;
  max_value = 1_000_000;
  pi = 3;
  fabs = λ a. a;
  sqrt = λ a. a;
  cos = λ a. 1;
  sin = λ a. 0;
  remainder = λ a b. a % b;
  copysign = λ a b. a;
  to_u16 = λ a. a;
  to_microseconds = λ a. a * 1_000_000;
  float_seconds = λ n. n / 1_000_000;
}

-- A callback that keeps every payload, and one that throws at an empty payload.
abbrev pub keep : List (List ℕ) → List ℕ → List (List ℕ)
keep log p = log ++ p ∷ []

abbrev pub log_all : List (List ℕ) → List ℕ → List (List ℕ) × Option ℕ
log_all log p = (log ++ p ∷ [], none)

abbrev pub log_or_throw : List (List ℕ) → List ℕ → List (List ℕ) × Option ℕ
log_or_throw log [] = (log, some 7)
log_or_throw log (b ∷ p) = (log ++ (b ∷ p) ∷ [], none)

-- The frame of the payload 1, 2, 3, and its first ten bytes.
abbrev pub frame_bytes : List ℕ
frame_bytes = 0xDE ∷ 0xAD ∷ 0xBE ∷ 0xEF ∷ 0 ∷ 0 ∷ 0 ∷ 3 ∷ 1 ∷ 2 ∷ 3 ∷ []

abbrev pub first_piece : List ℕ
first_piece = 0xDE ∷ 0xAD ∷ 0xBE ∷ 0xEF ∷ 0 ∷ 0 ∷ 0 ∷ 3 ∷ 1 ∷ 2 ∷ []
