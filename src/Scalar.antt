-- ===== src/Scalar.antt =====
-- `math::Scalar` of src/common/math_utils.h is a double. The arithmetic and <cmath> are not code of
-- this repository: they are the fields of a record, which the modules that compute with scalars
-- take as a parameter. No law is assumed here; a theorem that needs one names it.
use space_shooter_c.Prelude.{ℕ, Bool, if◌then◌else◌}

pub record Scalars : Type 1 where
  pub F : Type 0
  -- The literal n / d, such as 0.5 = lit 1 2.
  pub lit : ℕ → ℕ → F
  pub add : F → F → F
  pub sub : F → F → F
  pub mul : F → F → F
  pub div : F → F → F
  pub neg : F → F
  -- `<` and `<=`: both are false when an operand is not a number.
  pub lt : F → F → Bool
  pub le : F → F → Bool
  pub eq : F → F → Bool
  pub is_finite : F → Bool
  -- std::numeric_limits<double>::max(), std::numbers::pi.
  pub max_value : F
  pub pi : F
  pub fabs : F → F
  pub sqrt : F → F
  pub cos : F → F
  pub sin : F → F
  pub remainder : F → F → F
  pub copysign : F → F → F
  -- static_cast<uint16_t>, for a value in range.
  pub to_u16 : F → ℕ
  -- std::chrono::duration_cast<microseconds>(duration<double>(seconds)), and
  -- static_cast<float>(count) / 1'000'000.0f, widened to a double.
  pub to_microseconds : F → ℕ
  pub float_seconds : ℕ → F

-- std::min, std::max and std::clamp, as <algorithm> states them by `<`.
module _ (R : Scalars) where
  open R use {F, lt}

  unfoldable pub std_min : F → F → F
  std_min a b = if lt b a then b else a

  unfoldable pub std_max : F → F → F
  std_max a b = if lt a b then b else a

  unfoldable pub std_clamp : F → F → F → F
  std_clamp v lo hi = if lt v lo then lo else if lt hi v then hi else v
