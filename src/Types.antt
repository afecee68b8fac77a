-- ===== src/Types.antt =====
-- src/common/types.h and src/common/strong_id.h. An id is its 64-bit value; the tag type is gone.
use space_shooter_c.Prelude.{ℕ, ◌+◌, ◌-◌, ◌*◌, ◌/◌, ◌%◌, ◌^◌, ◌<◌, ◌≡◌, Bool, true, false, arith}
use Prim.Native.Nat.{bit_xor}

-- `enum class EntityType : std::uint8_t { None, Ship, Asteroid, Bullet }`.
pub data EntityType : Type 0 where
  none ship asteroid bullet : EntityType

abbrev pub same_type : EntityType → EntityType → Bool
same_type none none = true
same_type ship ship = true
same_type asteroid asteroid = true
same_type bullet bullet = true
same_type _ _ = false

pub data Direction : Type 0 where
  up down left right : Direction

abbrev pub id_mod : ℕ
id_mod = 2 ^ 64

-- `operator++` and `operator--` on the 64-bit value.
unfoldable pub increment : ℕ → ℕ
increment v = (v + 1) % id_mod

unfoldable pub decrement : ℕ → ℕ
decrement v = (v + id_mod - 1) % id_mod

unfoldable pub identity_hash : ℕ → ℕ
identity_hash v = v

-- The SplitMix64 finaliser, where size_t has 64 bits.
unfoldable pub mixed_hash : ℕ → ℕ
mixed_hash v =
    let a = bit_xor v (v / 2 ^ 30) in
    let b = (a * 0xbf58476d1ce4e5b9) % id_mod in
    let c = bit_xor b (b / 2 ^ 27) in
    let d = (c * 0x94d049bb133111eb) % id_mod in bit_xor d (d / 2 ^ 31)

-- Each of the two steps undoes the other, at the ends of the range too.
pub decrement-increment :
    (v : ℕ) → v < id_mod → (decrement (increment v) ≡ v) × (increment (decrement v) ≡ v)
unfolding increment decrement
decrement-increment v h = omega arith
