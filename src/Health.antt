-- ===== src/Health.antt =====
-- src/server/health_utils.h: health is 16-bit.
use space_shooter_c.Prelude.{ℕ, ◌+◌, ◌-◌, ◌%◌, ◌<◌, ◌≡◌, Bool, arith, ltb, leb, if◌then◌else◌, min}
use space_shooter_c.Entity.{HealthComponent}

unfoldable pub apply_damage : HealthComponent → ℕ → HealthComponent
apply_damage health damage =
    if leb health.current damage
    then record health { current = 0 }
    else record health { current = health.current - damage }

-- The sum is taken in 32 bits and cast back to 16.
unfoldable pub restore_health : HealthComponent → ℕ → HealthComponent
restore_health health amount =
    let new_health = (health.current + amount) % 0x100000000 in
    record health {
      current = (if ltb health.max new_health then health.max else new_health) % 0x10000;
    }

unfoldable pub is_alive : HealthComponent → Bool
is_alive health = ltb 0 health.current

-- With 16-bit values the sum does not wrap: healing adds the amount, up to the maximum.
pub restore_health_lem :
    (health : HealthComponent) (amount : ℕ)
    → health.current < 0x10000
    → health.max < 0x10000
    → amount < 0x10000
    → restore_health health amount
      ≡ record health { current = min health.max (health.current + amount) }
unfolding restore_health
restore_health_lem health amount h k l = ground arith
