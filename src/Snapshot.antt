-- ===== src/Snapshot.antt =====
-- The data that the server sends each tick: src/common/entity_snapshot.h and game_snapshot.h.
pub mod Bytes
pub mod Serder
pub mod Game
pub mod RoundTrip
pub mod Total
use space_shooter_c.Prelude.{ℕ, Bool, Option, List}
use space_shooter_c.Types.{EntityType}
use space_shooter_c.Entity.{Vector2D}

pub record TransformSnapshot (F : Type 0) : Type 0 where
  pub position : Vector2D F
  pub velocity : Vector2D F
  pub angle : F

-- A name is the list of its bytes.
pub record ShipSnapshot (F : Type 0) : Type 0 where
  pub name : List ℕ
  pub score : ℕ
  pub thrust_power : F
  pub drag : F
  pub is_thrusting : Bool
  pub frags : ℕ

pub record HealthSnapshot : Type 0 where
  pub current : ℕ
  pub max : ℕ

pub record CombatSnapshot : Type 0 where
  pub damage : ℕ
  pub owner_id : ℕ

pub record AsteroidSnapshot : Type 0 where
  pub score_reward : ℕ

pub record EntitySnapshot (F : Type 0) : Type 0 where
  pub id : ℕ
  pub type : EntityType
  pub mass : F
  pub radius : F
  pub is_destroyed : Bool
  pub transform : Option (TransformSnapshot F)
  pub ship : Option (ShipSnapshot F)
  pub health : Option HealthSnapshot
  pub combat : Option CombatSnapshot
  pub asteroid : Option AsteroidSnapshot

pub record LeaderboardEntry : Type 0 where
  pub name : List ℕ
  pub score : ℕ

pub record GameSnapshot (F : Type 0) : Type 0 where
  pub snapshots : List (EntitySnapshot F)
  pub leaderboard : List LeaderboardEntry
  pub tick_number : ℕ
