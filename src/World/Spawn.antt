-- ===== src/World/Spawn.antt =====
-- `freePosition`, `maintainAsteroidPopulation` and `spawnShips` of src/server/world_instance.cpp.
use space_shooter_c.Prelude.{
  ℕ, ◌-◌, true, not, ◌||◌, Option, none, some, List, [], ◌∷◌, ◌++◌, if◌then◌else◌, length, take,
  replicate, min, assign,
}
use space_shooter_c.Scalar.{Scalars}
use space_shooter_c.Types.{EntityType}
use space_shooter_c.Entity.{Entity, Vector2D, name_size}
use space_shooter_c.EntityPool.{acquire, modify, is_active}
use space_shooter_c.Math.{vec}
use space_shooter_c.Math.Circles.{Circle, Occupied, largest_empty_circle}
use space_shooter_c.AsteroidFactory.{Randomness, update}
use space_shooter_c.World.{World, PendingJoin}

-- The name in its array of 32 chars, the last of them NUL.
unfoldable pub ship_name : List ℕ → List ℕ
ship_name name =
    let len = min (length name) (name_size - 1) in take len name ++ replicate (name_size - len) 0

module _ (R : Scalars) where
  open R use {F, lit, le}

  -- The circles of the live entities.
  unfoldable pub collect_live_entities : List (Option (Entity F)) → List (Occupied R)
  collect_live_entities [] = []
  collect_live_entities (none ∷ slots) = collect_live_entities slots
  collect_live_entities (some e ∷ slots) =
      let rest = collect_live_entities slots in
      elim e.transform [
        | none ↦ rest
        | some t ↦
            if not (is_active R (some e)) || le e.radius (lit 0 1)
            then rest
            else (t.position, e.radius) ∷ rest
      ]

  unfoldable pub free_position : World F → Circle F
  free_position w =
      largest_empty_circle R (collect_live_entities w.entities.storage) w.world_width w.world_height

  unfoldable pub maintain_asteroid_population :
      {G : Type 0} → Randomness F G → World F → G → World F × G
  maintain_asteroid_population rng w g =
      let (pool, g') = update R rng w.entities (free_position w) g in
      (record w { entities = pool }, g')

  -- What `spawnShips` writes into the entity that it has acquired.
  unfoldable pub as_ship : Vector2D F → List ℕ → Entity F → Entity F
  as_ship center name e = record e {
    type = EntityType.ship;
    mass = lit 7854 100;
    radius = lit 5 1;
    transform =
        some (record { position = center; velocity = vec R (lit 0 1) (lit 0 1); angle = lit 0 1 });
    ship = some (record {
      name = ship_name name;
      score = 0;
      thrust_power = lit 75 10;
      drag = lit 125 1000;
      is_thrusting = true;
      frags = 0;
    });
    health = some (record { current = 100; max = 100 });
    combat = some (record { damage = 10; owner_id = e.id });
  }

  unfoldable pub spawn_ship : World F → PendingJoin → World F
  spawn_ship w join =
      let area = free_position w in
      let (taken, idx) = acquire R w.entities in
      record w {
        entities = modify R taken idx (as_ship area.center join.player_name);
        session_to_ship = assign join.session_id w.entities.next_id w.session_to_ship;
      }

  unfoldable pub spawn_ships : List PendingJoin → World F → World F
  spawn_ships [] w = w
  spawn_ships (join ∷ joins) w = spawn_ships joins (spawn_ship w join)
