-- ===== src/Snapshot/Total.antt =====
-- The exceptions of Serialize of src/common/game_snapshot.cpp, and the way back.
use space_shooter_c.Prelude.{ℕ, ◌≤◌, ◌≡◌, List, [], ◌∷◌, ◌++◌, ok, err, arith, length, refl}
use space_shooter_c.Snapshot.{EntitySnapshot, GameSnapshot}
use space_shooter_c.Snapshot.Bytes.{trailing_bytes, write_u32, write_bytes}
use space_shooter_c.Snapshot.Serder.{FlatBuffers, serialize_entity, IsFaithful}
use space_shooter_c.Snapshot.Game.{u32_max, write_entries, write_entities, serialize, deserialize}
use space_shooter_c.Snapshot.RoundTrip.{All, Short, SnapshotFits, deserialize-serialize}

module _ {F : Type 0} (fb : FlatBuffers F) where
  write_entities_ok :
      (w : List ℕ) (es : List (EntitySnapshot F))
      → All (Short fb) es
      → (bytes : List ℕ) × (write_entities fb w es ≡ ok bytes)
  unfolding write_entities
  write_entities_ok w [] h = (w, refl)
  write_entities_ok w (e ∷ es) h =
      let s = serialize_entity fb e in
      let (bytes, done) = write_entities_ok (write_bytes (write_u32 w (length s)) s) es h.1 in
      (bytes, ground (arith, h.0))

  -- A snapshot whose counts and buffers have lengths of 32 bits is serialised, whatever else it
  -- holds.
  serialize_ok :
      (s : GameSnapshot F)
      → length s.snapshots ≤ u32_max
      → length s.leaderboard ≤ u32_max
      → All (Short fb) s.snapshots
      → (bytes : List ℕ) × (serialize fb s ≡ ok bytes)
  unfolding serialize
  serialize_ok s few top h =
      let head = write_u32 (write_u32 [] s.tick_number) (length s.leaderboard) in
      let entries = write_entries head s.leaderboard in
      let (bytes, done) =
        write_entities_ok (write_u32 entries (length s.snapshots)) s.snapshots h in
      (bytes, ground arith)

  -- A snapshot that fits the wire format, with lengths of 32 bits, is serialised; its bytes are
  -- deserialised to the same snapshot, and with any further bytes behind them they are refused.
  pub round_trip :
      (s : GameSnapshot F) (b : ℕ) (more : List ℕ)
      → IsFaithful fb
      → SnapshotFits fb s
      → length s.snapshots ≤ u32_max
      → All (Short fb) s.snapshots
      → (bytes : List ℕ) × (serialize fb s ≡ ok bytes)
        × (deserialize fb bytes ≡ ok s)
        × (deserialize fb (bytes ++ b ∷ more) ≡ err trailing_bytes)
  round_trip s b more law fits few short =
      let (bytes, done) = serialize_ok s few (omega (arith, fits.few_entries)) short in
      let (back, refused) = deserialize-serialize fb s bytes b more law fits done in
      (bytes, done, back, refused)
