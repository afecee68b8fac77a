-- ===== src/Snapshot/Game.antt =====
-- GameSnapshot::Serialize and GameSnapshot::Deserialize of src/common/game_snapshot.cpp.
use space_shooter_c.Prelude.{
  ℕ, zero, suc, ◌-◌, ◌/◌, ◌||◌, Option, none, some, List, [], ◌∷◌, ◌++◌, Result, ok, err, ltb, ◌==◌,
  if◌then◌else◌, length, take, replicate, min, ◌>>=◌, ◌>>◌,
}
use space_shooter_c.Snapshot.{EntitySnapshot, LeaderboardEntry, GameSnapshot}
use space_shooter_c.Snapshot.Bytes.{
  SnapshotError, too_many_entities, too_many_leaderboard_entries, payload_too_large,
  impossible_leaderboard_count, impossible_entity_count, invalid_entity_payload, Read, write_u32,
  write_bytes, remaining, require_end, read_u32, read_bytes,
}
use space_shooter_c.Snapshot.Serder.{FlatBuffers, serialize_entity, deserialize_entity}

abbrev pub u32_max : ℕ
u32_max = 0xFFFFFFFF

-- world::kMaxLeaderboardSize of src/common/config.h.
abbrev pub max_leaderboard_size : ℕ
max_leaderboard_size = 10

-- The name in its field of 32 bytes: cut, or filled up with zeros.
unfoldable pub name_field : List ℕ → List ℕ
name_field name =
    let copy_len = min (length name) 32 in take copy_len name ++ replicate (32 - copy_len) 0

-- The bytes before the first NUL.
unfoldable pub until_nul : List ℕ → List ℕ
until_nul [] = []
until_nul (b ∷ bs) = if b == 0 then [] else b ∷ until_nul bs

unfoldable pub write_entries : List ℕ → List LeaderboardEntry → List ℕ
write_entries writer [] = writer
write_entries writer (e ∷ es) =
    write_entries (write_u32 (write_bytes writer (name_field e.name)) e.score) es

unfoldable pub read_entries : ℕ → List ℕ → Read (List LeaderboardEntry)
read_entries zero reader = ok ([], reader)
read_entries (suc n) reader = do
  (name_bytes, r1) ← read_bytes 32 reader
  (score, r2) ← read_u32 r1
  (es, r3) ← read_entries n r2
  ok (record { name = until_nul name_bytes; score = score } ∷ es, r3)

-- 36 is the size of a leaderboard entry, 4 that of an entity's length.
unfoldable pub check_leaderboard_count : ℕ → List ℕ → Result SnapshotError (Unit {0})
check_leaderboard_count n reader =
    if ltb max_leaderboard_size n || ltb (remaining reader / 36) n
    then err impossible_leaderboard_count
    else ok tt

unfoldable pub check_entity_count : ℕ → List ℕ → Result SnapshotError (Unit {0})
check_entity_count n reader =
    if ltb (remaining reader / 4) n then err impossible_entity_count else ok tt

module _ {F : Type 0} (fb : FlatBuffers F) where
  unfoldable pub write_entities : List ℕ → List (EntitySnapshot F) → Result SnapshotError (List ℕ)
  write_entities writer [] = ok writer
  write_entities writer (e ∷ es) =
      let bytes = serialize_entity fb e in
      let rest = write_entities (write_bytes (write_u32 writer (length bytes)) bytes) es in
      if ltb u32_max (length bytes) then err payload_too_large else rest

  unfoldable pub serialize : GameSnapshot F → Result SnapshotError (List ℕ)
  serialize s =
      let head = write_u32 (write_u32 [] s.tick_number) (length s.leaderboard) in
      let entries = write_entries head s.leaderboard in
      if ltb u32_max (length s.snapshots)
      then err too_many_entities
      else (if ltb u32_max (length s.leaderboard)
          then err too_many_leaderboard_entries
          else write_entities (write_u32 entries (length s.snapshots)) s.snapshots)

  abbrev pub decoded : Option (EntitySnapshot F) → Result SnapshotError (EntitySnapshot F)
  decoded none = err invalid_entity_payload
  decoded (some e) = ok e

  unfoldable pub read_entities : ℕ → List ℕ → Read (List (EntitySnapshot F))
  read_entities zero reader = ok ([], reader)
  read_entities (suc n) reader = do
    (payload_size, r1) ← read_u32 reader
    (payload, r2) ← read_bytes payload_size r1
    entity ← decoded (deserialize_entity fb payload)
    (es, r3) ← read_entities n r2
    ok (entity ∷ es, r3)

  unfoldable pub deserialize : List ℕ → Result SnapshotError (GameSnapshot F)
  deserialize buffer = do
    (tick_number, r1) ← read_u32 buffer
    (leaderboard_count, r2) ← read_u32 r1
    check_leaderboard_count leaderboard_count r2
    (leaderboard, r3) ← read_entries leaderboard_count r2
    (entity_count, r4) ← read_u32 r3
    check_entity_count entity_count r4
    (snapshots, r5) ← read_entities entity_count r4
    require_end r5
    ok (record { snapshots = snapshots; leaderboard = leaderboard; tick_number = tick_number })
