-- ===== src/Snapshot/Bytes.antt =====
-- ByteWriter and ByteReader of src/common/game_snapshot.cpp. A reader is the span of the bytes from
-- its offset on.
use space_shooter_c.Prelude.{
  ℕ, zero, suc, ◌+◌, ◌*◌, ◌/◌, ◌%◌, ◌^◌, ◌<◌, ◌≡◌, List, [], ◌∷◌, ◌++◌, Result, ok, err, ltb, ◌==◌,
  if◌then◌else◌, length, take, drop, take-append, drop-append, length-append, arith, ◌>>=◌,
}

pub data SnapshotError : Type 0 where
  too_many_entities too_many_leaderboard_entries payload_too_large : SnapshotError
  truncated_input trailing_bytes impossible_leaderboard_count : SnapshotError
  impossible_entity_count invalid_entity_payload : SnapshotError

abbrev pub Read : Type 0 → Type 0
Read A = Result SnapshotError (A × List ℕ)

-- `for (shift = 24; shift >= 0; shift -= 8) push_back(uint8_t(value >> shift))`.
unfoldable pub write_u32 : List ℕ → ℕ → List ℕ
write_u32 bytes value =
    bytes
    ++ (value / 2 ^ 24) % 256 ∷ (value / 2 ^ 16) % 256 ∷ (value / 2 ^ 8) % 256 ∷ value % 256 ∷ []

unfoldable pub write_bytes : List ℕ → List ℕ → List ℕ
write_bytes bytes more = bytes ++ more

unfoldable pub remaining : List ℕ → ℕ
remaining reader = length reader

unfoldable pub require : ℕ → List ℕ → Result SnapshotError (Unit {0})
unfolding remaining
require n reader = if ltb (remaining reader) n then err truncated_input else ok tt

unfoldable pub require_end : List ℕ → Result SnapshotError (Unit {0})
unfolding remaining
require_end reader = if remaining reader == 0 then ok tt else err trailing_bytes

-- One round of the loop: `value = (value << 8) | byte` in 32 bits.
unfoldable pub shift_in : ℕ → ℕ → ℕ
shift_in value byte = (value * 256) % 2 ^ 32 + byte

-- `n` rounds. The bytes are there, since `require` has passed.
unfoldable pub read_loop : ℕ → ℕ → List ℕ → ℕ × List ℕ
read_loop zero value reader = (value, reader)
read_loop (suc n) value [] = (value, [])
read_loop (suc n) value (b ∷ reader) = read_loop n (shift_in value b) reader

unfoldable pub read_u32 : List ℕ → Read ℕ
read_u32 reader = require 4 reader >>= λ _. ok (read_loop 4 0 reader)

unfoldable pub read_bytes : ℕ → List ℕ → Read (List ℕ)
read_bytes n reader = require n reader >>= λ _. ok (take n reader, drop n reader)

-- The four bytes of a 32-bit value, as the writer appends them.
abbrev pub word : ℕ → List ℕ
word value =
    (value / 2 ^ 24) % 256 ∷ (value / 2 ^ 16) % 256 ∷ (value / 2 ^ 8) % 256 ∷ value % 256 ∷ []

pub read_u32-word :
    (value : ℕ) (rest : List ℕ) → value < 2 ^ 32 → read_u32 (word value ++ rest) ≡ ok (value, rest)
unfolding read_u32 require remaining read_loop shift_in
read_u32-word value rest h = ground arith

pub read_bytes-append : (xs rest : List ℕ) → read_bytes (length xs) (xs ++ rest) ≡ ok (xs, rest)
unfolding read_bytes require remaining
read_bytes-append xs rest =
    rw (take-append xs rest, drop-append xs rest) (ground (arith, length-append xs rest))
