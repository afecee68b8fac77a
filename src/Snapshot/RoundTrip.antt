-- ===== src/Snapshot/RoundTrip.antt =====
-- Serialize and Deserialize of src/common/game_snapshot.cpp, one after the other.
use space_shooter_c.Prelude.{
  ℕ, zero, suc, ◌-◌, ◌*◌, ◌^◌, ◌<◌, ◌≤◌, ◌≡◌, ◌≢◌, refl, sym, ap, ◌∙◌, inl, inr, List, [], ◌∷◌,
  ◌++◌, ok, err, ltb, length, replicate, min, ◌>>=◌, arith, append_assoc, append-nil, take-length,
  length-append, length-replicate, Bool-cases,
}
use space_shooter_c.Snapshot.{EntitySnapshot, LeaderboardEntry, GameSnapshot}
use space_shooter_c.Snapshot.Bytes.{
  trailing_bytes, write_u32, write_bytes, remaining, require_end, read_bytes, word, read_u32-word,
  read_bytes-append,
}
use space_shooter_c.Snapshot.Serder.{
  FlatBuffers, serialize_entity, to_table, Fits, IsFaithful, deserialize-serialize_entity,
}
use space_shooter_c.Snapshot.Game.{
  u32_max, max_leaderboard_size, name_field, until_nul, write_entries, read_entries, write_entities,
  read_entities, serialize, deserialize, check_leaderboard_count, check_entity_count,
}

abbrev pub All {ℓ κ} : {A : Type ℓ} → (A → Type κ) → List A → Type κ
All P [] = Unit
All P (x ∷ xs) = P x × All P xs

-- A name that the fixed field holds: at most 32 bytes, none of them NUL; and a 32-bit score.
abbrev pub EntryFits : LeaderboardEntry → Type 0
EntryFits e = (length e.name ≤ 32) × All (λ b. b ≢ 0) e.name × (e.score < 2 ^ 32)

name_field-append :
    (name : List ℕ) → length name ≤ 32 → name_field name ≡ name ++ replicate (32 - length name) 0
unfolding name_field
name_field-append name h =
    let e : min (length name) 32 ≡ length name = omega arith in rw (e, take-length name)

length-name_field : (name : List ℕ) → length name ≤ 32 → length (name_field name) ≡ 32
length-name_field name h =
    ap length (name_field-append name h)
    ∙ omega (
      arith,
      length-append name (replicate (32 - length name) 0),
      length-replicate (32 - length name) (zero),
    )

until_nul-zeros : (n : ℕ) → until_nul (replicate n 0) ≡ []
unfolding until_nul
until_nul-zeros zero = refl
until_nul-zeros (suc n) = refl

until_nul-append :
    (name : List ℕ) (n : ℕ) → All (λ b. b ≢ 0) name → until_nul (name ++ replicate n 0) ≡ name
unfolding until_nul
until_nul-append [] n h = until_nul-zeros n
until_nul-append (b ∷ bs) n h = ground (arith, until_nul-append bs n h.1)

read_bytes-name :
    (name rest : List ℕ)
    → length name ≤ 32
    → read_bytes 32 (name_field name ++ rest) ≡ ok (name_field name, rest)
read_bytes-name name rest h =
    ap (λ n. read_bytes n (name_field name ++ rest)) (sym (length-name_field name h))
    ∙ read_bytes-append (name_field name) rest

abbrev entries_bytes : List LeaderboardEntry → List ℕ
entries_bytes [] = []
entries_bytes (e ∷ es) = name_field e.name ++ (word e.score ++ entries_bytes es)

write_entries-append :
    (w : List ℕ) (es : List LeaderboardEntry) → write_entries w es ≡ w ++ entries_bytes es
unfolding write_entries write_u32 write_bytes
write_entries-append w [] = sym (append-nil w)
write_entries-append w (e ∷ es) =
    write_entries-append ((w ++ name_field e.name) ++ word e.score) es ∙ simp append_assoc

read_entries-bytes :
    (es : List LeaderboardEntry) (rest : List ℕ)
    → All EntryFits es
    → read_entries (length es) (entries_bytes es ++ rest) ≡ ok (es, rest)
unfolding read_entries
read_entries-bytes [] rest h = refl
read_entries-bytes (e ∷ es) rest h = rw (
  append_assoc (name_field e.name) (word e.score ++ entries_bytes es) rest,
  read_bytes-name e.name (word e.score ++ entries_bytes es ++ rest) h.0.0,
  read_u32-word e.score (entries_bytes es ++ rest) h.0.2,
  read_entries-bytes es rest h.1,
  name_field-append e.name h.0.0,
  until_nul-append e.name (32 - length e.name) h.0.1,
)

length-entries :
    (es : List LeaderboardEntry) → All EntryFits es → length (entries_bytes es) ≡ length es * 36
length-entries [] h = refl
length-entries (e ∷ es) h = omega (
  arith,
  length-append (name_field e.name) (word e.score ++ entries_bytes es),
  length-name_field e.name h.0.0,
  length-entries es h.1,
)

leaderboard_count_ok :
    (n : ℕ) (reader : List ℕ)
    → n ≤ max_leaderboard_size
    → n * 36 ≤ length reader
    → check_leaderboard_count n reader ≡ ok tt
unfolding check_leaderboard_count remaining
leaderboard_count_ok n reader h k = ground arith

entity_count_ok :
    (n : ℕ) (reader : List ℕ) → n * 4 ≤ length reader → check_entity_count n reader ≡ ok tt
unfolding check_entity_count remaining
entity_count_ok n reader h = ground arith

module _ {F : Type 0} (fb : FlatBuffers F) where
  abbrev entities_bytes : List (EntitySnapshot F) → List ℕ
  entities_bytes [] = []
  entities_bytes (e ∷ es) =
      word (length (serialize_entity fb e)) ++ (serialize_entity fb e ++ entities_bytes es)

  -- The buffer of an entity is short enough for its length to be written in 32 bits.
  abbrev pub Short : EntitySnapshot F → Type 0
  Short e = length (serialize_entity fb e) ≤ u32_max

  write_entities-append :
      (w : List ℕ) (es : List (EntitySnapshot F)) (bytes : List ℕ)
      → write_entities fb w es ≡ ok bytes
      → (bytes ≡ w ++ entities_bytes es) × All Short es
  unfolding write_entities write_u32 write_bytes
  write_entities-append w [] bytes h = (cc (append-nil w), tt)
  write_entities-append w (e ∷ es) bytes h =
      let s = serialize_entity fb e in
      elim (Bool-cases (ltb u32_max (length s))) [
        | inl long ↦ absurd (ground arith)
        | inr short ↦
            let (split, rest) =
              write_entities-append ((w ++ word (length s)) ++ s) es bytes (ground arith) in
            (split ∙ simp append_assoc, (ground arith, rest))
      ]

  abbrev pub EntityFits : EntitySnapshot F → Type 0
  EntityFits e = Fits (to_table fb e)

  read_entities-bytes :
      (es : List (EntitySnapshot F)) (rest : List ℕ)
      → IsFaithful fb
      → All EntityFits es
      → All Short es
      → read_entities fb (length es) (entities_bytes es ++ rest) ≡ ok (es, rest)
  unfolding read_entities
  read_entities-bytes [] rest law h k = refl
  read_entities-bytes (e ∷ es) rest law h k = rw (
    append_assoc (serialize_entity fb e) (entities_bytes es) rest,
    read_u32-word (length (serialize_entity fb e))
        (serialize_entity fb e ++ (entities_bytes es ++ rest)) (omega arith),
    read_bytes-append (serialize_entity fb e) (entities_bytes es ++ rest),
    deserialize-serialize_entity fb e law h.0,
    read_entities-bytes es rest law h.1 k.1,
  )

  length-entities : (es : List (EntitySnapshot F)) → length es * 4 ≤ length (entities_bytes es)
  length-entities [] = omega arith
  length-entities (e ∷ es) =
      omega (arith, length-append (serialize_entity fb e) (entities_bytes es), length-entities es)

  -- A snapshot that the wire format can carry.
  pub record SnapshotFits (s : GameSnapshot F) : Type 0 where
    pub tick_u32 : s.tick_number < 2 ^ 32
    pub few_entries : length s.leaderboard ≤ max_leaderboard_size
    pub entries : All EntryFits s.leaderboard
    pub entities : All EntityFits s.snapshots

  abbrev wire_bytes : GameSnapshot F → List ℕ
  wire_bytes s =
      word s.tick_number
      ++ (word (length s.leaderboard)
          ++ (entries_bytes s.leaderboard
              ++ (word (length s.snapshots) ++ entities_bytes s.snapshots)))

  serialize-wire_bytes :
      (s : GameSnapshot F) (bytes : List ℕ)
      → serialize fb s ≡ ok bytes
      → (bytes ≡ wire_bytes s) × All Short s.snapshots × (length s.snapshots ≤ u32_max)
  unfolding serialize write_u32
  serialize-wire_bytes s bytes h =
      let head = ([] ++ word s.tick_number) ++ word (length s.leaderboard) in
      let few : length s.snapshots ≤ u32_max = ground arith in
      let written : write_entities fb
            (write_entries head s.leaderboard ++ word (length s.snapshots)) s.snapshots
          ≡ ok bytes =
        ground arith in
      let (split, short) = write_entities-append _ s.snapshots bytes written in
      (split ∙ rw (write_entries-append head s.leaderboard) (simp append_assoc), short, few)

  -- The reader, on what was written and any bytes behind it.
  deserialize-wire_bytes :
      (s : GameSnapshot F) (rest : List ℕ)
      → IsFaithful fb
      → SnapshotFits s
      → All Short s.snapshots
      → length s.snapshots ≤ u32_max
      → deserialize fb (wire_bytes s ++ rest) ≡ (require_end rest >>= λ _. ok s)
  unfolding deserialize
  deserialize-wire_bytes s rest law fits short few =
      let lb = s.leaderboard in
      let es = s.snapshots in
      let ents = entities_bytes es ++ rest in
      let after = entries_bytes lb ++ (word (length es) ++ ents) in
      rw (
        append_assoc (entries_bytes lb) (word (length es) ++ entities_bytes es) rest,
        read_u32-word s.tick_number (word (length lb) ++ after) fits.tick_u32,
        read_u32-word (length lb) after (omega (arith, fits.few_entries)),
        leaderboard_count_ok (length lb) after fits.few_entries (
            omega (
              arith,
              length-append (entries_bytes lb) (word (length es) ++ ents),
              length-entries lb fits.entries,
            )),
        read_entries-bytes lb (word (length es) ++ ents) fits.entries,
        read_u32-word (length es) ents (omega arith),
        entity_count_ok (length es) ents
            (omega (arith, length-append (entities_bytes es) rest, length-entities es)),
        read_entities-bytes es rest law fits.entities short,
      )

  -- A snapshot that fits the wire format and was serialised comes back as it was, and a single byte
  -- too many behind it is refused.
  pub deserialize-serialize :
      (s : GameSnapshot F) (bytes : List ℕ) (b : ℕ) (more : List ℕ)
      → IsFaithful fb
      → SnapshotFits s
      → serialize fb s ≡ ok bytes
      → (deserialize fb bytes ≡ ok s) × (deserialize fb (bytes ++ b ∷ more) ≡ err trailing_bytes)
  unfolding require_end remaining
  deserialize-serialize s bytes b more law fits h =
      let (split, short, few) = serialize-wire_bytes s bytes h in
      (
        ap (deserialize fb) (split ∙ sym (append-nil (wire_bytes s)))
            ∙ deserialize-wire_bytes s [] law fits short few,
        ap (λ w. deserialize fb (w ++ b ∷ more)) split
            ∙ deserialize-wire_bytes s (b ∷ more) law fits short few
            ∙ ground arith,
      )
