-- ===== src/FrameCodec/Bytes.antt =====
-- 32-bit words in network byte order: boost::endian's load_big_u32 and native_to_big as
-- src/common/frame_codec.h uses them.
use space_shooter_c.Prelude.{ℕ, ◌+◌, ◌*◌, ◌/◌, ◌%◌, List, [], ◌∷◌, get_or}

-- The word at bytes[i .. i + 4).
unfoldable pub load_big_u32 : List ℕ → ℕ → ℕ
load_big_u32 bytes i =
    get_or bytes i 0 * 16777216
    + get_or bytes (i + 1) 0 * 65536
    + get_or bytes (i + 2) 0 * 256
    + get_or bytes (i + 3) 0

-- The bytes of a word, most significant first.
unfoldable pub native_to_big : ℕ → List ℕ
native_to_big v = (v / 16777216) % 256 ∷ (v / 65536) % 256 ∷ (v / 256) % 256 ∷ v % 256 ∷ []
