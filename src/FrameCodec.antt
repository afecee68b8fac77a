-- ===== src/FrameCodec.antt =====
-- The framing codec of src/common/frame_codec.h: `[magic : 4][length : 4][payload : length]`, both
-- numbers big-endian. A buffer is the list of its bytes; `offset` is the first byte not yet resolved.
pub mod Bytes
pub mod Scan
pub mod Stream
pub mod Decode
pub mod RoundTrip
pub mod Callbacks
pub mod Simulation
use space_shooter_c.Prelude.{
  ℕ, zero, suc, ◌+◌, ◌-◌, ◌*◌, ◌≤◌, ◌<◌, ◌≡◌, Option, none, some, List, [], ◌∷◌, ◌++◌, Result, ok,
  err, ltb, leb, ◌==◌, if◌then◌else◌, length, take, drop,
}
use Bytes.{load_big_u32, native_to_big}

abbrev pub magic : ℕ
magic = 0xDEADBEEF

abbrev pub header_length : ℕ
header_length = 8

-- 16 MiB.
abbrev pub max_message_size : ℕ
max_message_size = 16 * 1024 * 1024

pub data LengthError : Type 0 where
  payload_exceeds_max : LengthError

-- An outbound frame, and the byte sequence that `buffers` hands to the socket.
pub record Frame : Type 0 where
  pub header : List ℕ
  pub payload : List ℕ

unfoldable pub buffers : Frame → List ℕ
buffers f = f.header ++ f.payload

unfoldable pub encode : List ℕ → Result LengthError Frame
encode payload =
    if ltb max_message_size (length payload)
    then err payload_exceeds_max
    else ok (record {
      header = native_to_big magic ++ native_to_big (length payload);
      payload = payload;
    })

-- What one call of the scanner or of `decode` leaves behind: an exception of the callback ends it.
pub data Exit {ℓ} (X : Type ℓ) : Type ℓ where
  returned : ℕ → Exit X
  thrown : X → Exit X

pub record Scanned (S X : Type 0) : Type 0 where
  pub offset : ℕ
  pub state : S
  pub exit : Exit X

module _ {S X : Type 0} (on_frame : S → List ℕ → S × Option X) where
  -- The loop body's last part: hand the frame over, and go on past it unless the callback threw.
  unfoldable pub dispatch : (S → Scanned S X) → ℕ → S × Option X → Scanned S X
  dispatch next offset (s, none) = next s
  dispatch next offset (s, some x) = record { offset = offset; state = s; exit = thrown x }

  -- `fuel` bounds the rounds of the while loop; `decode` gives one more than the buffer's length.
  unfoldable pub scan : ℕ → List ℕ → ℕ → ℕ → S → Scanned S X
  scan zero bytes offset count s = record { offset = offset; state = s; exit = returned count }
  scan (suc fuel) bytes offset count s =
      let done : Scanned S X = record { offset = offset; state = s; exit = returned count } in
      let skip = scan fuel bytes (offset + 1) count s in
      let length_v = load_big_u32 bytes (offset + 4) in
      let total = header_length + length_v in
      let deliver =
        dispatch (scan fuel bytes (offset + total) (count + 1)) offset
          (on_frame s (take length_v (drop (offset + header_length) bytes))) in
      if leb (offset + header_length) (length bytes)
      then (if load_big_u32 bytes offset == magic
          then (if ltb max_message_size length_v
              then skip
              else (if ltb (length bytes) (offset + total) then done else deliver))
          else skip)
      else done

-- What `decode` leaves in the flat_buffer, with the callback's state and the way out.
pub record Decoded (S X : Type 0) : Type 0 where
  pub buffer : List ℕ
  pub state : S
  pub exit : Exit X

-- The guard that consumes the resolved bytes on every way out of the scanner.
unfoldable pub consume_on_exit : {S X : Type 0} → List ℕ → Scanned S X → Decoded S X
consume_on_exit bytes r = record { buffer = drop r.offset bytes; state = r.state; exit = r.exit }

unfoldable pub decode :
    {S X : Type 0} (on_frame : S → List ℕ → S × Option X) → List ℕ → S → Decoded S X
decode on_frame bytes s =
    if ltb (length bytes) header_length
    then record { buffer = bytes; state = s; exit = returned 0 }
    else consume_on_exit bytes (scan on_frame (length bytes + 1) bytes 0 0 s)
