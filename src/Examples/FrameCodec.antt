-- ===== src/Examples/FrameCodec.antt =====
-- The codec at concrete buffers.
use space_shooter_c.Prelude.{ℕ, ◌≡◌, refl, List, [], ◌∷◌, ◌++◌}
use space_shooter_c.FrameCodec.Bytes.{load_big_u32, native_to_big}
use space_shooter_c.FrameCodec.{
  Frame, buffers, encode, returned, thrown, dispatch, scan, consume_on_exit, decode,
}
use space_shooter_c.FrameCodec.Decode.{add_frames, decode-append}
use space_shooter_c.FrameCodec.RoundTrip.{wire, quiet, decode-wire, decode_throws}
use space_shooter_c.Examples.Samples.{keep, log_all, log_or_throw, frame_bytes, first_piece}

-- Junk in front of a frame is skipped, and a lone byte behind it stays.
decode_resyncs :
    decode log_all (9 ∷ 0xDE ∷ frame_bytes ++ 5 ∷ []) []
    ≡ record { buffer = 5 ∷ []; state = (1 ∷ 2 ∷ 3 ∷ []) ∷ []; exit = returned 1 }
unfolding decode scan dispatch consume_on_exit load_big_u32
decode_resyncs = refl

decode-append_example :
    decode log_all (first_piece ++ 3 ∷ 5 ∷ []) []
    ≡ add_frames 0 (
        decode log_all
          ((decode log_all first_piece []).buffer ++ 3 ∷ 5 ∷ [])
          (decode log_all first_piece []).state)
unfolding decode scan dispatch consume_on_exit load_big_u32
decode-append_example = decode-append log_all first_piece (3 ∷ 5 ∷ []) [] 0 refl

abbrev small_frame : Frame
small_frame = record {
  header = 0xDE ∷ 0xAD ∷ 0xBE ∷ 0xEF ∷ 0 ∷ 0 ∷ 0 ∷ 3 ∷ [];
  payload = 1 ∷ 2 ∷ 3 ∷ [];
}

decode-wire_example :
    decode {S = List (List ℕ)} {X = ℕ} (quiet keep) (frame_bytes ++ 5 ∷ []) []
    ≡ add_frames 1 (decode (quiet keep) (5 ∷ []) ((1 ∷ 2 ∷ 3 ∷ []) ∷ []))
unfolding wire encode buffers native_to_big
decode-wire_example = decode-wire keep ((1 ∷ 2 ∷ 3 ∷ []) ∷ []) (5 ∷ []) [] frame_bytes refl

abbrev empty_frame : Frame
empty_frame = record { header = 0xDE ∷ 0xAD ∷ 0xBE ∷ 0xEF ∷ 0 ∷ 0 ∷ 0 ∷ 0 ∷ []; payload = [] }

decode_throws_example :
    decode log_or_throw (buffers empty_frame ++ frame_bytes) []
    ≡ record { buffer = buffers empty_frame ++ frame_bytes; state = []; exit = thrown 7 }
unfolding encode buffers native_to_big
decode_throws_example = decode_throws log_or_throw [] frame_bytes [] [] 7 refl refl
