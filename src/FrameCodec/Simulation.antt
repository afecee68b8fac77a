-- ===== src/FrameCodec/Simulation.antt =====
-- Two callbacks of src/common/frame_codec.h that do the same, each on its own state.
use space_shooter_c.Prelude.{
  ℕ, zero, suc, ◌+◌, ◌≡◌, refl, Option, none, List, arith, length, take, drop,
}
use space_shooter_c.FrameCodec.{decode, scan, dispatch, consume_on_exit, header_length}
use space_shooter_c.FrameCodec.Bytes.{load_big_u32}

module _ {S T X : Type 0} (callback : S → List ℕ → S × Option X) (other : T → List ℕ → T × Option X)
    (R : S → T → Type 0)
    (alike : (s : S) (t : T) (p : List ℕ)
      → R s t
      → ((callback s p).1 ≡ none) × ((other t p).1 ≡ none) × R (callback s p).0 (other t p).0) where
  scan-alike :
      (fuel : ℕ) (bytes : List ℕ) (offset count : ℕ) (s : S) (t : T)
      → R s t
      → let a = scan callback fuel bytes offset count s in
        let b = scan other fuel bytes offset count t in
        (a.offset ≡ b.offset) × (a.exit ≡ b.exit) × R a.state b.state
  unfolding scan dispatch
  scan-alike zero bytes o c s t r = (refl, refl, r)
  scan-alike (suc fuel) bytes o c s t r =
      let n = load_big_u32 bytes (o + 4) in
      let p = take n (drop (o + header_length) bytes) in
      let (fine, fine', next) = alike s t p r in
      ground (
        arith,
        r,
        fine,
        fine',
        scan-alike fuel bytes (o + 1) c s t r,
        scan-alike fuel bytes (o + (header_length + n)) (c + 1) (callback s p).0 (other t p).0 next,
      )

  -- `decode` leaves the same bytes, with states that are alike.
  pub decode-alike :
      (bytes : List ℕ) (s : S) (t : T)
      → R s t
      → let a = decode callback bytes s in
        let b = decode other bytes t in
        (a.buffer ≡ b.buffer) × (a.exit ≡ b.exit) × R a.state b.state
  unfolding decode consume_on_exit
  decode-alike bytes s t r = ground (arith, r, scan-alike (length bytes + 1) bytes 0 0 s t r)
