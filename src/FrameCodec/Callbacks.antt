-- ===== src/FrameCodec/Callbacks.antt =====
-- What a callback of src/common/frame_codec.h leaves alone, and one that never throws.
use space_shooter_c.Prelude.{
  ℕ, zero, suc, ◌+◌, ◌≡◌, refl, inl, inr, Bool, true, false, Option, none, List, arith,
  Option-cases, length, take, drop,
}
use space_shooter_c.FrameCodec.{
  Exit, returned, thrown, decode, scan, dispatch, consume_on_exit, header_length,
}
use space_shooter_c.FrameCodec.Bytes.{load_big_u32}

module _ {S X : Type 0} (callback : S → List ℕ → S × Option X) where
  module _ (m : S → ℕ) where
    scan-keeps :
        ((s : S) (p : List ℕ) → m (callback s p).0 ≡ m s)
        → (fuel : ℕ) (bytes : List ℕ) (offset count : ℕ) (s : S)
        → m (scan callback fuel bytes offset count s).state ≡ m s
    unfolding scan dispatch
    scan-keeps h zero bytes o c s = refl
    scan-keeps h (suc fuel) bytes o c s =
        let n = load_big_u32 bytes (o + 4) in
        let p = take n (drop (o + header_length) bytes) in
        let t = callback s p in
        elim (Option-cases t.1) [
          | inl fine ↦ ground (
            arith,
            h s p,
            fine,
            scan-keeps h fuel bytes (o + 1) c s,
            scan-keeps h fuel bytes (o + (header_length + n)) (c + 1) t.0,
          )
          | inr (x, threw) ↦ ground (arith, h s p, threw, scan-keeps h fuel bytes (o + 1) c s)
        ]

    -- A measure of the state that no call of the callback changes, `decode` does not change.
    pub decode-keeps :
        ((s : S) (p : List ℕ) → m (callback s p).0 ≡ m s)
        → (bytes : List ℕ) (s : S) → m (decode callback bytes s).state ≡ m s
    unfolding decode consume_on_exit
    decode-keeps h bytes s = ground (arith, scan-keeps h (length bytes + 1) bytes 0 0 s)

  abbrev is_returned : Exit X → Bool
  is_returned (returned n) = true
  is_returned (thrown x) = false

  scan-returned :
      ((s : S) (p : List ℕ) → (callback s p).1 ≡ none)
      → (fuel : ℕ) (bytes : List ℕ) (offset count : ℕ) (s : S)
      → is_returned (scan callback fuel bytes offset count s).exit ≡ true
  unfolding scan dispatch
  scan-returned h zero bytes o c s = refl
  scan-returned h (suc fuel) bytes o c s =
      let n = load_big_u32 bytes (o + 4) in
      let p = take n (drop (o + header_length) bytes) in
      ground (
        arith,
        h s p,
        scan-returned h fuel bytes (o + 1) c s,
        scan-returned h fuel bytes (o + (header_length + n)) (c + 1) (callback s p).0,
      )

  returned_count : (x : Exit X) → is_returned x ≡ true → (n : ℕ) × (x ≡ returned n)
  returned_count (returned n) h = (n, refl)
  returned_count (thrown x) h = absurd (ground arith)

  -- With a callback that never throws, `decode` returns.
  pub decode-returns :
      ((s : S) (p : List ℕ) → (callback s p).1 ≡ none)
      → (bytes : List ℕ) (s : S) → (n : ℕ) × ((decode callback bytes s).exit ≡ returned n)
  unfolding decode consume_on_exit
  decode-returns h bytes s =
      returned_count (decode callback bytes s).exit
        (ground (arith, scan-returned h (length bytes + 1) bytes 0 0 s))

  -- A property of the state that every call of the callback keeps, `decode` keeps.
  module _ (P : S → Type 0) where
    scan-preserves :
        ((s : S) (p : List ℕ) → P s → P (callback s p).0)
        → (fuel : ℕ) (bytes : List ℕ) (offset count : ℕ) (s : S) → P s
        → P (scan callback fuel bytes offset count s).state
    unfolding scan dispatch
    scan-preserves h zero bytes o c s v = v
    scan-preserves h (suc fuel) bytes o c s v =
        let n = load_big_u32 bytes (o + 4) in
        let p = take n (drop (o + header_length) bytes) in
        let t = callback s p in
        elim (Option-cases t.1) [
          | inl fine ↦ ground (
            arith,
            fine,
            scan-preserves h fuel bytes (o + 1) c s v,
            scan-preserves h fuel bytes (o + (header_length + n)) (c + 1) t.0 (h s p v),
          )
          | inr (x, threw) ↦
              ground (arith, h s p v, threw, scan-preserves h fuel bytes (o + 1) c s v)
        ]

    pub decode-preserves :
        ((s : S) (p : List ℕ) → P s → P (callback s p).0)
        → (bytes : List ℕ) (s : S) → P s
        → P (decode callback bytes s).state
    unfolding decode consume_on_exit
    decode-preserves h bytes s v =
        ground (arith, v, scan-preserves h (length bytes + 1) bytes 0 0 s v)
