-- ===== src/FrameCodec/RoundTrip.antt =====
-- `encode` against `decode` of src/common/frame_codec.h.
use space_shooter_c.Prelude.{
  ℕ, suc, ◌+◌, ◌≤◌, ◌<◌, ◌≡◌, refl, sym, ap, ◌∙◌, Option, none, some, List, [], ◌∷◌, ◌++◌, arith,
  append_assoc, length, take, drop, length-append, take-append, drop-append, drop-drop, length-drop,
  foldl, >>=-ok, ok, err, Result, ◌>>=◌,
}
use space_shooter_c.FrameCodec.Bytes.{load_big_u32, native_to_big}
use space_shooter_c.FrameCodec.{
  magic, max_message_size, Frame, LengthError, payload_exceeds_max, buffers, encode, Exit, returned,
  thrown, dispatch, Decoded, consume_on_exit, decode,
}
use space_shooter_c.FrameCodec.Scan.{examine, frame, called}
use space_shooter_c.FrameCodec.Stream.{counted, total, total_frame, total-drop}
use space_shooter_c.FrameCodec.Decode.{add_frames, decode-total, consume-shifted}

-- `encode` throws exactly on the payloads above the limit.
pub encode_limit : (p : List ℕ) → max_message_size < length p → encode p ≡ err payload_exceeds_max
unfolding encode
encode_limit p h = ground arith

pub encode_bytes :
    (p : List ℕ) {f : Frame}
    → encode p ≡ ok f
    → (length p ≤ max_message_size)
      × (buffers f ≡ native_to_big magic ++ (native_to_big (length p) ++ p))
unfolding encode buffers native_to_big
encode_bytes p e = ground arith

examine_encoded :
    (p rest : List ℕ)
    → length p ≤ max_message_size
    → examine (native_to_big magic ++ (native_to_big (length p) ++ (p ++ rest))) 0
      ≡ frame (length p)
unfolding examine native_to_big load_big_u32
examine_encoded p rest h = ground (arith, length-append p rest)

taken :
    (p rest : List ℕ)
    → take (length p) (drop 8 (native_to_big magic ++ (native_to_big (length p) ++ (p ++ rest))))
      ≡ p
unfolding native_to_big
taken p rest = take-append p rest

left :
    (p rest : List ℕ)
    → drop (8 + length p) (native_to_big magic ++ (native_to_big (length p) ++ (p ++ rest))) ≡ rest
unfolding native_to_big
left p rest =
    let bytes = native_to_big magic ++ (native_to_big (length p) ++ (p ++ rest)) in
    sym (drop-drop 8 (length p) bytes) ∙ drop-append p rest

module _ {S X : Type 0} (on_frame : S → List ℕ → S × Option X) where
  -- The scan of a buffer that starts with a frame.
  total-encoded :
      (p rest : List ℕ) (s : S)
      → length p ≤ max_message_size
      → let bytes = native_to_big magic ++ (native_to_big (length p) ++ (p ++ rest)) in
        total on_frame bytes 0 0 s
        ≡ dispatch on_frame (total on_frame bytes (8 + length p) 1) 0 (on_frame s p)
  total-encoded p rest s h =
      let bytes = native_to_big magic ++ (native_to_big (length p) ++ (p ++ rest)) in
      total_frame on_frame bytes 0 0 s (length p) (examine_encoded p rest h)
      ∙ ap
          (λ i.
            dispatch on_frame (total on_frame bytes i 1) 0 (called on_frame bytes 0 (length p) s))
          (omega arith)
      ∙ ap (λ q. dispatch on_frame (total on_frame bytes (8 + length p) 1) 0 (on_frame s q))
          (taken p rest)

  encoded-append :
      (p rest : List ℕ) {f : Frame}
      → encode p ≡ ok f
      → buffers f ++ rest ≡ native_to_big magic ++ (native_to_big (length p) ++ (p ++ rest))
  unfolding native_to_big
  encoded-append p rest e = ap (λ bytes. bytes ++ rest) (encode_bytes p e).1

  -- A frame at the head of the buffer is handed to the callback as the payload it was made from,
  -- and `decode` goes on with what follows it.
  pub decode-encode :
      (p rest : List ℕ) (s t : S) {f : Frame}
      → encode p ≡ ok f
      → on_frame s p ≡ (t, none)
      → decode on_frame (buffers f ++ rest) s ≡ add_frames 1 (decode on_frame rest t)
  unfolding dispatch
  decode-encode p rest s t e h =
      let bytes = native_to_big magic ++ (native_to_big (length p) ++ (p ++ rest)) in
      ap (λ b. decode on_frame b s) (encoded-append p rest e)
      ∙ decode-total on_frame bytes s
      ∙ ap (consume_on_exit bytes) (total-encoded p rest s (encode_bytes p e).0)
      ∙ ap
          (λ r.
            consume_on_exit bytes (dispatch on_frame (total on_frame bytes (8 + length p) 1) 0 r))
          h
      ∙ ap (consume_on_exit bytes) (
          total-drop on_frame (length bytes + 1) (8 + length p) 1 bytes 0 0 (8 + length p) 1 t
            (omega arith) (omega arith) (omega (arith, length-drop (8 + length p) bytes)))
      ∙ consume-shifted on_frame (8 + length p) 1 bytes
          (total on_frame (drop (8 + length p) bytes) 0 0 t)
      ∙ ap (add_frames 1) (sym (decode-total on_frame (drop (8 + length p) bytes) t))
      ∙ ap (λ b. add_frames 1 (decode on_frame b t)) (left p rest)

  -- An exception of the callback leaves `decode` unchanged, and the frame that it was about is
  -- still at the head of the buffer: the next call hands it over again.
  pub decode_throws :
      (p rest : List ℕ) (s t : S) (x : X) {f : Frame}
      → encode p ≡ ok f
      → on_frame s p ≡ (t, some x)
      → decode on_frame (buffers f ++ rest) s
        ≡ record { buffer = buffers f ++ rest; state = t; exit = thrown x }
  unfolding dispatch consume_on_exit
  decode_throws p rest s t x e h =
      let bytes = native_to_big magic ++ (native_to_big (length p) ++ (p ++ rest)) in
      rw (encoded-append p rest e) (
        decode-total on_frame bytes s
        ∙ ap (consume_on_exit bytes) (total-encoded p rest s (encode_bytes p e).0)
        ∙ ap
            (λ r.
              consume_on_exit bytes (dispatch on_frame (total on_frame bytes (8 + length p) 1) 0 r))
            h)

-- The bytes that a sender writes for a list of payloads; it throws at the first that is too long.
unfoldable pub wire : List (List ℕ) → Result LengthError (List ℕ)
wire [] = ok []
wire (p ∷ ps) = encode p >>= λ f. wire ps >>= λ bytes. ok (buffers f ++ bytes)

module _ {S X : Type 0} (handle : S → List ℕ → S) where
  -- A callback that never throws.
  abbrev pub quiet : S → List ℕ → S × Option X
  quiet s p = (handle s p, none)

  add_frames-zero : (d : Decoded S X) → d ≡ add_frames 0 d
  unfolding add_frames
  add_frames-zero d = ap (λ x. record d { exit = x }) (counted-zero d.exit)
    where
      counted-zero : (x : Exit X) → x ≡ counted 0 x
      counted-zero (returned c) = ap returned (omega arith)
      counted-zero (thrown x) = refl

  add_frames-suc : (n : ℕ) (d : Decoded S X) → add_frames 1 (add_frames n d) ≡ add_frames (suc n) d
  unfolding add_frames
  add_frames-suc n d = ap (λ x. record d { exit = x }) (counted-suc d.exit)
    where
      counted-suc : (x : Exit X) → counted 1 (counted n x) ≡ counted (suc n) x
      counted-suc (returned c) = ap returned (omega arith)
      counted-suc (thrown x) = refl

  -- What a sender frames, a receiver gets back: if no payload of the list is too long and the
  -- callback never throws, `decode` of their bytes hands over every payload, in order, counts them,
  -- and goes on with what follows.
  pub decode-wire :
      (ps : List (List ℕ)) (rest : List ℕ) (s : S) (bytes : List ℕ)
      → wire ps ≡ ok bytes
      → decode quiet (bytes ++ rest) s
        ≡ add_frames (length ps) (decode quiet rest (foldl handle s ps))
  unfolding wire
  decode-wire [] rest s bytes e =
      let nil : [] ≡ bytes = cc in rw (← nil) (add_frames-zero (decode quiet rest s))
  decode-wire (p ∷ ps) rest s bytes e =
      let (f, ef, e1) = >>=-ok (encode p) _ e in
      let (tail, et, e2) = >>=-ok (wire ps) _ e1 in
      let split : buffers f ++ tail ≡ bytes = cc in
      ap (λ b. decode quiet (b ++ rest) s) (sym split)
      ∙ ap (λ b. decode quiet b s) (append_assoc (buffers f) tail rest)
      ∙ decode-encode quiet p (tail ++ rest) s (handle s p) ef refl
      ∙ ap (add_frames 1) (decode-wire ps rest (handle s p) tail et)
      ∙ add_frames-suc (length ps) (decode quiet rest (foldl handle s (p ∷ ps)))
