-- ===== src/FrameCodec/Decode.antt =====
-- What a receiver may rely on: `decode` of src/common/frame_codec.h, called on a growing buffer.
use space_shooter_c.Prelude.{
  ℕ, ◌+◌, ◌≤◌, ◌<◌, ◌≡◌, sym, ap, ◌∙◌, inl, inr, Option, List, ◌++◌, arith, ltb, Bool-cases, ltb→lt,
  length, drop, length-drop, drop-drop, drop-append_le,
}
use space_shooter_c.FrameCodec.{
  max_message_size, Scanned, returned, thrown, Decoded, consume_on_exit, decode, header_length,
}
use space_shooter_c.FrameCodec.Scan.{examine_short, examine-wait}
use space_shooter_c.FrameCodec.Stream.{
  counted, total, resume, shifted, total-wait, total-append, total-drop, IsResolved,
  total-IsResolved,
}

-- The same outcome with `m` more frames counted.
unfoldable pub add_frames : {S X : Type 0} → ℕ → Decoded S X → Decoded S X
add_frames m d = record d { exit = counted m d.exit }

module _ {S X : Type 0} (on_frame : S → List ℕ → S × Option X) where
  pub decode-total :
      (b : List ℕ) (s : S) → decode on_frame b s ≡ consume_on_exit b (total on_frame b 0 0 s)
  unfolding decode consume_on_exit
  decode-total b s = elim (Bool-cases (ltb (length b) header_length)) [
    | inl short ↦
        let h = ltb→lt (length b) header_length short in
        rw short (
          sym (
            ap (consume_on_exit b) (total-wait on_frame b 0 0 s (examine_short b 0 (omega arith)))))
    | inr full ↦ rw full
  ]

  resolved : (b : List ℕ) (s : S) → IsResolved on_frame b (total on_frame b 0 0 s)
  resolved b s = total-IsResolved on_frame (length b + 1) b 0 0 s (omega arith) (omega arith)

  pub consume-shifted :
      (k n : ℕ) (b : List ℕ) (q : Scanned S X)
      → consume_on_exit b (shifted on_frame k n q) ≡ add_frames n (consume_on_exit (drop k b) q)
  unfolding add_frames consume_on_exit
  consume-shifted k n b q =
      ap (λ bytes. record { buffer = bytes; state = q.state; exit = counted n q.exit })
        (sym (drop-drop k q.offset b))

  -- The second scan, as the rest of one scan over all the bytes.
  append_core :
      (a b : List ℕ) (r : Scanned S X) (n : ℕ)
      → r.offset ≤ length a
      → r.exit ≡ returned n
      → consume_on_exit (a ++ b) (resume on_frame (total on_frame (a ++ b)) r)
        ≡ add_frames n (decode on_frame (drop r.offset a ++ b) r.state)
  unfolding add_frames consume_on_exit
  append_core a b r n h e =
      ap
        (λ x.
          consume_on_exit (a ++ b)
            (elim x [ returned c ↦ total on_frame (a ++ b) r.offset c r.state | thrown y ↦ r ]))
        e
      ∙ ap (consume_on_exit (a ++ b)) (
          total-drop on_frame (length (a ++ b) + 1) r.offset n (a ++ b) 0 0 r.offset n r.state
            (omega arith) (omega arith) (omega (arith, length-drop r.offset (a ++ b))))
      ∙ consume-shifted r.offset n (a ++ b) (total on_frame (drop r.offset (a ++ b)) 0 0 r.state)
      ∙ ap (add_frames n) (sym (decode-total (drop r.offset (a ++ b)) r.state))
      ∙ ap (λ bytes. add_frames n (decode on_frame bytes r.state)) (drop-append_le r.offset a b h)

  -- Bytes may arrive in any two pieces: if the first call of `decode` returns, having handed over
  -- `n` frames, a second call on what it left and the next bytes ends as one call on all the bytes
  -- does: the same callback state, the same bytes left, the same way out, `n` frames further.
  pub decode-append :
      (a b : List ℕ) (s : S) (n : ℕ)
      → (decode on_frame a s).exit ≡ returned n
      → decode on_frame (a ++ b) s
        ≡ add_frames n
            (decode on_frame ((decode on_frame a s).buffer ++ b) (decode on_frame a s).state)
  unfolding consume_on_exit
  decode-append a b s n e =
      let r = total on_frame a 0 0 s in
      decode-total (a ++ b) s
      ∙ ap (consume_on_exit (a ++ b)) (total-append on_frame (length a + 1) a b 0 0 s (omega arith))
      ∙ append_core a b r n (resolved a s).within
          (ap (λ (d : Decoded S X). d.exit) (sym (decode-total a s)) ∙ e)
      ∙ ap (λ (d : Decoded S X). add_frames n (decode on_frame (d.buffer ++ b) d.state))
          (sym (decode-total a s))

  -- A call that returns leaves less than one frame of the largest size, so the buffer cannot grow
  -- without bound; and what it leaves is the end of what it was given.
  pub decode_leftover :
      (b : List ℕ) (s : S) (n : ℕ)
      → (decode on_frame b s).exit ≡ returned n
      → (length (decode on_frame b s).buffer < header_length + max_message_size)
        × (k : ℕ) × (k ≤ length b)
        × ((decode on_frame b s).buffer ≡ drop k b)
  unfolding consume_on_exit
  decode_leftover b s n e =
      let d = ap (λ (d : Decoded S X). d.buffer) (decode-total b s) in
      let r = total on_frame b 0 0 s in
      let v = resolved b s in
      let w = v.waits n (ap (λ (d : Decoded S X). d.exit) (sym (decode-total b s)) ∙ e) in
      let q = examine-wait b r.offset w in
      (omega (arith, ap length d, length-drop r.offset b), r.offset, v.within, d)
