-- ===== src/Session/Reading.antt =====
-- What a session of src/server/session.cpp publishes of the bytes that its client sends.
use space_shooter_c.Prelude.{
  ℕ, ◌≡◌, refl, sym, ◌∙◌, ap, true, false, List, [], ◌∷◌, ◌++◌, ok, arith, append_assoc, append-nil,
  foldl, map,
}
use space_shooter_c.FrameCodec.{Decoded, decode}
use space_shooter_c.FrameCodec.Callbacks.{decode-returns}
use space_shooter_c.FrameCodec.Decode.{add_frames, decode-append}
use space_shooter_c.FrameCodec.RoundTrip.{wire, decode-wire}
use space_shooter_c.Events.{Event, network_message}
use space_shooter_c.Session.{
  Session, SessionMove, bytes_arrive, on_frame, publish_frame, do_read, on_read, step, run,
}

abbrev pub joined_chunks : List (List ℕ) → List ℕ
joined_chunks [] = []
joined_chunks (c ∷ cs) = c ++ joined_chunks cs

-- The pieces in which the bytes arrive.
abbrev pub arrivals : List (List ℕ) → List SessionMove
arrivals chunks = map bytes_arrive chunks

module _ {F : Type 0} where
  -- A session that waits for bytes and has read `a` since it had published `events`.
  pub record HasRead (id : ℕ) (a : List ℕ) (events : List (Event F)) (s : Session F) : Type 0 where
    pub same_id : s.id ≡ id
    pub unclosed : s.closed ≡ false
    pub pending : s.reading ≡ true
    pub buffered : s.read_buffer ≡ (decode (on_frame id) a events).buffer
    pub heard : s.published ≡ (decode (on_frame id) a events).state

  on_read-HasRead :
      (id : ℕ) (a b : List ℕ) (events : List (Event F)) (s : Session F)
      → HasRead id a events s
      → HasRead id (a ++ b) events (on_read b s)
  unfolding on_read do_read add_frames
  on_read-HasRead id a b events s v =
      let (n, back) = decode-returns (on_frame id) (λ t p. refl) a events in
      let one_call = decode-append (on_frame id) a b events n back in
      record {
        same_id = ground (arith, v.same_id, v.pending, v.unclosed);
        unclosed = ground (arith, v.pending, v.unclosed);
        pending = ground (arith, v.pending, v.unclosed);
        buffered =
            rw (v.same_id, v.pending, v.unclosed, v.buffered, v.heard, on_read)
              (sym (ap (λ (d : Decoded (List (Event F)) (Unit {0})). d.buffer) one_call));
        heard =
            rw (v.same_id, v.pending, v.unclosed, v.buffered, v.heard, on_read)
              (sym (ap (λ (d : Decoded (List (Event F)) (Unit {0})). d.state) one_call));
      }

  run-HasRead :
      (id : ℕ) (a : List ℕ) (chunks : List (List ℕ)) (events : List (Event F)) (s : Session F)
      → HasRead id a events s
      → HasRead id (a ++ joined_chunks chunks) events (run s (arrivals chunks))
  unfolding run step
  run-HasRead id a [] events s v = rw (append-nil a) v
  run-HasRead id a (c ∷ cs) events s v =
      rw (← append_assoc a c (joined_chunks cs))
        (run-HasRead id (a ++ c) cs events (on_read c s) (on_read-HasRead id a c events s v))

  published_frames :
      (id : ℕ) (ps : List (List ℕ)) (events : List (Event F))
      → foldl (publish_frame id) events ps ≡ events ++ map (network_message id) ps
  published_frames id [] events = sym (append-nil events)
  published_frames id (p ∷ ps) events =
      published_frames id ps (events ++ network_message id p ∷ [])
      ∙ append_assoc events (network_message id p ∷ []) (map (network_message id) ps)

  -- The frames of a list of payloads reach an open session that waits for bytes, with nothing left
  -- over from earlier, in any pieces: it publishes one message for each payload, in order, after
  -- what it had published, keeps no byte, and waits for the next ones.
  pub frames_received :
      (ps chunks : List (List ℕ)) (s : Session F)
      → wire ps ≡ ok (joined_chunks chunks)
      → s.closed ≡ false
      → s.reading ≡ true
      → s.read_buffer ≡ []
      → let after = run s (arrivals chunks) in
        (after.published ≡ s.published ++ map (network_message s.id) ps)
        × (after.read_buffer ≡ [])
        × (after.reading ≡ true)
  unfolding add_frames decode
  frames_received ps chunks s framed o p b =
      let v : HasRead s.id [] s.published s = record {
        same_id = refl;
        unclosed = o;
        pending = p;
        buffered = b;
        heard = refl;
      } in
      let after = run-HasRead s.id [] chunks s.published s v in
      let whole =
        ap (λ bytes. decode (on_frame s.id) bytes s.published)
          (sym (append-nil (joined_chunks chunks)))
        ∙ decode-wire (publish_frame s.id) ps [] s.published (joined_chunks chunks) framed in
      (
        after.heard
            ∙ ap (λ (d : Decoded (List (Event F)) (Unit {0})). d.state) whole
            ∙ published_frames s.id ps s.published,
        after.buffered ∙ ap (λ (d : Decoded (List (Event F)) (Unit {0})). d.buffer) whole,
        after.pending,
      )
