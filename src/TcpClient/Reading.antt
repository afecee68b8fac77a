-- ===== src/TcpClient/Reading.antt =====
-- What the application of src/client/tcp_client.cpp hears of the bytes that the server sends.
use space_shooter_c.Prelude.{
  ℕ, ◌≡◌, refl, sym, ◌∙◌, ap, inl, inr, Bool, true, false, Option, none, List, [], ◌∷◌, ◌++◌, ok,
  arith, append_assoc, append-nil, foldl, map, Result-cases,
}
use space_shooter_c.FrameCodec.{Decoded, decode, encode, returned}
use space_shooter_c.FrameCodec.Callbacks.{decode-returns}
use space_shooter_c.FrameCodec.Simulation.{decode-alike}
use space_shooter_c.FrameCodec.Decode.{add_frames, decode-append}
use space_shooter_c.FrameCodec.RoundTrip.{wire, decode-wire}
use space_shooter_c.Session.Reading.{joined_chunks}
use space_shooter_c.TcpClient.Callbacks.{tell-strand}
use space_shooter_c.TcpClient.{
  Call, connect_call, send_call, disconnect_call, Note, asked, offered, left, answered, heard,
  ended, Application, reading, succeeded, ClientMove, completes, TcpClient, connect, send, note,
  apply_call, apply_calls, do_read,
}
use space_shooter_c.TcpClient.Handlers.{
  tell, on_frame, after_decode, on_read, complete, complete_nth, step, run,
}

abbrev pub heards : List Note → List (List ℕ)
heards [] = []
heards (asked j ∷ ns) = heards ns
heards (offered p ∷ ns) = heards ns
heards (left ∷ ns) = heards ns
heards (answered j b ∷ ns) = heards ns
heards (heard p ∷ ns) = p ∷ heards ns
heards (ended ∷ ns) = heards ns

heards-append : (a b : List Note) → heards (a ++ b) ≡ heards a ++ heards b
heards-append [] b = refl
heards-append (asked j ∷ a) b = heards-append a b
heards-append (offered p ∷ a) b = heards-append a b
heards-append (left ∷ a) b = heards-append a b
heards-append (answered j x ∷ a) b = heards-append a b
heards-append (heard p ∷ a) b = ap (◌∷◌ p) (heards-append a b)
heards-append (ended ∷ a) b = heards-append a b

-- An application whose callbacks do not throw and do not ask for the end.
abbrev pub stays : List Call → Bool
stays [] = true
stays (connect_call j ∷ xs) = stays xs
stays (send_call p ∷ xs) = stays xs
stays (disconnect_call ∷ xs) = false

pub record IsPatient (app : Application) : Type 0 where
  pub never_throws : (ns : List Note) → app.throws ns ≡ false
  pub never_leaves : (ns : List Note) → stays (app.reacts ns) ≡ true

-- The pieces in which the bytes arrive.
abbrev pub arrivals : List (List ℕ) → List ClientMove
arrivals chunks = map (λ c. completes 0 (succeeded c)) chunks

abbrev add_heard : List (List ℕ) → List ℕ → List (List ℕ)
add_heard hs p = hs ++ p ∷ []

abbrev collect : List (List ℕ) → List ℕ → List (List ℕ) × Option (Unit {0})
collect hs p = (add_heard hs p, none)

collected : (ps hs : List (List ℕ)) → foldl add_heard hs ps ≡ hs ++ ps
collected [] hs = sym (append-nil hs)
collected (p ∷ ps) hs = collected ps (hs ++ p ∷ []) ∙ append_assoc hs (p ∷ []) ps

-- A client that goes on hearing: the flag of `disconnect` is not set, and `hs` was heard.
abbrev Listens : List (List ℕ) → TcpClient → Type 0
Listens hs c = (c.disconnect_requested ≡ false) × (heards c.trace ≡ hs)

calls-Listens :
    (xs : List Call) (hs : List (List ℕ)) (c : TcpClient)
    → stays xs ≡ true
    → Listens hs c
    → Listens hs (apply_calls xs c)
unfolding apply_calls apply_call connect send
calls-Listens [] hs c e v = v
calls-Listens (connect_call j ∷ xs) hs c e v =
    calls-Listens xs hs (apply_call (connect_call j) c) e
      (ground (arith, v, heards-append c.trace (asked j ∷ []), append-nil (heards c.trace)))
calls-Listens (send_call p ∷ xs) hs c e v =
    let more = heards-append c.trace (offered p ∷ []) in
    let none_more = append-nil (heards c.trace) in
    calls-Listens xs hs (apply_call (send_call p) c) e (elim (Result-cases (encode p)) [
      | inl (f, fine) ↦ ground (arith, v, fine, more, none_more)
      | inr (x, bad) ↦ ground (arith, v, bad, more, none_more)
    ])
calls-Listens (disconnect_call ∷ xs) hs c e v = absurd (ground (arith, e))

-- A connected client that waits for bytes and has read `a` since it had heard `hs`.
pub record HasRead (g : ℕ) (a : List ℕ) (hs : List (List ℕ)) (c : TcpClient) : Type 0 where
  pub connected : c.is_connected ≡ true
  pub unasked : c.disconnect_requested ≡ false
  pub active : c.active_connect_generation ≡ g
  pub current : c.disconnect_generation ≡ g
  pub pending : c.operations ≡ reading g ∷ []
  pub buffered : c.read_buffer ≡ (decode collect a hs).buffer
  pub told : heards c.trace ≡ (decode collect a hs).state

module _ (app : Application) (patient : IsPatient app) where
  tell-Listens :
      (p : List ℕ) (hs : List (List ℕ)) (c : TcpClient)
      → Listens hs c
      → Listens (hs ++ p ∷ []) (tell app (heard p) c)
  unfolding tell
  tell-Listens p hs c v =
      calls-Listens (app.reacts (c.trace ++ heard p ∷ [])) (hs ++ p ∷ []) (note (heard p) c)
        (patient.never_leaves (c.trace ++ heard p ∷ []))
        (ground (arith, v, heards-append c.trace (heard p ∷ [])))

  -- The client's callback against one that only collects.
  abbrev Alike : TcpClient → TcpClient × Bool → List (List ℕ) → Type 0
  Alike before (c, stop) hs =
      (stop ≡ false)
      × (c.disconnect_requested ≡ false)
      × (heards c.trace ≡ hs)
      × (c.is_connected ≡ before.is_connected)
      × (c.active_connect_generation ≡ before.active_connect_generation)
      × (c.disconnect_generation ≡ before.disconnect_generation)
      × (c.operations ≡ before.operations)

  frame-Alike :
      (before : TcpClient) (s : TcpClient × Bool) (hs : List (List ℕ)) (p : List ℕ)
      → Alike before s hs
      → ((on_frame app s p).1 ≡ none)
        × ((collect hs p).1 ≡ none)
        × Alike before (on_frame app s p).0 (collect hs p).0
  unfolding on_frame
  frame-Alike before (c, stop) hs p v =
      let same = tell-strand app (heard p) c in
      ground (
        arith,
        v,
        patient.never_throws (c.trace ++ heard p ∷ []),
        tell-Listens p hs c,
        ap (λ (d : TcpClient). d.is_connected) same,
        ap (λ (d : TcpClient). d.active_connect_generation) same,
        ap (λ (d : TcpClient). d.disconnect_generation) same,
        ap (λ (d : TcpClient). d.operations) same,
      )

  read-HasRead :
      (g : ℕ) (a b : List ℕ) (hs : List (List ℕ)) (c : TcpClient)
      → HasRead g a hs c
      → HasRead g (a ++ b) hs (step app c (completes 0 (succeeded b)))
  unfolding step complete_nth complete on_read after_decode do_read add_frames
  read-HasRead g a b hs c v =
      let rest = record c { operations = [] } in
      let (n, back) = decode-returns collect (λ t p. refl) a hs in
      let one_call = decode-append collect a b hs n back in
      let d = decode (on_frame app) (c.read_buffer ++ b) (rest, false) in
      let (m, back') = decode-returns collect (λ t p. refl) (c.read_buffer ++ b) (heards c.trace) in
      let alike =
        decode-alike (on_frame app) collect (Alike rest) (frame-Alike rest) (c.read_buffer ++ b)
          (rest, false) (heards c.trace) (refl, v.unasked, refl, refl, refl, refl, refl) in
      let second = decode collect (c.read_buffer ++ b) (heards c.trace) in
      let whole = decode collect (a ++ b) hs in
      let bytes : second.buffer ≡ whole.buffer =
        rw (v.buffered, v.told)
          (sym (ap (λ (x : Decoded (List (List ℕ)) (Unit {0})). x.buffer) one_call)) in
      let messages : second.state ≡ whole.state =
        rw (v.buffered, v.told)
          (sym (ap (λ (x : Decoded (List (List ℕ)) (Unit {0})). x.state) one_call)) in
      let fine : d.exit ≡ returned m = alike.1 ∙ back' in
      ground (
        arith, v.connected, v.unasked, v.active, v.current, v.pending, alike, fine, bytes, messages,
      )

  run-HasRead :
      (g : ℕ) (a : List ℕ) (chunks : List (List ℕ)) (hs : List (List ℕ)) (c : TcpClient)
      → HasRead g a hs c
      → HasRead g (a ++ joined_chunks chunks) hs (run app c (arrivals chunks))
  unfolding run
  run-HasRead g a [] hs c v = rw (append-nil a) v
  run-HasRead g a (b ∷ bs) hs c v = rw (← append_assoc a b (joined_chunks bs)) (
      run-HasRead g (a ++ b) bs hs (step app c (completes 0 (succeeded b)))
        (read-HasRead g a b hs c v))

  -- If the callbacks neither throw nor call disconnect, the frames of a list of payloads reach the
  -- application in any pieces: a connected client of the present generation that has only its read
  -- under way and nothing left over hands each payload over once, in order, keeps no byte, and waits
  -- for the next ones.
  pub messages_heard :
      (ps chunks : List (List ℕ)) (g : ℕ) (c : TcpClient)
      → wire ps ≡ ok (joined_chunks chunks)
      → HasRead g [] (heards c.trace) c
      → let after = run app c (arrivals chunks) in
        (heards after.trace ≡ heards c.trace ++ ps)
        × (after.read_buffer ≡ [])
        × (after.operations ≡ reading g ∷ [])
        × (after.is_connected ≡ true)
  unfolding add_frames decode
  messages_heard ps chunks g c framed v =
      let after = run-HasRead g [] chunks (heards c.trace) c v in
      let whole =
        ap (λ bytes. decode collect bytes (heards c.trace))
          (sym (append-nil (joined_chunks chunks)))
        ∙ decode-wire add_heard ps [] (heards c.trace) (joined_chunks chunks) framed in
      (
        after.told
            ∙ ap (λ (d : Decoded (List (List ℕ)) (Unit {0})). d.state) whole
            ∙ collected ps (heards c.trace),
        after.buffered ∙ ap (λ (d : Decoded (List (List ℕ)) (Unit {0})). d.buffer) whole,
        after.pending,
        after.connected,
      )
