-- ===== src/TcpClient/Alive.antt =====
-- What the handlers of src/client/tcp_client.cpp leave under way.
use space_shooter_c.Prelude.{
  ℕ, ◌+◌, ◌^◌, ◌%◌, ◌<◌, ◌≡◌, refl, subst, sym, ap, inl, inr, Bool, true, false, none, List, [],
  ◌∷◌, ◌++◌, arith, Option-cases,
}
use space_shooter_c.FrameCodec.{Exit, returned, thrown, decode}
use space_shooter_c.FrameCodec.Callbacks.{decode-preserves}
use space_shooter_c.TcpClient.Callbacks.{apply_calls-preserves, tell-strand, answer-strand}
use space_shooter_c.TcpClient.Operations.{tally, each}
use space_shooter_c.TcpClient.{
  Note, answered, heard, ended, Application, Operation, resolving, connecting, reading, Outcome,
  failed, succeeded, TcpClient, note, disconnect,
}
use space_shooter_c.TcpClient.Handlers.{
  closed, tell, invoke_connect_callback, answer_pending, fail_connect, start_connect, on_resolved,
  on_connected, on_frame, after_decode, on_read, close_connection,
}
use space_shooter_c.TcpClient.Live.{Live, call-Live, snoc-counts, next_generation, do_read-Live}

module _ (app : Application) where
  tell-Live :
      (ops : List Operation) (n : Note) (c : TcpClient) → Live ops c → Live ops (tell app n c)
  unfolding tell
  tell-Live ops n c v =
      apply_calls-preserves (Live ops) (call-Live ops) (app.reacts (c.trace ++ n ∷ [])) (note n c)
        (ground (arith, v))

  answer-Live :
      (ops : List Operation) (status : Bool) (c : TcpClient)
      → Live ops c
      → Live ops (answer_pending app status c)
  unfolding answer_pending invoke_connect_callback
  answer-Live ops status c v =
      let emptied = record c { pending_connect_callback = none } in
      let w : Live ops emptied = ground (arith, v) in
      elim (Option-cases c.pending_connect_callback) [
        | inl e ↦ rw e w
        | inr (j, e) ↦ rw e (tell-Live ops (answered j status) emptied w)
      ]

  -- What a callback does not change.
  pub tell-same :
      (n : Note) (c : TcpClient)
      → let d = tell app n c in
        (d.operations ≡ c.operations)
        × (d.disconnect_generation ≡ c.disconnect_generation)
        × (d.is_connected ≡ c.is_connected)
  tell-same n c =
      let e = tell-strand app n c in
      (
        ap (λ (d : TcpClient). d.operations) e,
        ap (λ (d : TcpClient). d.disconnect_generation) e,
        ap (λ (d : TcpClient). d.is_connected) e,
      )

  pub answer-same :
      (status : Bool) (c : TcpClient)
      → let d = answer_pending app status c in
        (d.operations ≡ c.operations) × (d.disconnect_generation ≡ c.disconnect_generation)
  answer-same status c =
      let e = answer-strand app status c in
      (ap (λ (d : TcpClient). d.operations) e, ap (λ (d : TcpClient). d.disconnect_generation) e)

  abbrev pub Good : TcpClient → Type 0
  Good c = Live c.operations c

  answer-Good : (status : Bool) (c : TcpClient) → Good c → Good (answer_pending app status c)
  answer-Good status c v =
      subst (λ ops. Live ops (answer_pending app status c)) (sym (answer-same status c).0)
        (answer-Live c.operations status c v)

  tell-Good : (n : Note) (c : TcpClient) → Good c → Good (tell app n c)
  tell-Good n c v =
      subst (λ ops. Live ops (tell app n c)) (sym (tell-same n c).0) (tell-Live c.operations n c v)

  pub start_connect-Good : (j : ℕ) (c : TcpClient) → Good c → Good (start_connect app j c)
  unfolding start_connect
  start_connect-Good j c v =
      let g = c.disconnect_generation in
      ground (
        arith,
        v,
        tell-Good (answered j false) c v,
        snoc-counts g c.write_queue c.operations (resolving g),
      )

  pub on_resolved-Good :
      (g : ℕ) (o : Outcome) (c : TcpClient)
      → Live (resolving g ∷ c.operations) c
      → Good (on_resolved app g o c)
  unfolding on_resolved tally each
  on_resolved-Good g failed c v =
      ground (arith, v, answer-Good false (record c { is_connecting = false }))
  on_resolved-Good g (succeeded b) c v = ground (
    arith,
    v,
    answer-Good false (record c { is_connecting = false }),
    snoc-counts c.disconnect_generation c.write_queue c.operations (connecting g),
  )

  pub on_connected-Good :
      (g : ℕ) (o : Outcome) (c : TcpClient)
      → Live (connecting g ∷ c.operations) c
      → Good (on_connected app g o c)
  unfolding on_connected fail_connect tally each
  on_connected-Good g failed c v =
      ground
        (arith, v, answer-Good false (record c { is_connecting = false; is_connected = false }))
  on_connected-Good g (succeeded b) c v =
      let up = record c { is_connecting = false; is_connected = true } in
      let told = answer_pending app true up in
      ground (
        arith,
        v,
        answer-Good false (record c { is_connecting = false; is_connected = false }),
        answer-Live (reading g ∷ c.operations) true up,
        answer-same true up,
        do_read-Live g told,
      )

  abbrev Dispatching : ℕ → TcpClient → TcpClient × Bool → Type 0
  Dispatching g c (d, stop) =
      Live (reading g ∷ c.operations) d
      × (d.operations ≡ c.operations)
      × (d.disconnect_generation ≡ c.disconnect_generation)

  on_frame-Dispatching :
      (g : ℕ) (c : TcpClient) (s : TcpClient × Bool) (p : List ℕ)
      → Dispatching g c s
      → Dispatching g c (on_frame app s p).0
  unfolding on_frame
  on_frame-Dispatching g c (d, stop) p v =
      ground (arith, v, tell-same (heard p) d, tell-Live (reading g ∷ c.operations) (heard p) d)

  after_decode-Good :
      (g : ℕ) (x : Exit (Unit {0})) (c : TcpClient)
      → Live (reading g ∷ c.operations) c
      → c.disconnect_generation ≡ g
      → Good (after_decode app x c)
  unfolding after_decode disconnect tally each
  after_decode-Good g (thrown x) c v e = ground (arith, v, e)
  after_decode-Good g (returned n) c v e = ground (arith, v, e, do_read-Live g c)

  pub on_read-Good :
      (g : ℕ) (o : Outcome) (c : TcpClient)
      → Live (reading g ∷ c.operations) c
      → Good (on_read app g o c)
  unfolding on_read tally each disconnect
  on_read-Good g failed c v = ground (arith, v)
  on_read-Good g (succeeded b) c v =
      let d = decode (on_frame app) (c.read_buffer ++ b) (c, false) in
      let read = record d.state.0 { read_buffer = d.buffer } in
      let kept =
        decode-preserves (on_frame app) (Dispatching g c) (on_frame-Dispatching g c)
          (c.read_buffer ++ b) (c, false) (v, refl, refl) in
      ground (
        arith,
        v,
        after_decode-Good g d.exit read
            (subst (λ ops. Live (reading g ∷ ops) read) (sym kept.1) (ground (arith, kept.0))),
        kept,
      )

  pub close-Good :
      (c : TcpClient)
      → c.disconnect_generation + 1 < 2 ^ 64
      → Good c
      → Good (close_connection app c)
  unfolding close_connection
  close-Good c h v =
      let g = c.disconnect_generation in
      let n = next_generation g c.write_queue c.operations v.dated in
      let unwrapped : (g + 1) % 2 ^ 64 ≡ g + 1 = omega arith in
      let ended_client = record (closed c) { pending_connect_callback = none } in
      let gone : Good (closed c) = rw unwrapped (ground (arith, v, n)) in
      let gone' : Good ended_client = rw unwrapped (ground (arith, v, n)) in
      ground (
        arith,
        v,
        n,
        unwrapped,
        gone,
        gone',
        answer-Good false (closed c) gone,
        tell-Good ended ended_client gone',
      )
