-- ===== src/TcpClient/Callbacks.antt =====
-- What the application can do to the client from a callback: see src/client/tcp_client.h.
use space_shooter_c.Prelude.{
  ◌≡◌, refl, ◌∙◌, inl, inr, Bool, false, none, List, [], ◌∷◌, ◌++◌, arith, Result-cases,
  Option-cases,
}
use space_shooter_c.FrameCodec.{encode}
use space_shooter_c.TcpClient.{
  Call, connect_call, send_call, disconnect_call, Note, answered, Application, TcpClient, note,
  connect, send, disconnect, apply_call, apply_calls,
}
use space_shooter_c.TcpClient.Handlers.{tell, invoke_connect_callback, answer_pending}

-- The part of the client that only its own handlers change.
abbrev pub strand_state : TcpClient → TcpClient
strand_state c = record c { disconnect_requested = false; next_ref = 0; tasks = []; trace = [] }

pub apply_call-strand : (x : Call) (c : TcpClient) → strand_state (apply_call x c) ≡ strand_state c
unfolding apply_call connect send disconnect
apply_call-strand (connect_call j) c = refl
apply_call-strand (send_call p) c = elim (Result-cases (encode p)) [
  | inl (f, fine) ↦ ground (arith, fine)
  | inr (x, bad) ↦ ground (arith, bad)
]
apply_call-strand disconnect_call c = refl

pub apply_calls-strand :
    (xs : List Call) (c : TcpClient) → strand_state (apply_calls xs c) ≡ strand_state c
unfolding apply_calls
apply_calls-strand [] c = refl
apply_calls-strand (x ∷ xs) c = apply_calls-strand xs (apply_call x c) ∙ apply_call-strand x c

-- A property that every call and every note keeps is kept by a callback.
module _ (P : TcpClient → Type 0)
    (called : (x : Call) (c : TcpClient) → P c → P (apply_call x c)) where
  pub apply_calls-preserves : (xs : List Call) (c : TcpClient) → P c → P (apply_calls xs c)
  unfolding apply_calls
  apply_calls-preserves [] c v = v
  apply_calls-preserves (x ∷ xs) c v = apply_calls-preserves xs (apply_call x c) (called x c v)

module _ (app : Application) where
  pub tell-strand : (n : Note) (c : TcpClient) → strand_state (tell app n c) ≡ strand_state c
  unfolding tell
  tell-strand n c = apply_calls-strand (app.reacts (c.trace ++ n ∷ [])) (note n c)

  pub answer-strand :
      (status : Bool) (c : TcpClient)
      → strand_state (answer_pending app status c)
        ≡ strand_state (record c { pending_connect_callback = none })
  unfolding answer_pending invoke_connect_callback
  answer-strand status c =
      let emptied = record c { pending_connect_callback = none } in
      elim (Option-cases c.pending_connect_callback) [
        | inl e ↦ rw e refl
        | inr (j, e) ↦ rw e (tell-strand (answered j status) emptied)
      ]
