-- ===== src/TcpClient/Picking.antt =====
-- The frames of src/client/tcp_client.cpp on their way from `send` to the socket.
use space_shooter_c.Prelude.{
  ℕ, ◌≡◌, refl, sym, ap, inl, inr, Bool, true, false, List, [], ◌∷◌, ◌++◌, ok, append_assoc,
  append-nil, ltb, length, Result-cases, Bool-cases, subst,
}
use space_shooter_c.FrameCodec.{encode, max_message_size}
use space_shooter_c.TcpClient.{
  Call, connect_call, send_call, disconnect_call, Note, asked, offered, left, answered, heard,
  ended, ClientTask, connect_task, send_task, disconnect_task, TcpClient, OutFrame, connect, send,
  disconnect, apply_call,
}

-- Some of the payloads, in their order, are in these frames.
pub data Picked : List OutFrame → List (List ℕ) → Type 0 where
  nothing : Picked [] []
  passed :
      {fs : List OutFrame} {ps : List (List ℕ)} (p : List ℕ) → Picked fs ps → Picked fs (p ∷ ps)
  taken :
      {fs : List OutFrame} {ps : List (List ℕ)} (f : OutFrame) (p : List ℕ)
      → encode p ≡ ok f.frame
      → Picked fs ps
      → Picked (f ∷ fs) (p ∷ ps)

Picked-passed :
    {fs : List OutFrame} {ps : List (List ℕ)} (p : List ℕ) → Picked fs ps → Picked fs (ps ++ p ∷ [])
Picked-passed p nothing = passed p nothing
Picked-passed p (passed q v) = passed q (Picked-passed p v)
Picked-passed p (taken f q e v) = taken f q e (Picked-passed p v)

Picked-taken :
    {fs : List OutFrame} {ps : List (List ℕ)} (f : OutFrame) (p : List ℕ)
    → encode p ≡ ok f.frame
    → Picked fs ps
    → Picked (fs ++ f ∷ []) (ps ++ p ∷ [])
Picked-taken f p e nothing = taken f p e nothing
Picked-taken f p e (passed q v) = passed q (Picked-taken f p e v)
Picked-taken f p e (taken h q d v) = taken h q d (Picked-taken f p e v)

Picked-tail :
    {f : OutFrame} {fs : List OutFrame} {ps : List (List ℕ)} → Picked (f ∷ fs) ps → Picked fs ps
Picked-tail (passed p v) = passed p (Picked-tail v)
Picked-tail (taken f p e v) = passed p v

Picked-drop :
    (ms : List OutFrame) {fs : List OutFrame} {ps : List (List ℕ)}
    → Picked (ms ++ fs) ps
    → Picked fs ps
Picked-drop [] v = v
Picked-drop (m ∷ ms) v = Picked-drop ms (Picked-tail v)

-- Frames in the middle may be dropped.
pub Picked-without :
    (hs ms fs : List OutFrame) (ps : List (List ℕ))
    → Picked (hs ++ (ms ++ fs)) ps
    → Picked (hs ++ fs) ps
Picked-without [] ms fs ps v = Picked-drop ms v
Picked-without (h ∷ hs) ms fs [] v = elim v [ ]
Picked-without (h ∷ hs) ms fs (p ∷ ps) (passed q v) = passed p (Picked-without (h ∷ hs) ms fs ps v)
Picked-without (h ∷ hs) ms fs (p ∷ ps) (taken g q e v) = taken h p e (Picked-without hs ms fs ps v)

-- The frames of an initial part.
pub Picked-front :
    (hs fs : List OutFrame) (ps : List (List ℕ)) → Picked (hs ++ fs) ps → Picked hs ps
Picked-front hs fs ps v =
    let end : fs ++ [] ≡ fs = append-nil fs in
    subst (λ xs. Picked xs ps) (append-nil hs)
      (Picked-without hs fs [] ps (subst (λ xs. Picked (hs ++ xs) ps) (sym end) v))

-- The payloads of the calls of `send`, the frames that wait on the strand, and those of the queue
-- that were not handed to the socket.
abbrev pub offers : List Note → List (List ℕ)
offers [] = []
offers (asked j ∷ ns) = offers ns
offers (offered p ∷ ns) = p ∷ offers ns
offers (left ∷ ns) = offers ns
offers (answered j b ∷ ns) = offers ns
offers (heard p ∷ ns) = offers ns
offers (ended ∷ ns) = offers ns

abbrev pub posted : List ClientTask → List OutFrame
posted [] = []
posted (connect_task j ∷ ts) = posted ts
posted (send_task f ∷ ts) = f ∷ posted ts
posted (disconnect_task ∷ ts) = posted ts

abbrev pub waiting : Bool → List OutFrame → List OutFrame
waiting false queue = queue
waiting true [] = []
waiting true (front ∷ rest) = rest

pub offers-append : (a b : List Note) → offers (a ++ b) ≡ offers a ++ offers b
offers-append [] b = refl
offers-append (asked j ∷ a) b = offers-append a b
offers-append (offered p ∷ a) b = ap (◌∷◌ p) (offers-append a b)
offers-append (left ∷ a) b = offers-append a b
offers-append (answered j x ∷ a) b = offers-append a b
offers-append (heard p ∷ a) b = offers-append a b
offers-append (ended ∷ a) b = offers-append a b

pub posted-append : (a b : List ClientTask) → posted (a ++ b) ≡ posted a ++ posted b
posted-append [] b = refl
posted-append (connect_task j ∷ a) b = posted-append a b
posted-append (send_task f ∷ a) b = ap (◌∷◌ f) (posted-append a b)
posted-append (disconnect_task ∷ a) b = posted-append a b

-- What was handed to the socket, what waits in the queue and what waits on the strand, in this order.
abbrev pub flow : TcpClient → List OutFrame
flow c = c.handed ++ waiting c.is_writing c.write_queue ++ posted c.tasks

abbrev pub InTurn : TcpClient → Type 0
InTurn c = Picked (flow c) (offers c.trace)

pub InTurn-same :
    (c d : TcpClient) → (flow d ≡ flow c) × (offers d.trace ≡ offers c.trace) → InTurn c → InTurn d
InTurn-same c d (e, t) v =
    subst (λ xs. Picked xs (offers d.trace)) (sym e) (subst (Picked (flow c)) (sym t) v)

pub note-InTurn :
    (n : Note) (c : TcpClient)
    → offers (n ∷ []) ≡ []
    → InTurn c
    → Picked
        (c.handed ++ waiting c.is_writing c.write_queue ++ posted c.tasks)
        (offers (c.trace ++ n ∷ []))
note-InTurn n c e v = rw (offers-append c.trace (n ∷ []), e, append-nil (offers c.trace)) v

skipped :
    (p : List ℕ) (c : TcpClient)
    → InTurn c
    → Picked
        (c.handed ++ waiting c.is_writing c.write_queue ++ posted c.tasks)
        (offers (c.trace ++ offered p ∷ []))
skipped p c v = rw (offers-append c.trace (offered p ∷ [])) (Picked-passed p v)

pub call-InTurn : (x : Call) (c : TcpClient) → InTurn c → InTurn (apply_call x c)
unfolding apply_call connect send disconnect
call-InTurn (connect_call j) c v =
    rw
      (
        offers-append c.trace (asked j ∷ []),
        posted-append c.tasks (connect_task j ∷ []),
        append-nil (offers c.trace),
        append-nil (posted c.tasks),
      )
      v
call-InTurn (send_call p) c v = elim (Bool-cases (ltb max_message_size (length p))) [
  | inl long ↦ rw (long, send) (skipped p c v)
  | inr fits ↦ elim (Result-cases (encode p)) [
    | inr (x, bad) ↦ rw (fits, bad, send) (skipped p c v)
    | inl (f, fine) ↦
        let out : OutFrame = record { ref = c.next_ref; frame = f } in
        rw
          (
            fits,
            fine,
            send,
            offers-append c.trace (offered p ∷ []),
            posted-append c.tasks (send_task out ∷ []),
            ← append_assoc (c.handed ++ waiting c.is_writing c.write_queue) (posted c.tasks)
                (out ∷ []),
          )
          (Picked-taken out p fine v)
  ]
]
call-InTurn disconnect_call c v =
    rw
      (
        offers-append c.trace (left ∷ []),
        posted-append c.tasks (disconnect_task ∷ []),
        append-nil (offers c.trace),
        append-nil (posted c.tasks),
      )
      v
