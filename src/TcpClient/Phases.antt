-- ===== src/TcpClient/Phases.antt =====
-- The phases of a connection, and the flags of src/client/tcp_client.h.
use space_shooter_c.Prelude.{
  ℕ, ◌≡◌, inl, inr, Bool, true, false, ◌&&◌, Option, none, some, List, [], ◌∷◌, ◌++◌, arith,
  if◌then◌else◌, Result-cases, Option-cases,
}
use space_shooter_c.FrameCodec.{encode}
use space_shooter_c.TcpClient.{
  Call, connect_call, send_call, disconnect_call, Note, asked, offered, left, answered, heard,
  ended, TcpClient, connect, send, disconnect, apply_call,
}

-- What the application knows of the connection: there is none, it is up, or the application asked
-- for its end.
pub data Phase : Type 0 where
  down up leaving : Phase

-- A message comes only while the connection is up, an end only while there is one, and an answer
-- that a connect succeeded only while there is none.
unfoldable pub phase_step : Phase → Note → Option Phase
phase_step down (answered callback true) = some up
phase_step up (answered callback true) = none
phase_step leaving (answered callback true) = none
phase_step p (answered callback false) = some p
phase_step up (heard payload) = some up
phase_step down (heard payload) = none
phase_step leaving (heard payload) = none
phase_step up ended = some down
phase_step leaving ended = some down
phase_step down ended = none
phase_step up left = some leaving
phase_step down left = some down
phase_step leaving left = some leaving
phase_step p (asked callback) = some p
phase_step p (offered payload) = some p

unfoldable pub phase_after : Phase → List Note → Option Phase
unfolding phase_step
phase_after p [] = some p
phase_after p (n ∷ ns) = elim (phase_step p n) [ none ↦ none | some q ↦ phase_after q ns ]

pub phase_after-snoc :
    (p : Phase) (ns : List Note) (n : Note) (q : Phase)
    → phase_after p ns ≡ some q
    → phase_after p (ns ++ n ∷ []) ≡ phase_step q n
unfolding phase_after
phase_after-snoc p [] n q e = ground arith
phase_after-snoc p (m ∷ ns) n q e = elim (Option-cases (phase_step p m)) [
  | inl x ↦ ground arith
  | inr (r, x) ↦ ground (arith, x, e, phase_after-snoc r ns n q)
]

unfoldable pub phase_of : TcpClient → Phase
phase_of c = if c.is_connected then (if c.disconnect_requested then leaving else up) else down

abbrev pub InPhase : Phase → TcpClient → Type 0
InPhase p c = phase_after down c.trace ≡ some p

abbrev is_set : Option ℕ → Bool
is_set none = false
is_set (some callback) = true

-- A client that connects is not connected, and owes an answer.
abbrev pub Flags : TcpClient → Type 0
Flags c =
    (c.is_connected && c.is_connecting ≡ false)
    × (c.is_connecting ≡ true → is_set c.pending_connect_callback ≡ true)

-- The trace and the flags agree.
abbrev pub Agrees : TcpClient → Type 0
Agrees c = InPhase (phase_of c) c × Flags c

pub apply_call-Agrees : (call : Call) (c : TcpClient) → Agrees c → Agrees (apply_call call c)
unfolding apply_call connect send disconnect phase_of phase_step
apply_call-Agrees (connect_call j) c v =
    ground (arith, v, phase_after-snoc down c.trace (asked j) (phase_of c) v.0)
apply_call-Agrees (send_call p) c v = elim (Result-cases (encode p)) [
  | inl (f, fine) ↦
      ground (arith, v, fine, phase_after-snoc down c.trace (offered p) (phase_of c) v.0)
  | inr (x, bad) ↦
      ground (arith, v, bad, phase_after-snoc down c.trace (offered p) (phase_of c) v.0)
]
apply_call-Agrees disconnect_call c v =
    ground (arith, v, phase_after-snoc down c.trace left (phase_of c) v.0)
