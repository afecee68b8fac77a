-- ===== src/TcpClient/Owing.antt =====
-- The answers that src/client/tcp_client.cpp owes.
use space_shooter_c.Prelude.{
  ℕ, suc, ◌+◌, ◌≡◌, inl, inr, false, Option, none, some, List, [], ◌∷◌, ◌++◌, arith, if◌then◌else◌,
  ◌==◌, Result-cases,
}
use space_shooter_c.FrameCodec.{encode}
use space_shooter_c.TcpClient.{
  Call, connect_call, send_call, disconnect_call, Note, asked, offered, left, answered, heard,
  ended, ClientTask, connect_task, send_task, disconnect_task, TcpClient, connect, send, disconnect,
  apply_call,
}

-- How often connect was called with a callback, how often that callback was invoked, and how many
-- tasks have it.
unfoldable pub times_asked : ℕ → List Note → ℕ
times_asked j [] = 0
times_asked j (n ∷ ns) =
    let rest = times_asked j ns in
    elim n [
      | asked k ↦ if k == j then suc rest else rest
      | offered p ↦ rest
      | left ↦ rest
      | answered k b ↦ rest
      | heard p ↦ rest
      | ended ↦ rest
    ]

unfoldable pub times_answered : ℕ → List Note → ℕ
times_answered j [] = 0
times_answered j (n ∷ ns) =
    let rest = times_answered j ns in
    elim n [
      | asked k ↦ rest
      | offered p ↦ rest
      | left ↦ rest
      | answered k b ↦ if k == j then suc rest else rest
      | heard p ↦ rest
      | ended ↦ rest
    ]

unfoldable pub times_posted : ℕ → List ClientTask → ℕ
times_posted j [] = 0
times_posted j (t ∷ ts) =
    let rest = times_posted j ts in
    elim t [
      | connect_task k ↦ if k == j then suc rest else rest
      | send_task f ↦ rest
      | disconnect_task ↦ rest
    ]

abbrev pub times_pending : ℕ → Option ℕ → ℕ
times_pending j none = 0
times_pending j (some k) = if k == j then 1 else 0

pub times_asked-snoc :
    (j : ℕ) (ns : List Note) (n : Note)
    → times_asked j (ns ++ n ∷ []) ≡ times_asked j ns + times_asked j (n ∷ [])
unfolding times_asked
times_asked-snoc j [] n = ground arith
times_asked-snoc j (m ∷ ns) n = ground (arith, times_asked-snoc j ns n)

pub times_answered-snoc :
    (j : ℕ) (ns : List Note) (n : Note)
    → times_answered j (ns ++ n ∷ []) ≡ times_answered j ns + times_answered j (n ∷ [])
unfolding times_answered
times_answered-snoc j [] n = ground arith
times_answered-snoc j (m ∷ ns) n = ground (arith, times_answered-snoc j ns n)

times_posted-snoc :
    (j : ℕ) (ts : List ClientTask) (t : ClientTask)
    → times_posted j (ts ++ t ∷ []) ≡ times_posted j ts + times_posted j (t ∷ [])
unfolding times_posted
times_posted-snoc j [] t = ground arith
times_posted-snoc j (u ∷ ts) t = ground (arith, times_posted-snoc j ts t)

-- Every call with the callback `j` is answered, pending or posted, and `x` of them are in the hands
-- of a handler.
abbrev pub Balance : ℕ → ℕ → TcpClient → Type 0
Balance j x c =
    times_asked j c.trace
    ≡ times_answered j c.trace
      + times_pending j c.pending_connect_callback
      + times_posted j c.tasks
      + x

abbrev pub Owes : ℕ → TcpClient → Type 0
Owes j c = Balance j 0 c × (c.is_connecting ≡ false → c.pending_connect_callback ≡ none)

pub call-Owes : (j : ℕ) (x : Call) (c : TcpClient) → Owes j c → Owes j (apply_call x c)
unfolding apply_call connect send disconnect times_asked times_answered times_posted
call-Owes j (connect_call k) c v = ground (
  arith,
  v,
  times_asked-snoc j c.trace (asked k),
  times_answered-snoc j c.trace (asked k),
  times_posted-snoc j c.tasks (connect_task k),
)
call-Owes j (send_call p) c v =
    let a = times_asked-snoc j c.trace (offered p) in
    let b = times_answered-snoc j c.trace (offered p) in
    elim (Result-cases (encode p)) [
      | inl (f, fine) ↦ ground (
        arith,
        v,
        fine,
        a,
        b,
        times_posted-snoc j c.tasks (send_task (record { ref = c.next_ref; frame = f })),
      )
      | inr (x, bad) ↦ ground (arith, v, bad, a, b)
    ]
call-Owes j disconnect_call c v = ground (
  arith,
  v,
  times_asked-snoc j c.trace left,
  times_answered-snoc j c.trace left,
  times_posted-snoc j c.tasks disconnect_task,
)
