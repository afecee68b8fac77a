-- ===== src/TcpClient/Sending.antt =====
-- The queue of src/client/tcp_client.cpp, from `send` to the socket.
use space_shooter_c.Prelude.{
  ℕ, ◌≡◌, refl, ap, subst, inl, inr, true, false, not, ◌||◌, List, [], ◌∷◌, ◌++◌, arith,
  append_assoc, append-nil, Bool-cases,
}
use space_shooter_c.TcpClient.Operations.{write_in, tally, each}
use space_shooter_c.TcpClient.Live.{Live, in_flight}
use space_shooter_c.TcpClient.Picking.{
  Picked, Picked-without, offers, offers-append, posted, posted-append, waiting, flow, InTurn,
  InTurn-same,
}
use space_shooter_c.TcpClient.{
  left, ClientTask, send_task, disconnect_task, Operation, resolving, connecting, reading, writing,
  Outcome, failed, succeeded, TcpClient, OutFrame, disconnect, do_write, enqueue_write, pop_front,
  next_write, on_written,
}

pub drop_waiting :
    (hs ms fs : List OutFrame) (ps : List (List ℕ))
    → Picked (hs ++ ms ++ fs) ps
    → Picked (hs ++ [] ++ fs) ps
drop_waiting hs ms fs ps v =
    rw (append-nil hs) (Picked-without hs ms fs ps (rw (← append_assoc hs ms fs) v))

do_write-flow :
    (c : TcpClient)
    → (flow (do_write c) ≡ flow (record c { is_writing = false })) × ((do_write c).trace ≡ c.trace)
unfolding do_write
do_write-flow c = go c.write_queue refl
  where
    go :
        (q : List OutFrame)
        → c.write_queue ≡ q
        → (flow (do_write c) ≡ flow (record c { is_writing = false }))
          × ((do_write c).trace ≡ c.trace)
    go [] e = ground (arith, e)
    go (f ∷ q) e = ground (arith, e, append_assoc c.handed (f ∷ []) q)

-- Where no frame is in flight, none is under way.
no_front : (g : ℕ) (a : List Operation) → each (in_flight g []) a ≡ true → tally (write_in g) a ≡ 0
unfolding tally each
no_front g [] e = refl
no_front g (resolving h ∷ a) e = ground (arith, e, no_front g a)
no_front g (connecting h ∷ a) e = ground (arith, e, no_front g a)
no_front g (reading h ∷ a) e = ground (arith, e, no_front g a)
no_front g (writing h f ∷ a) e = ground (arith, e, no_front g a)

-- The task of `send` on a client that is not stopped: the frame goes to the end of the queue.
enqueue-flow :
    (f : OutFrame) (ts : List ClientTask) (c : TcpClient)
    → c.tasks ≡ send_task f ∷ ts
    → Live c.operations c
    → not c.is_connected || c.disconnect_requested ≡ false
    → let d = enqueue_write f (record c { tasks = ts }) in (flow d ≡ flow c) × (d.trace ≡ c.trace)
unfolding enqueue_write
enqueue-flow f ts c e l on = go c.write_queue refl
  where
    queued : TcpClient
    queued = record c { tasks = ts; write_queue = c.write_queue ++ f ∷ [] }

    go :
        (q : List OutFrame)
        → c.write_queue ≡ q
        → let d = enqueue_write f (record c { tasks = ts }) in
          (flow d ≡ flow c) × (d.trace ≡ c.trace)
    go [] eq = ground (
      arith,
      e,
      l,
      on,
      eq,
      do_write-flow queued,
      no_front c.disconnect_generation c.operations,
      append_assoc c.handed (f ∷ []) (posted ts),
      append-nil c.handed,
    )
    go (front ∷ rest) eq = ground (
      arith,
      e,
      l,
      on,
      eq,
      append_assoc c.handed (rest ++ f ∷ []) (posted ts),
      append_assoc rest (f ∷ []) (posted ts),
      append_assoc c.handed rest (f ∷ posted ts),
    )

pub enqueue-InTurn :
    (f : OutFrame) (ts : List ClientTask) (c : TcpClient)
    → c.tasks ≡ send_task f ∷ ts
    → Live c.operations c
    → InTurn c
    → InTurn (enqueue_write f (record c { tasks = ts }))
unfolding enqueue_write
enqueue-InTurn f ts c e l v =
    let rest = record c { tasks = ts } in
    let d = enqueue_write f rest in
    let written = c.handed ++ waiting c.is_writing c.write_queue in
    let dropped : InTurn rest =
      Picked-without written (f ∷ []) (posted ts) (offers c.trace)
        (subst (λ us. Picked (written ++ posted us) (offers c.trace)) e v) in
    elim (Bool-cases (not c.is_connected || c.disconnect_requested)) [
      | inl stop ↦ InTurn-same rest d (ground (arith, stop), ground (arith, stop)) dropped
      | inr on ↦
          let (same, quiet) = enqueue-flow f ts c e l on in
          InTurn-same c d (same, ap offers quiet) v
    ]

pub on_written-flow :
    (g : ℕ) (f : OutFrame) (o : Outcome) (c : TcpClient)
    → Live (writing g f ∷ c.operations) c
    → (flow (on_written g f o c) ≡ flow c) × (offers (on_written g f o c).trace ≡ offers c.trace)
unfolding on_written next_write pop_front disconnect tally each
on_written-flow g f failed c l = ground (
  arith,
  posted-append c.tasks (disconnect_task ∷ []),
  offers-append c.trace (left ∷ []),
  append-nil (posted c.tasks),
  append-nil (offers c.trace),
)
on_written-flow g f (succeeded b) c l = go c.write_queue refl
  where
    go :
        (q : List OutFrame)
        → c.write_queue ≡ q
        → let d = on_written g f (succeeded b) c in
          (flow d ≡ flow c) × (offers d.trace ≡ offers c.trace)
    go [] e = ground (arith, l, e)
    go (front ∷ rest) e = ground (arith, l, e, do_write-flow (record c { write_queue = rest }))
