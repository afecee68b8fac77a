-- ===== src/TcpClient/Live.antt =====
-- What src/client/tcp_client.cpp has under way in the present generation of the connection.
use space_shooter_c.Prelude.{
  ℕ, ◌+◌, ◌≤◌, ◌≡◌, refl, inl, inr, Bool, true, false, not, ◌&&◌, ◌||◌, some, List, [], ◌∷◌, ◌++◌,
  arith, if◌then◌else◌, ◌==◌, leb, Result-cases,
}
use space_shooter_c.FrameCodec.{encode}
use space_shooter_c.TcpClient.Operations.{
  setup_in, read_in, write_in, tally, each, tally-snoc, tally-extract, each-snoc, each-extract,
}
use space_shooter_c.TcpClient.{
  Call, connect_call, send_call, disconnect_call, Operation, resolving, connecting, reading,
  writing, Outcome, failed, succeeded, TcpClient, OutFrame, connect, send, disconnect, apply_call,
  do_read, do_write, enqueue_write, pop_front, next_write, on_written,
}
use space_shooter_c.TcpClient.Handlers.{extract}

abbrev pub is_first : OutFrame → List OutFrame → Bool
is_first f [] = false
is_first f (front ∷ rest) = front.ref == f.ref

-- Not of a later generation, and a write of this one is of the first frame of the queue.
abbrev pub in_flight : ℕ → List OutFrame → Operation → Bool
in_flight g queue (resolving h) = leb h g
in_flight g queue (connecting h) = leb h g
in_flight g queue (reading h) = leb h g
in_flight g queue (writing h f) = leb h g && (not (h == g) || is_first f queue)

-- A connect has one step under way; a connection reads, unless its end was asked for, and writes
-- while it says so. `ops` are the operations under way, with the one whose end is being handled.
pub record Live (ops : List Operation) (c : TcpClient) : Type 0 where
  pub dated : each (in_flight c.disconnect_generation c.write_queue) ops ≡ true
  pub setup : tally (setup_in c.disconnect_generation) ops ≡ (if c.is_connecting then 1 else 0)
  pub one_read : tally (read_in c.disconnect_generation) ops ≤ (if c.is_connected then 1 else 0)
  pub keeps_reading :
      c.is_connected ≡ true
      → c.disconnect_requested ≡ false
      → tally (read_in c.disconnect_generation) ops ≡ 1
  pub one_write : tally (write_in c.disconnect_generation) ops ≤ (if c.is_writing then 1 else 0)
  pub keeps_writing :
      c.disconnect_requested ≡ false
      → tally (write_in c.disconnect_generation) ops ≡ (if c.is_writing then 1 else 0)
  pub active :
      c.is_connected || c.is_connecting ≡ true
      → c.active_connect_generation ≡ c.disconnect_generation
  pub apart : c.is_connected && c.is_connecting ≡ false
  pub no_queue : c.is_connected ≡ false → (c.is_writing ≡ false) × (c.write_queue ≡ [])
  pub all_written : c.disconnect_requested ≡ false → c.is_writing ≡ false → c.write_queue ≡ []

pub call-Live :
    (ops : List Operation) (x : Call) (c : TcpClient) → Live ops c → Live ops (apply_call x c)
unfolding apply_call connect send disconnect
call-Live ops (connect_call j) c v = ground (arith, v)
call-Live ops (send_call p) c v = elim (Result-cases (encode p)) [
  | inl (f, fine) ↦ ground (arith, v, fine)
  | inr (x, bad) ↦ ground (arith, v, bad)
]
call-Live ops disconnect_call c v = ground (arith, v)

pub extract-Live :
    (n : ℕ) (op : Operation) (rest : List Operation) (c : TcpClient)
    → extract n c.operations ≡ some (op, rest)
    → Live c.operations c
    → Live (op ∷ rest) c
unfolding tally each
extract-Live n op rest c e v =
    let g = c.disconnect_generation in
    ground (
      arith,
      v,
      tally-extract (setup_in g) n c.operations op rest e,
      tally-extract (read_in g) n c.operations op rest e,
      tally-extract (write_in g) n c.operations op rest e,
      each-extract (in_flight g c.write_queue) n c.operations op rest e,
    )

-- An operation that is not of this generation can be left out.
stale-Live :
    (op : Operation) (c : TcpClient)
    → Live (op ∷ c.operations) c
    → setup_in c.disconnect_generation op ≡ 0
    → read_in c.disconnect_generation op ≡ 0
    → write_in c.disconnect_generation op ≡ 0
    → Live c.operations c
unfolding tally each
stale-Live op c v a b d = ground (arith, v, a, b, d)

-- What `initiate` adds.
pub snoc-counts :
    (g : ℕ) (q : List OutFrame) (ops : List Operation) (op : Operation)
    → (tally (setup_in g) (ops ++ op ∷ []) ≡ tally (setup_in g) ops + setup_in g op)
      × (tally (read_in g) (ops ++ op ∷ []) ≡ tally (read_in g) ops + read_in g op)
      × (tally (write_in g) (ops ++ op ∷ []) ≡ tally (write_in g) ops + write_in g op)
      × (each (in_flight g q) (ops ++ op ∷ []) ≡ each (in_flight g q) ops && in_flight g q op)
snoc-counts g q ops op = (
  tally-snoc (setup_in g) ops op,
  tally-snoc (read_in g) ops op,
  tally-snoc (write_in g) ops op,
  each-snoc (in_flight g q) ops op,
)

-- After the end of a read: the next one starts, unless the client is stopped.
pub do_read-Live :
    (g : ℕ) (c : TcpClient)
    → Live (reading g ∷ c.operations) c
    → c.disconnect_generation ≡ g
    → Live (do_read c).operations (do_read c)
unfolding do_read tally each
do_read-Live g c v e =
    let op = reading c.active_connect_generation in
    ground (arith, v, e, snoc-counts c.disconnect_generation c.write_queue c.operations op)

-- The queue may change where no write of this generation is under way.
free_queue :
    (g : ℕ) (q p : List OutFrame) (a : List Operation)
    → tally (write_in g) a ≡ 0
    → each (in_flight g q) a ≡ true
    → each (in_flight g p) a ≡ true
unfolding tally each
free_queue g q p [] t e = refl
free_queue g q p (resolving h ∷ a) t e = ground (arith, t, e, free_queue g q p a)
free_queue g q p (connecting h ∷ a) t e = ground (arith, t, e, free_queue g q p a)
free_queue g q p (reading h ∷ a) t e = ground (arith, t, e, free_queue g q p a)
free_queue g q p (writing h f ∷ a) t e = ground (arith, t, e, free_queue g q p a)

is_first-snoc :
    (f : OutFrame) (q : List OutFrame) (x : OutFrame)
    → is_first f q ≡ true
    → is_first f (q ++ x ∷ []) ≡ true
is_first-snoc f [] x e = absurd (ground (arith, e))
is_first-snoc f (y ∷ q) x e = e

-- And it may grow.
longer_queue :
    (g : ℕ) (q : List OutFrame) (x : OutFrame) (a : List Operation)
    → each (in_flight g q) a ≡ true
    → each (in_flight g (q ++ x ∷ [])) a ≡ true
unfolding each
longer_queue g q x [] e = refl
longer_queue g q x (resolving h ∷ a) e = ground (arith, e, longer_queue g q x a)
longer_queue g q x (connecting h ∷ a) e = ground (arith, e, longer_queue g q x a)
longer_queue g q x (reading h ∷ a) e = ground (arith, e, longer_queue g q x a)
longer_queue g q x (writing h f ∷ a) e =
    ground (arith, e, longer_queue g q x a, is_first-snoc f q x)

-- The next generation has nothing under way.
pub next_generation :
    (g : ℕ) (q : List OutFrame) (a : List Operation)
    → each (in_flight g q) a ≡ true
    → (tally (setup_in (g + 1)) a ≡ 0)
      × (tally (read_in (g + 1)) a ≡ 0)
      × (tally (write_in (g + 1)) a ≡ 0)
      × (each (in_flight (g + 1) []) a ≡ true)
unfolding tally each
next_generation g q [] e = (refl, refl, refl, refl)
next_generation g q (resolving h ∷ a) e = ground (arith, e, next_generation g q a)
next_generation g q (connecting h ∷ a) e = ground (arith, e, next_generation g q a)
next_generation g q (reading h ∷ a) e = ground (arith, e, next_generation g q a)
next_generation g q (writing h f ∷ a) e = ground (arith, e, next_generation g q a)

-- With no write of the present generation under way.
do_write-Live :
    (c : TcpClient)
    → Live c.operations (record c { is_writing = false; write_queue = [] })
    → c.is_connected ≡ true
    → Live (do_write c).operations (do_write c)
unfolding do_write
do_write-Live c v t = go c.write_queue refl
  where
    go : (q : List OutFrame) → c.write_queue ≡ q → Live (do_write c).operations (do_write c)
    go [] e = ground (arith, v, t, e)
    go (f ∷ q) e =
        let g = c.disconnect_generation in
        let op = writing c.active_connect_generation f in
        ground (
          arith,
          v,
          t,
          e,
          free_queue g [] c.write_queue c.operations,
          snoc-counts g c.write_queue c.operations op,
        )

pub enqueue-Live :
    (f : OutFrame) (c : TcpClient)
    → Live c.operations c
    → Live (enqueue_write f c).operations (enqueue_write f c)
unfolding enqueue_write
enqueue-Live f c v =
    let g = c.disconnect_generation in
    let queued = record c { write_queue = c.write_queue ++ f ∷ [] } in
    ground (
      arith,
      v,
      do_write-Live queued,
      free_queue g c.write_queue [] c.operations,
      longer_queue g c.write_queue f c.operations,
    )

-- The end of a write.
pub on_written-Live :
    (g : ℕ) (f : OutFrame) (o : Outcome) (c : TcpClient)
    → Live (writing g f ∷ c.operations) c
    → Live (on_written g f o c).operations (on_written g f o c)
unfolding on_written next_write pop_front disconnect tally each
on_written-Live g f failed c v = ground (arith, v)
on_written-Live g f (succeeded b) c v = go c.write_queue refl
  where
    go :
        (q : List OutFrame)
        → c.write_queue ≡ q
        → Live (on_written g f (succeeded b) c).operations (on_written g f (succeeded b) c)
    go [] e = ground (arith, v, e)
    go (front ∷ rest) e =
        let h = c.disconnect_generation in
        let popped = record c { write_queue = rest } in
        ground (
          arith,
          v,
          e,
          do_write-Live popped,
          free_queue h c.write_queue [] c.operations,
          free_queue h c.write_queue rest c.operations,
        )
