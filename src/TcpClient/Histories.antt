-- ===== src/TcpClient/Histories.antt =====
-- Histories of the client of src/client/tcp_client.h: what each kind of move keeps.
use space_shooter_c.Prelude.{
  ℕ, suc, ◌+◌, ◌<◌, ◌≡◌, refl, Option, none, some, List, [], ◌∷◌, arith, length,
}
use space_shooter_c.TcpClient.{
  Call, Application, ClientTask, Operation, Outcome, ClientMove, calls, strand_runs, completes,
  TcpClient, apply_call,
}
use space_shooter_c.TcpClient.Handlers.{
  extract, run_task, complete, complete_nth, strand_step, step, run,
}

-- What holds before and after a move: calls, tasks, ends of operations, and moves that find nothing
-- to do.
pub record Kept (app : Application) (P Q : TcpClient → Type 0) : Type 0 where
  pub idle : (c : TcpClient) → P c → Q c
  pub called : (x : Call) (c : TcpClient) → P c → Q (apply_call x c)
  pub task_run :
      (t : ClientTask) (ts : List ClientTask) (c : TcpClient)
      → c.tasks ≡ t ∷ ts
      → P c
      → Q (run_task app t (record c { tasks = ts }))
  pub completed :
      (n : ℕ) (op : Operation) (rest : List Operation) (o : Outcome) (c : TcpClient)
      → extract n c.operations ≡ some (op, rest)
      → P c
      → Q (complete app op o (record c { operations = rest }))

module _ (app : Application) where
  step-kept :
      (P Q : TcpClient → Type 0) (k : Kept app P Q) (c : TcpClient) (move : ClientMove)
      → P c
      → Q (step app c move)
  unfolding step strand_step complete_nth
  step-kept P Q k c (calls x) v = k.called x c v
  step-kept P Q k c strand_runs v = go c.tasks refl
    where
      go : (ts : List ClientTask) → c.tasks ≡ ts → Q (step app c strand_runs)
      go [] e = ground (arith, e, k.idle c v)
      go (t ∷ ts) e = ground (arith, e, k.task_run t ts c e v)
  step-kept P Q k c (completes n o) v = go (extract n c.operations) refl
    where
      go :
          (x : Option (Operation × List Operation))
          → extract n c.operations ≡ x
          → Q (step app c (completes n o))
      go none e = ground (arith, e, k.idle c v)
      go (some (op, rest)) e = ground (arith, e, k.completed n op rest o c e v)

  pub run-kept :
      (P : TcpClient → Type 0) (k : Kept app P P) (moves : List ClientMove) (c : TcpClient)
      → P c
      → P (run app c moves)
  unfolding run
  run-kept P k [] c v = v
  run-kept P k (m ∷ ms) c v = run-kept P k ms (step app c m) (step-kept P P k c m v)

  -- The same for a property of the client and the number of moves, up to a bound of that number.
  pub run-bounded :
      (P : ℕ → TcpClient → Type 0) (bound : ℕ)
      → ((n : ℕ) → suc n < bound → Kept app (P n) (P (suc n)))
      → (moves : List ClientMove) (n : ℕ) (c : TcpClient) → n + length moves < bound
      → P n c
      → P (n + length moves) (run app c moves)
  unfolding run
  run-bounded P bound k [] n c h v = ground (arith, v)
  run-bounded P bound k (m ∷ ms) n c h v = ground (
    arith,
    run-bounded P bound k ms (suc n) (step app c m) (ground arith)
        (step-kept (P n) (P (suc n)) (k n (ground arith)) c m v),
  )
