-- ===== src/TcpClient/Operations.antt =====
-- The operations that src/client/tcp_client.cpp has under way, by the generation of the connection
-- that they belong to.
use space_shooter_c.Prelude.{
  ℕ, zero, suc, ◌+◌, ◌≡◌, inl, inr, Bool, true, ◌&&◌, some, List, [], ◌∷◌, ◌++◌, arith,
  if◌then◌else◌, ◌==◌, Option-cases,
}
use space_shooter_c.TcpClient.{Operation, resolving, connecting, reading, writing}
use space_shooter_c.TcpClient.Handlers.{extract}

-- The steps of a connect, the reads and the writes under way in a generation, one by one.
abbrev pub setup_in : ℕ → Operation → ℕ
setup_in g (resolving h) = if h == g then 1 else 0
setup_in g (connecting h) = if h == g then 1 else 0
setup_in g (reading h) = 0
setup_in g (writing h f) = 0

abbrev pub read_in : ℕ → Operation → ℕ
read_in g (resolving h) = 0
read_in g (connecting h) = 0
read_in g (reading h) = if h == g then 1 else 0
read_in g (writing h f) = 0

abbrev pub write_in : ℕ → Operation → ℕ
write_in g (resolving h) = 0
write_in g (connecting h) = 0
write_in g (reading h) = 0
write_in g (writing h f) = if h == g then 1 else 0

unfoldable pub tally : (Operation → ℕ) → List Operation → ℕ
tally f [] = 0
tally f (op ∷ ops) = f op + tally f ops

unfoldable pub each : (Operation → Bool) → List Operation → Bool
each q [] = true
each q (op ∷ ops) = q op && each q ops

module _ (f : Operation → ℕ) where
  pub tally-snoc : (a : List Operation) (op : Operation) → tally f (a ++ op ∷ []) ≡ tally f a + f op
  unfolding tally
  tally-snoc [] op = ground arith
  tally-snoc (x ∷ a) op = ground (arith, tally-snoc a op)

  -- Taking the n-th operation out.
  pub tally-extract :
      (n : ℕ) (a : List Operation) (op : Operation) (rest : List Operation)
      → extract n a ≡ some (op, rest)
      → tally f a ≡ f op + tally f rest
  unfolding tally
  tally-extract n [] op rest e = absurd (ground (arith, e))
  tally-extract zero (x ∷ a) op rest e = ground (arith, e)
  tally-extract (suc n) (x ∷ a) op rest e = elim (Option-cases (extract n a)) [
    | inl none_there ↦ absurd (ground (arith, e, none_there))
    | inr ((y, ys), there) ↦ ground (arith, e, there, tally-extract n a y ys there)
  ]

module _ (q : Operation → Bool) where
  pub each-snoc : (a : List Operation) (op : Operation) → each q (a ++ op ∷ []) ≡ each q a && q op
  unfolding each
  each-snoc [] op = ground arith
  each-snoc (x ∷ a) op = ground (arith, each-snoc a op)

  pub each-extract :
      (n : ℕ) (a : List Operation) (op : Operation) (rest : List Operation)
      → extract n a ≡ some (op, rest)
      → each q a ≡ q op && each q rest
  unfolding each
  each-extract n [] op rest e = absurd (ground (arith, e))
  each-extract zero (x ∷ a) op rest e = ground (arith, e)
  each-extract (suc n) (x ∷ a) op rest e = elim (Option-cases (extract n a)) [
    | inl none_there ↦ absurd (ground (arith, e, none_there))
    | inr ((y, ys), there) ↦ ground (arith, e, there, each-extract n a y ys there)
  ]
