-- ===== src/ThreadSafeQueue.antt =====
-- The queue of src/server/thread_safe_queue.h. The mutex makes every call atomic, so that the calls of
-- several threads are one sequence.
use space_shooter_c.Prelude.{
  ℕ, ◌≡◌, sym, ap, ◌∙◌, Bool, true, false, List, [], ◌∷◌, ◌++◌, append_assoc, append-nil, length,
}

module _ {ℓ} {A : Type ℓ} where
  unfoldable pub push : A → List A → List A
  push value queue = queue ++ value ∷ []

  -- The loop of `drain`: the front goes to the end of the result, and leaves.
  unfoldable pub drain_loop : List A → List A → List A
  drain_loop [] result = result
  drain_loop (front ∷ temp) result = drain_loop temp (result ++ front ∷ [])

  -- What `drain` returns, and the queue that it leaves.
  unfoldable pub drain : List A → List A × List A
  unfolding drain_loop
  drain queue = (drain_loop queue [], [])

  unfoldable pub is_empty : List A → Bool
  is_empty [] = true
  is_empty (x ∷ xs) = false

  unfoldable pub size : List A → ℕ
  size queue = length queue

-- A call of `push` or `emplace`, or of `drain`.
pub data QueueMove {ℓ} (A : Type ℓ) : Type ℓ where
  pushes : A → QueueMove A
  drains : QueueMove A

module _ {ℓ} {A : Type ℓ} where
  -- What the calls of `drain` return, one after the other, and what is left.
  unfoldable pub run : List A → List (QueueMove A) → List A × List A
  unfolding push drain
  run queue [] = ([], queue)
  run queue (pushes value ∷ moves) = run (push value queue) moves
  run queue (drains ∷ moves) =
      let (later, left) = run (drain queue).1 moves in ((drain queue).0 ++ later, left)

  abbrev pub pushed : List (QueueMove A) → List A
  pushed [] = []
  pushed (pushes value ∷ moves) = value ∷ pushed moves
  pushed (drains ∷ moves) = pushed moves

  drain_loop-append : (xs ys : List A) → drain_loop xs ys ≡ ys ++ xs
  unfolding drain_loop
  drain_loop-append [] ys = sym (append-nil ys)
  drain_loop-append (x ∷ xs) ys = drain_loop-append xs (ys ++ x ∷ []) ∙ append_assoc ys (x ∷ []) xs

  -- However the calls of several threads come one after the other: what the calls of drain return
  -- and what is left in the queue are what was there and what was pushed, each once and in order.
  pub nothing_lost :
      (moves : List (QueueMove A)) (queue : List A)
      → (run queue moves).0 ++ (run queue moves).1 ≡ queue ++ pushed moves
  unfolding run push drain
  nothing_lost [] queue = sym (append-nil queue)
  nothing_lost (pushes x ∷ moves) queue =
      nothing_lost moves (queue ++ x ∷ []) ∙ append_assoc queue (x ∷ []) (pushed moves)
  nothing_lost (drains ∷ moves) queue =
      let (later, left) = run [] moves in
      append_assoc (drain_loop queue []) later left
      ∙ ap (λ xs. drain_loop queue [] ++ xs) (nothing_lost moves [])
      ∙ ap (λ xs. xs ++ pushed moves) (drain_loop-append queue [])
