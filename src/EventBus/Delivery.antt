-- ===== src/EventBus/Delivery.antt =====
-- Who is called for an event that is published on the bus of src/server/event_bus.h.
use space_shooter_c.Prelude.{
  ℕ, ◌≡◌, refl, sym, subst, inl, inr, List, [], ◌∷◌, ◌++◌, if◌then◌else◌, ◌==◌, find_key, arith,
  append-nil, append_assoc, Option-cases, Bool-cases, some,
}
use space_shooter_c.EventBus.{
  Signals, CallsInOrder, get_id, EventBus, create, holder_at, counter_after, subscribe, publish,
  publish_event, BusMove, subscribes, publishes, publishes_event, step, run,
}
use space_shooter_c.EventBus.Fits.{
  Fits, Apart, get_id-Apart, get_id_lem, get_id-Fits, subscribe-Apart, own-Fits, other-Fits,
}

-- The subscribers of a type in a history, in the order of their subscriptions.
abbrev pub subscribers : ℕ → List BusMove → List ℕ
subscribers t [] = []
subscribers t (subscribes type slot ∷ ms) =
    let rest = subscribers t ms in if type == t then slot ∷ rest else rest
subscribers t (publishes type ∷ ms) = subscribers t ms
subscribers t (publishes_event type ∷ ms) = subscribers t ms

module _ (b : Signals) where
  run-Apart : (ms : List BusMove) (bus : EventBus b) → Apart b bus → Apart b (run b bus ms)
  unfolding run step publish
  run-Apart [] bus a = a
  run-Apart (subscribes type slot ∷ ms) bus a =
      run-Apart ms (subscribe b type slot bus) (subscribe-Apart b type slot bus a)
  run-Apart (publishes type ∷ ms) bus a =
      run-Apart ms (record bus { counter = (get_id type bus.counter).1 })
        (get_id-Apart b type bus a)
  run-Apart (publishes_event type ∷ ms) bus a = run-Apart ms bus a

  run-Fits :
      (orderly : CallsInOrder b) (t : ℕ) (ms : List BusMove) (subs : List ℕ) (bus : EventBus b)
      → Apart b bus
      → Fits b t subs bus
      → Fits b t (subs ++ subscribers t ms) (run b bus ms)
  unfolding run step publish
  run-Fits orderly t [] subs bus a v = rw (append-nil subs) v
  run-Fits orderly t (subscribes type slot ∷ ms) subs bus a v =
      let next = subscribe b type slot bus in
      elim (Bool-cases (type == t)) [
        | inl same ↦
            let e : type ≡ t = ground (arith, same) in
            rw (same, ← append_assoc subs (slot ∷ []) (subscribers t ms))
              (run-Fits orderly t ms (subs ++ slot ∷ []) next (subscribe-Apart b type slot bus a) (
                subst (λ u. Fits b u (subs ++ slot ∷ []) next) e
                  (own-Fits b orderly type slot subs bus a
                    (subst (λ u. Fits b u subs bus) (sym e) v))))
        | inr other ↦ rw other (
            run-Fits orderly t ms subs next (subscribe-Apart b type slot bus a)
              (other-Fits b type slot t subs bus other a v))
      ]
  run-Fits orderly t (publishes type ∷ ms) subs bus a v =
      run-Fits orderly t ms subs (record bus { counter = (get_id type bus.counter).1 })
        (get_id-Apart b type bus a) (get_id-Fits b type t subs bus a v)
  run-Fits orderly t (publishes_event type ∷ ms) subs bus a v = run-Fits orderly t ms subs bus a v

  delivered :
      (t : ℕ) (subs : List ℕ) (bus : EventBus b)
      → Apart b bus
      → Fits b t subs bus
      → ((publish b t bus).0 ≡ subs) × (publish_event b t bus ≡ some subs)
  unfolding publish publish_event
  delivered t subs bus a v =
      let id = (get_id t bus.counter).0 in
      let g = get_id_lem b t t bus.counter in
      elim (Option-cases (find_key t bus.counter.ids)) [
        | inl e ↦ ground (arith, e, g.0, g.3 id, v.unused e, a.vacant id)
        | inr (i, e) ↦
            let same = g.2 i e in
            elim (Option-cases (holder_at b bus.signals i)) [
              | inl x ↦ ground (arith, e, g.0, same, x, v.silent i e x)
              | inr (h, x) ↦ ground (arith, e, g.0, same, x, v.held i h e x)
            ]
      ]

  counter-Apart : (earlier : List ℕ) → Apart b (create b (counter_after earlier))
  unfolding counter_after holder_at
  counter-Apart [] = record {
    distinct = λ t u i e f. absurd (ground (arith, e));
    bounded = λ t i e. absurd (ground (arith, e));
    vacant = λ i h. refl;
  }
  counter-Apart (type ∷ earlier) =
      get_id-Apart b type (create b (counter_after earlier)) (counter-Apart earlier)

  -- Whatever was subscribed and published on a new bus, and whatever types had an id before: an
  -- event calls the subscribers of its type, all of them, in the order of their subscriptions, and
  -- no others; and it makes no difference whether it is published by its type or as a reference to
  -- the base class, which finds every holder that it looks for. boost::signals2 is taken to call
  -- the slots in the order of their connection.
  pub delivery :
      (orderly : CallsInOrder b) (earlier : List ℕ) (moves : List BusMove) (t : ℕ)
      → let bus = run b (create b (counter_after earlier)) moves in
        ((publish b t bus).0 ≡ subscribers t moves)
        × (publish_event b t bus ≡ some (subscribers t moves))
  unfolding holder_at
  delivery orderly earlier moves t =
      let start = create b (counter_after earlier) in
      let a = counter-Apart earlier in
      let empty : Fits b t [] start = record {
        unused = λ e. (refl, refl);
        below = λ i e. a.bounded t i e;
        silent = λ i e h. (refl, refl);
        held = λ i h e x. absurd (ground (arith, x));
      } in
      delivered t (subscribers t moves) (run b start moves) (run-Apart moves start a)
        (run-Fits orderly t moves [] start a empty)
