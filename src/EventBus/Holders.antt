-- ===== src/EventBus/Holders.antt =====
-- The table of signals of src/server/event_bus.h, by the id of a type.
use space_shooter_c.Prelude.{
  ℕ, zero, suc, ◌+◌, ◌-◌, ◌≤◌, ◌<◌, ◌≡◌, refl, inl, inr, Option, none, some, List, [], ◌∷◌, ◌++◌,
  if◌then◌else◌, ◌==◌, leb, length, replicate, set, find_key, find_key-snoc, arith, Option-cases,
  length-append, length-set, length-replicate,
}
use space_shooter_c.EventBus.{
  Signals, get_id, SignalHolder, EventBus, resize, holder_at, try_emplace, get_or_create_signal,
  attach_at, subscribe,
}

module _ (b : Signals) where
  pub find_key-try_emplace :
      (j k v : ℕ) (m : List (ℕ × ℕ))
      → find_key j (try_emplace b k v m) ≡ elim (find_key j m) as (λ x. Option ℕ) [
        | some w ↦ some w
        | none ↦ if k == j then some v else none
      ]
  unfolding try_emplace
  find_key-try_emplace j k v m = elim (Option-cases (find_key k m)) [
    | inl e ↦ ground (arith, e, find_key-snoc j k v m)
    | inr (w, e) ↦ ground (arith, e)
  ]

  holder_at-append :
      (hs : List (Option (SignalHolder b))) (n i : ℕ)
      → holder_at b (hs ++ replicate n none) i ≡ holder_at b hs i
  unfolding holder_at
  holder_at-append [] zero i = refl
  holder_at-append [] (suc n) zero = refl
  holder_at-append [] (suc n) (suc i) = holder_at-append [] n i
  holder_at-append (h ∷ hs) n zero = refl
  holder_at-append (h ∷ hs) n (suc i) = holder_at-append hs n i

  holder_at-set :
      (hs : List (Option (SignalHolder b))) (i j : ℕ) (x : Option (SignalHolder b))
      → i < length hs
      → holder_at b (set hs i x) j ≡ (if i == j then x else holder_at b hs j)
  unfolding holder_at
  holder_at-set [] i j x h = absurd (ground (arith, h))
  holder_at-set (y ∷ hs) zero zero x h = ground arith
  holder_at-set (y ∷ hs) zero (suc j) x h = ground arith
  holder_at-set (y ∷ hs) (suc i) zero x h = ground arith
  holder_at-set (y ∷ hs) (suc i) (suc j) x h = ground (arith, h, holder_at-set hs i j x)

  holder_at-short :
      (hs : List (Option (SignalHolder b))) (i : ℕ) → length hs ≤ i → holder_at b hs i ≡ none
  unfolding holder_at
  holder_at-short [] i h = refl
  holder_at-short (y ∷ hs) zero h = absurd (ground (arith, h))
  holder_at-short (y ∷ hs) (suc i) h = holder_at-short hs i (ground (arith, h))

  abbrev large_enough : ℕ → List (Option (SignalHolder b)) → List (Option (SignalHolder b))
  large_enough id hs = if leb (length hs) id then resize b (id + 1) hs else hs

  large_enough_lem :
      (id j : ℕ) (hs : List (Option (SignalHolder b)))
      → (id < length (large_enough id hs)) × (holder_at b (large_enough id hs) j ≡ holder_at b hs j)
  unfolding resize
  large_enough_lem id j hs =
      let more = replicate {A = Option (SignalHolder b)} (id + 1 - length hs) none in
      ground (
        arith,
        length-append hs more,
        length-replicate {A = Option (SignalHolder b)} (id + 1 - length hs) none,
        holder_at-append hs (id + 1 - length hs) j,
      )

  -- The holder of a type after one more slot.
  abbrev pub attached : ℕ → ℕ → Option (SignalHolder b) → SignalHolder b
  attached type slot none = record { event_type = type; signal = b.attach b.new_signal slot }
  attached type slot (some h) = record h { signal = b.attach h.signal slot }

  attach_at_lem :
      (id slot j : ℕ) (h : SignalHolder b) (hs : List (Option (SignalHolder b)))
      → id < length hs
      → holder_at b hs id ≡ some h
      → holder_at b (attach_at b id slot hs) j ≡ (
          if id == j then some (record h { signal = b.attach h.signal slot }) else holder_at b hs j)
  unfolding attach_at
  attach_at_lem id slot j h hs l e =
      ground
        (arith, e, holder_at-set hs id j (some (record h { signal = b.attach h.signal slot })) l)

  pub subscribe_holders :
      (type slot j : ℕ) (bus : EventBus b)
      → let id = (get_id type bus.counter).0 in
        holder_at b (subscribe b type slot bus).signals j ≡ (
          if id == j
          then some (attached type slot (holder_at b bus.signals id))
          else holder_at b bus.signals j)
  unfolding subscribe get_or_create_signal
  subscribe_holders type slot j bus =
      let id = (get_id type bus.counter).0 in
      let large = large_enough id bus.signals in
      let created : SignalHolder b = record { event_type = type; signal = b.new_signal } in
      let with_created = set large id (some created) in
      let here = large_enough_lem id id bus.signals in
      let there = large_enough_lem id j bus.signals in
      elim (Option-cases (holder_at b large id)) [
        | inl e ↦ ground (
          arith,
          e,
          here,
          there,
          length-set large id (some created),
          holder_at-set large id j (some created) here.0,
          attach_at_lem id slot j created with_created
              (ground (arith, here, length-set large id (some created)))
              (ground (arith, holder_at-set large id id (some created) here.0)),
        )
        | inr (h, e) ↦ ground (arith, e, here, there, attach_at_lem id slot j h large here.0 e)
      ]
