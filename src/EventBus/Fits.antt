-- ===== src/EventBus/Fits.antt =====
-- The types of events on the bus of src/server/event_bus.h, each with its holder.
use space_shooter_c.Prelude.{
  ℕ, ◌≤◌, ◌<◌, ◌≡◌, inl, inr, false, none, some, List, [], ◌∷◌, ◌++◌, ◌==◌, find_key, find_key-snoc,
  arith, Option-cases,
}
use space_shooter_c.EventBus.{
  Signals, CallsInOrder, EventTypeIdCounter, get_id, SignalHolder, EventBus, holder_at,
  get_or_create_signal, subscribe,
}
use space_shooter_c.EventBus.Holders.{find_key-try_emplace, subscribe_holders}

module _ (b : Signals) where
  -- A type `t` with the subscribers `subs`.
  pub record Fits (t : ℕ) (subs : List ℕ) (bus : EventBus b) : Type 0 where
    pub unused :
        find_key t bus.counter.ids ≡ none → (subs ≡ []) × (find_key t bus.event_type_ids ≡ none)
    pub below : (i : ℕ) → find_key t bus.counter.ids ≡ some i → i < bus.counter.next
    pub silent :
        (i : ℕ)
        → find_key t bus.counter.ids ≡ some i
        → holder_at b bus.signals i ≡ none
        → (subs ≡ []) × (find_key t bus.event_type_ids ≡ none)
    pub held :
        (i : ℕ) (h : SignalHolder b)
        → find_key t bus.counter.ids ≡ some i
        → holder_at b bus.signals i ≡ some h
        → (h.event_type ≡ t) × (b.slots h.signal ≡ subs) × (find_key t bus.event_type_ids ≡ some i)

  -- Two types have two ids, and the ids to come have no holder.
  pub record Apart (bus : EventBus b) : Type 0 where
    pub distinct :
        (t u i : ℕ)
        → find_key t bus.counter.ids ≡ some i
        → find_key u bus.counter.ids ≡ some i
        → t ≡ u
    pub bounded : (t i : ℕ) → find_key t bus.counter.ids ≡ some i → i < bus.counter.next
    pub vacant : (i : ℕ) → bus.counter.next ≤ i → holder_at b bus.signals i ≡ none

  pub get_id-Apart :
      (type : ℕ) (bus : EventBus b)
      → Apart bus
      → Apart (record bus { counter = (get_id type bus.counter).1 })
  unfolding get_id
  get_id-Apart type bus v = elim (Option-cases (find_key type bus.counter.ids)) [
    | inr (i, e) ↦ ground (arith, v, e)
    | inl e ↦ record {
      distinct = λ t u i x y. ground (
        arith,
        e,
        x,
        y,
        v.distinct t u i,
        v.bounded t i,
        v.bounded u i,
        find_key-snoc t type bus.counter.next bus.counter.ids,
        find_key-snoc u type bus.counter.next bus.counter.ids,
      );
      bounded = λ t i x.
          ground
            (arith, e, x, v.bounded t i, find_key-snoc t type bus.counter.next bus.counter.ids);
      vacant = λ i h. ground (arith, e, h, v.vacant i);
    }
  ]

  -- The id that a type has after `get`.
  pub get_id_lem :
      (type t : ℕ) (c : EventTypeIdCounter)
      → let (id, after) = get_id type c in
        (find_key type after.ids ≡ some id)
        × (c.next ≤ after.next)
        × ((i : ℕ) → find_key t c.ids ≡ some i → find_key t after.ids ≡ some i)
        × ((i : ℕ)
            → find_key t c.ids ≡ none
            → find_key t after.ids ≡ some i
            → (type ≡ t) × (i ≡ c.next))
  unfolding get_id
  get_id_lem type t c =
      let here = find_key-snoc type type c.next c.ids in
      let there = find_key-snoc t type c.next c.ids in
      elim (Option-cases (find_key type c.ids)) [
        | inr (i, e) ↦ ground (arith, e)
        | inl e ↦ ground (arith, e, here, there)
      ]

  pub get_id-Fits :
      (type t : ℕ) (subs : List ℕ) (bus : EventBus b)
      → Apart bus
      → Fits t subs bus
      → Fits t subs (record bus { counter = (get_id type bus.counter).1 })
  get_id-Fits type t subs bus a v =
      let g = get_id_lem type t bus.counter in
      elim (Option-cases (find_key t bus.counter.ids)) [
        | inl e ↦ record {
          unused = λ x. ground (arith, e, v.unused);
          below = λ i x. (get_id-Apart type bus a).bounded t i x;
          silent = λ i x y. ground (arith, e, v.unused);
          held = λ i h x y. absurd (ground (arith, e, x, y, g.3 i, a.vacant i));
        }
        | inr (k, e) ↦ record {
          unused = λ x. absurd (ground (arith, e, x, g.2 k));
          below = λ i x. (get_id-Apart type bus a).bounded t i x;
          silent = λ i x y. ground (arith, e, x, y, g.2 k, v.silent k);
          held = λ i h x y. ground (arith, e, x, y, g.2 k, v.held k h);
        }
      ]

  pub subscribe-Apart :
      (type slot : ℕ) (bus : EventBus b) → Apart bus → Apart (subscribe b type slot bus)
  unfolding subscribe get_or_create_signal
  subscribe-Apart type slot bus v =
      let w = get_id-Apart type bus v in
      let g = get_id_lem type type bus.counter in
      record {
        distinct = w.distinct;
        bounded = w.bounded;
        vacant = λ i h. ground (
          arith,
          h,
          g,
          w.bounded type (get_id type bus.counter).0,
          w.vacant i,
          subscribe_holders b type slot i bus,
        );
      }

  -- The holder of a type and its entry in the table of ids, after a subscription to it.
  pub own-Fits :
      (orderly : CallsInOrder b) (type slot : ℕ) (subs : List ℕ) (bus : EventBus b)
      → Apart bus
      → Fits type subs bus
      → Fits type (subs ++ slot ∷ []) (subscribe b type slot bus)
  unfolding subscribe get_or_create_signal
  own-Fits orderly type slot subs bus a v =
      let w = get_id-Fits type type subs bus a v in
      let id = (get_id type bus.counter).0 in
      let g = (get_id_lem type type bus.counter).0 in
      let table = find_key-try_emplace b type type id bus.event_type_ids in
      let holders = subscribe_holders b type slot id bus in
      elim (Option-cases (holder_at b bus.signals id)) [
        | inl e ↦
            let quiet = w.silent id g e in
            record {
              unused = λ x. absurd (ground (arith, g, x));
              below = w.below;
              silent = λ i x y. absurd (ground (arith, g, x, y, holders));
              held = λ i h x y. ground (
                arith,
                e,
                g,
                x,
                y,
                quiet,
                holders,
                table,
                orderly.slots-new,
                orderly.slots-attach b.new_signal slot,
              );
            }
        | inr (k, e) ↦
            let there = w.held id k g e in
            record {
              unused = λ x. absurd (ground (arith, g, x));
              below = w.below;
              silent = λ i x y. absurd (ground (arith, g, x, y, holders));
              held = λ i h x y.
                  ground
                    (arith, e, g, x, y, there, holders, table, orderly.slots-attach k.signal slot);
            }
      ]

  pub other-Fits :
      (type slot t : ℕ) (subs : List ℕ) (bus : EventBus b)
      → (type == t) ≡ false
      → Apart bus
      → Fits t subs bus
      → Fits t subs (subscribe b type slot bus)
  unfolding subscribe get_or_create_signal
  other-Fits type slot t subs bus n a v =
      let w = get_id-Fits type t subs bus a v in
      let sep = get_id-Apart type bus a in
      let id = (get_id type bus.counter).0 in
      let g = (get_id_lem type type bus.counter).0 in
      let table = find_key-try_emplace b t type id bus.event_type_ids in
      record {
        unused = λ x. ground (arith, n, x, w.unused, table);
        below = w.below;
        silent = λ i x y. ground (
          arith,
          n,
          x,
          y,
          g,
          sep.distinct type t i,
          subscribe_holders b type slot i bus,
          w.silent i,
          table,
        );
        held = λ i h x y. ground (
          arith,
          n,
          x,
          y,
          g,
          sep.distinct type t i,
          subscribe_holders b type slot i bus,
          w.held i h,
          table,
        );
      }
