-- ===== src/EventBus.antt =====
-- The event bus: src/server/event_bus.h. An event type is a number, which stands for its typeid; a
-- subscriber is known by a number too. boost::signals2 is a parameter.
pub mod Holders
pub mod Delivery
pub mod Fits
use space_shooter_c.Prelude.{
  ℕ, zero, suc, ◌+◌, ◌-◌, ◌≡◌, Bool, true, false, ◌||◌, Option, none, some, List, [], ◌∷◌, ◌++◌,
  if◌then◌else◌, ◌==◌, leb, length, replicate, get_elem?, set, find_key,
}

-- What the bus uses of boost::signals2: a new signal, and a connected slot; `slots` are the slots that
-- a call of the signal invokes, in order.
pub record Signals : Type 1 where
  pub Signal : Type 0
  pub new_signal : Signal
  pub attach : Signal → ℕ → Signal
  pub slots : Signal → List ℕ

-- The documented order: a new slot is called after those that were connected before it.
pub record CallsInOrder (b : Signals) : Type 0 where
  pub slots-new : b.slots b.new_signal ≡ []
  pub slots-attach : (s : b.Signal) (slot : ℕ) → b.slots (b.attach s slot) ≡ b.slots s ++ slot ∷ []

-- The ids that types were given so far, by EventTypeIdCounter.
pub record EventTypeIdCounter : Type 0 where
  pub ids : List (ℕ × ℕ)
  pub next : ℕ

-- `get<T>()`: a static local is initialised by the first call.
unfoldable pub get_id : ℕ → EventTypeIdCounter → ℕ × EventTypeIdCounter
get_id type counter = elim (find_key type counter.ids) [
  | some id ↦ (id, counter)
  | none ↦ (
    counter.next,
    record { ids = counter.ids ++ (type, counter.next) ∷ []; next = suc counter.next },
  )
]

-- The process before the bus: `id` starts at 0, and some types have asked for theirs.
unfoldable pub counter_after : List ℕ → EventTypeIdCounter
unfolding get_id
counter_after [] = record { ids = []; next = 0 }
counter_after (type ∷ earlier) = (get_id type (counter_after earlier)).1

-- The calls on the bus; each holds the mutex.
pub data BusMove : Type 0 where
  subscribes : ℕ → ℕ → BusMove
  publishes publishes_event : ℕ → BusMove

module _ (b : Signals) where
  pub record SignalHolder : Type 0 where
    pub event_type : ℕ
    pub signal : b.Signal

  pub record EventBus : Type 0 where
    pub counter : EventTypeIdCounter
    pub event_type_ids : List (ℕ × ℕ)
    pub signals : List (Option SignalHolder)

  -- `create()`, in a process that may have used the counter.
  abbrev pub create : EventTypeIdCounter → EventBus
  create counter = record { counter = counter; event_type_ids = []; signals = [] }

  -- `signals_.resize(size)`, to a larger size.
  unfoldable pub resize : ℕ → List (Option SignalHolder) → List (Option SignalHolder)
  resize size holders = holders ++ replicate (size - length holders) none

  unfoldable pub holder_at : List (Option SignalHolder) → ℕ → Option SignalHolder
  holder_at holders id = elim (get_elem? holders id) [ none ↦ none | some holder ↦ holder ]

  -- `event_type_ids_.try_emplace`: a key that is there stays as it is.
  unfoldable pub try_emplace : ℕ → ℕ → List (ℕ × ℕ) → List (ℕ × ℕ)
  try_emplace type id table = elim (find_key type table) [
    | some there ↦ table
    | none ↦ table ++ (type, id) ∷ []
  ]

  -- `getOrCreateSignal<T>()`: the index of the holder, and the bus that has it.
  unfoldable pub get_or_create_signal : ℕ → EventBus → ℕ × EventBus
  unfolding get_id resize holder_at try_emplace
  get_or_create_signal type bus =
      let (id, counter) = get_id type bus.counter in
      let large_enough =
        if leb (length bus.signals) id then resize (id + 1) bus.signals else bus.signals in
      let created : SignalHolder = record { event_type = type; signal = b.new_signal } in
      let holders : List (Option SignalHolder) = elim (holder_at large_enough id) [
        | some holder ↦ large_enough
        | none ↦ set large_enough id (some created)
      ] in
      (
        id,
        record {
          counter = counter;
          event_type_ids = try_emplace type id bus.event_type_ids;
          signals = holders;
        },
      )

  unfoldable pub attach_at : ℕ → ℕ → List (Option SignalHolder) → List (Option SignalHolder)
  unfolding holder_at
  attach_at id slot holders = elim (holder_at holders id) [
    | none ↦ holders
    | some holder ↦ set holders id (some (record holder { signal = b.attach holder.signal slot }))
  ]

  unfoldable pub subscribe : ℕ → ℕ → EventBus → EventBus
  unfolding get_or_create_signal attach_at
  subscribe type slot bus =
      let (id, found) = get_or_create_signal type bus in
      record found { signals = attach_at id slot found.signals }

  -- `publish<T>(event)`: the slots that it invokes. The cast to the holder of T is unchecked.
  unfoldable pub publish : ℕ → EventBus → List ℕ × EventBus
  unfolding get_id holder_at
  publish type bus =
      let (id, counter) = get_id type bus.counter in
      let counted : EventBus = record bus { counter = counter } in
      let invoked : List ℕ = elim (holder_at bus.signals id) [
        | none ↦ []
        | some holder ↦ b.slots holder.signal
      ] in
      (invoked, counted)

  -- `dispatch(event)`, with its dynamic_cast.
  abbrev pub dispatch : ℕ → SignalHolder → List ℕ
  dispatch type holder = if holder.event_type == type then b.slots holder.signal else []

  -- `publish(const Event&)`, of an event whose dynamic type is `type`: none is a null pointer that is
  -- followed, where the holder is missing.
  unfoldable pub publish_event : ℕ → EventBus → Option (List ℕ)
  unfolding holder_at
  publish_event type bus = elim (find_key type bus.event_type_ids) [
    | none ↦ some []
    | some id ↦ elim (holder_at bus.signals id) [
      | none ↦ none
      | some holder ↦ some (dispatch type holder)
    ]
  ]

  unfoldable pub step : EventBus → BusMove → EventBus
  unfolding subscribe publish
  step bus (subscribes type slot) = subscribe type slot bus
  step bus (publishes type) = (publish type bus).1
  step bus (publishes_event type) = bus

  unfoldable pub run : EventBus → List BusMove → EventBus
  run bus [] = bus
  run bus (move ∷ moves) = run (step bus move) moves
