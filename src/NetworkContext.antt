-- ===== src/NetworkContext.antt =====
-- The pool of worker threads: src/server/network_context.h. Every call and every step of a worker is
-- one step; the mutex makes the calls atomic. Of boost::asio::io_context the model keeps what its
-- documentation says of run(): it runs queued handlers, and returns when the context is stopped or
-- out of work, which stops it.

pub mod Stopping
pub mod Draining
pub mod Busy
pub mod Early
use space_shooter_c.Prelude.{
  ℕ, zero, suc, ◌+◌, ◌-◌, Bool, true, false, not, ◌&&◌, ◌||◌, Option, none, some, List, [], ◌∷◌,
  ◌++◌, Result, ok, err, if◌then◌else◌, ◌==◌, length, replicate,
}

pub data LifeState : Type 0 where
  not_started started stopped joined : LifeState

-- Where a worker is in worker_loop: at the test of the while loop, in io_context_.run(), which has run
-- so many handlers, or at its end.
pub data WorkerPhase : Type 0 where
  testing finished : WorkerPhase
  running : ℕ → WorkerPhase

pub record Worker : Type 0 where
  pub phase : WorkerPhase
  pub stop_requested : Bool

pub record IoContext : Type 0 where
  pub is_stopped : Bool
  pub guarded : Bool
  -- Handlers that wait, and operations that are not complete.
  pub work : ℕ

-- Joined comes before the join: in that state `workers` are the threads that join_workers has taken
-- out of worker_threads_ and waits for, which force_stop does not reach any more.
pub record NetworkContext : Type 0 where
  pub state : LifeState
  pub io : IoContext
  pub workers : List Worker
  pub thread_count : ℕ

-- What a call throws, or aborts with.
pub data ContextError : Type 0 where
  logic_error system_error called_from_worker called_before_stop : ContextError

-- What may happen to a worker: its next handler runs, and posts `n` more, or throws; or its next step
-- comes, which in run() is the return.
pub data WorkerEvent : Type 0 where
  handles : ℕ → WorkerEvent
  throws : WorkerEvent
  proceeds : WorkerEvent

-- `NetworkContext(thread_count)`.
abbrev pub new_context : ℕ → NetworkContext
new_context n = record {
  state = not_started;
  io = record { is_stopped = false; guarded = true; work = 0 };
  workers = [];
  thread_count = if n == 0 then 1 else n;
}

abbrev pub request_stop : Worker → Worker
request_stop w = record w { stop_requested = true }

unfoldable pub request_stops : List Worker → List Worker
request_stops [] = []
request_stops (w ∷ ws) = request_stop w ∷ request_stops ws

abbrev pub new_worker : Worker
new_worker = record { phase = testing; stop_requested = false }

-- The creation of the threads. If one of them cannot be created, those that were are stopped and
-- joined, and are gone.
unfoldable pub start_workers :
    Bool → NetworkContext → Result ContextError NetworkContext × NetworkContext
unfolding request_stops
start_workers false c =
    let d = record c { state = started; workers = replicate c.thread_count new_worker } in (ok d, d)
start_workers true c = (
  err system_error,
  record c { state = stopped; io = record c.io { is_stopped = true }; workers = [] },
)

-- `start()`: the outcome, and the context that is left. `failure` is whether std::jthread throws.
unfoldable pub start : Bool → NetworkContext → Result ContextError NetworkContext × NetworkContext
unfolding start_workers
start failure c = elim c.state [
  | not_started ↦ start_workers failure c
  | started ↦ (ok c, c)
  | stopped ↦ (err logic_error, c)
  | joined ↦ (err logic_error, c)
]

unfoldable pub stop : NetworkContext → NetworkContext
unfolding request_stops
stop c =
    let stopping = record c {
      state = stopped;
      io = record c.io { guarded = false };
      workers = request_stops c.workers;
    } in
    elim c.state [ not_started ↦ c | started ↦ stopping | stopped ↦ c | joined ↦ c ]

unfoldable pub force_stop : NetworkContext → NetworkContext
unfolding request_stops
force_stop c =
    let stopping = record c {
      state = stopped;
      io = record c.io { is_stopped = true; guarded = false };
      workers = request_stops c.workers;
    } in
    elim c.state [ not_started ↦ c | started ↦ stopping | stopped ↦ stopping | joined ↦ c ]

abbrev pub is_finished : WorkerPhase → Bool
is_finished finished = true
is_finished testing = false
is_finished (running n) = false

unfoldable pub all_finished : List Worker → Bool
all_finished [] = true
all_finished (w ∷ ws) = is_finished w.phase && all_finished ws

-- `join_workers()`: the part under the mutex, before anything blocks. From here on the context has no
-- threads of its own: `workers` are those of the local vector, which its destructor joins.
unfoldable pub join_workers : NetworkContext → NetworkContext
join_workers c = record c { state = joined }

-- The end of call_once, for the call that joins and for those that wait for it: none is a call that
-- blocks, as a worker has not ended.
unfoldable pub joins : NetworkContext → Option (Result ContextError (Unit {0}))
unfolding all_finished
joins c = if all_finished c.workers then some (ok tt) else none

-- `wait()`: its end, and the context that it leaves, also while it blocks.
unfoldable pub wait :
    Bool → NetworkContext → Option (Result ContextError (Unit {0})) × NetworkContext
unfolding join_workers joins
wait from_worker c =
    let joining = join_workers c in
    if from_worker then (some (err called_from_worker), c) else (elim c.state [
      | not_started ↦ (some (err called_before_stop), c)
      | started ↦ (some (err called_before_stop), c)
      | stopped ↦ (joins joining, joining)
      | joined ↦ (joins c, c)
    ])

-- `~NetworkContext()`.
unfoldable pub destroy :
    Bool → NetworkContext → Option (Result ContextError (Unit {0})) × NetworkContext
unfolding force_stop join_workers joins
destroy from_worker c =
    let joining = join_workers (force_stop c) in
    if from_worker then (some (err called_from_worker), c) else (joins joining, joining)

-- The end of a round of worker_loop, after run() has returned or thrown.
unfoldable pub after_run : IoContext → Worker → Worker
after_run io w = record w {
  phase = if io.is_stopped || w.stop_requested then finished else testing;
}

-- run() comes back, when it may; out of work, it stops the context. After no handler the loop breaks.
unfoldable pub run_returns : ℕ → IoContext → Worker → IoContext × Worker
unfolding after_run
run_returns n io w =
    let back = record io { is_stopped = true } in
    if io.is_stopped || (not io.guarded && (io.work == 0))
    then (back, if n == 0 then record w { phase = finished } else after_run back w)
    else (io, w)

unfoldable pub worker_step : WorkerEvent → IoContext → Worker → IoContext × Worker
unfolding run_returns after_run
worker_step event io w =
    let take_work : ℕ → IoContext = λ more. record io { work = io.work - 1 + more } in
    elim w.phase [
      | finished ↦ (io, w)
      | testing ↦ (io, record w { phase = if w.stop_requested then finished else running 0 })
      | running n ↦ elim event [
        | proceeds ↦ run_returns n io w
        | handles more ↦
            if io.is_stopped || (io.work == 0)
            then (io, w)
            else (take_work more, record w { phase = running (suc n) })
        | throws ↦
            if io.is_stopped || (io.work == 0) then (io, w) else (take_work 0, after_run io w)
      ]
    ]

-- The i-th worker steps.
unfoldable pub step_nth : ℕ → WorkerEvent → IoContext → List Worker → IoContext × List Worker
unfolding worker_step
step_nth i event io [] = (io, [])
step_nth zero event io (w ∷ ws) = let (after, moved) = worker_step event io w in (after, moved ∷ ws)
step_nth (suc i) event io (w ∷ ws) = let (after, rest) = step_nth i event io ws in (after, w ∷ rest)

pub data ContextMove : Type 0 where
  starts : Bool → ContextMove
  stops force_stops posts : ContextMove
  waits : Bool → ContextMove
  works : ℕ → WorkerEvent → ContextMove

abbrev pub set_workers : IoContext × List Worker → NetworkContext → NetworkContext
set_workers (io, ws) c = record c { io = io; workers = ws }

-- A call of `wait` that aborts leaves the context as it is.
unfoldable pub step : NetworkContext → ContextMove → NetworkContext
unfolding start stop force_stop wait step_nth
step c (starts failure) = (start failure c).1
step c stops = stop c
step c force_stops = force_stop c
step c posts = record c { io = record c.io { work = suc c.io.work } }
step c (waits from_worker) = (wait from_worker c).1
step c (works i event) = set_workers (step_nth i event c.io c.workers) c

unfoldable pub run : NetworkContext → List ContextMove → NetworkContext
run c [] = c
run c (move ∷ moves) = run (step c move) moves
