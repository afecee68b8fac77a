-- ===== src/Lib.antt =====
-- SpaceShooter: a model of the game server, of the wire formats that it shares with the client, and
-- of the client's connection, controller and views.
--
-- The program. Clients talk to the server over TCP in frames (FrameCodec). A Session owns one
-- socket: it decodes frames, publishes each payload on the event bus, and writes what it is told to
-- in order. The SessionRegistry finds sessions by id and serves packets to one or all of them. The
-- response router turns the text of a message (Protocol) into events. The world (WorldInstance)
-- hears those events as actions in a queue, and on every tick of its timer applies them, moves the
-- entities, resolves collisions, keeps the asteroids up, spawns the ships of new players, and
-- publishes a snapshot of the state for all sessions. Entities live in a pool of slots. The TcpServer
-- accepts clients and gives each a session; a NetworkContext runs all handlers on its threads. On the
-- client, a TcpClient connects, sends and hears for the GameController, and the views draw what the
-- ClientWorld knows.
--
-- Which file models which part (paths from the root of the repository; a folder of the same name
-- holds the proofs about a file, and the parts of a large one):
--   FrameCodec        src/common/frame_codec.h: encode, scan, decode. A buffer is a list of bytes.
--   Types             src/common/types.h and strong_id.h: ids as 64-bit numbers.
--   Scalar            `double` and <cmath>, as a record of operations without laws.
--   Math              src/common/math_utils.h and vector2d.cpp: Circles has the search for free
--                     space, Physics the motion of ships and the elastic impulse.
--   Entity            src/server/entity.h; the components of an entity are options.
--   Health, Score     src/server/health_utils.h and score_utils.h.
--   EntityPool        src/server/entity_pool.h; a pointer to an entity is the index of its slot,
--                     and a write through it is `modify`.
--   EntityUtils       src/server/entity_utils.h: snapshots of entities, and their motion.
--   Collision         src/server/collision_utils.h; a callback is a function with its state.
--   AsteroidFactory   src/server/asteroid_factory.cpp; random numbers come from a parameter.
--   Snapshot          src/common/entity_snapshot.h and game_snapshot.h; Snapshot.Bytes and
--                     Snapshot.Game are game_snapshot.cpp, Snapshot.Serder is
--                     entity_snapshot_serder.cpp.
--   Events            src/server/network_events.h; publishing appends to a list.
--   Protocol, Router  src/common/protocol.cpp and src/server/network_response_router.cpp.
--   Session           src/server/session.cpp, as a step function on calls, tasks of the strand and
--                     ends of reads and writes.
--   SessionRegistry   src/server/session_registry.cpp.
--   ClientWorld, GameController
--                     src/client/client_world.cpp and game_controller.cpp, the controller as a step
--                     function on calls of the application and callbacks of the connection.
--   TcpClient         src/client/tcp_client.cpp, as a step function on calls of the application, tasks
--                     of the strand and ends of operations; the application is any function from
--                     what happened so far to the calls that it makes.
--   Transport         the client's connection and the server's session, put together.
--   ClientViews       src/client/score_view.cpp, leaderboard_view.cpp and death_screen.cpp.
--   NetworkContext    src/server/network_context.h: the calls, also those that block, and the steps of
--                     the workers.
--   EventBus          src/server/event_bus.h: subscribers by type; the other server parts publish
--                     to lists.
--   ThreadSafeQueue   src/server/thread_safe_queue.h.
--   TcpServer         src/server/tcp_server.cpp: the acceptor, with Session and SessionRegistry.
--   World             src/server/world_instance.h: the state and the handlers of events; then of
--                     world_instance.cpp: World.Actions has processInputQueue, World.Collisions
--                     resolveCollisions, World.Spawn and World.Leaderboard spawnShips and
--                     buildLeaderboard, World.Tick runTickStep, and World.Lifecycle start, stop,
--                     doTick and the timer, as a step function that interleaves calls from other
--                     threads with the phases of a tick.
--   Prelude           shared lists, tests, results, maps and text.
--   Examples          concrete parameters and inputs.
--
-- Code from elsewhere is a parameter: `double` and <cmath> (Scalars, CountsTens), FlatBuffers with the
-- code generated from the schema (FlatBuffers, IsFaithful), the random numbers (Randomness,
-- DrawsBetween), std::partial_sort (PartialSort, Rearranges), std::stod (IsStrict), boost::signals2
-- (Signals, CallsInOrder) and std::format of a number. A theorem names the law that it needs as a
-- hypothesis.
--
-- Fuel. `scan` of the codec has one round more than the buffer has bytes, and every round moves
-- forward. `grow` of Entity.addMass has 2200 rounds, more than a double can be doubled; the loop
-- over the asteroids' budget has 64, where 50 of the least weight use up the largest budget. All other
-- loops are structural.
--
-- Session::start and TcpServer::start are taken to be called once, as TcpServer and main do: one read
-- and one accept are pending at most.
--
-- Not modelled: logging, Asio itself (sockets, strands and timers are states with tasks), exceptions
-- for want of memory, and both main functions.
pub mod Prelude
pub mod FrameCodec
pub mod Scalar
pub mod Types
pub mod Score
pub mod Health
pub mod Collision
pub mod Snapshot
pub mod Math
pub mod EntityUtils
pub mod Entity
pub mod EntityPool
pub mod Events
pub mod AsteroidFactory
pub mod World
pub mod Examples
pub mod Protocol
pub mod Router
pub mod Session
pub mod SessionRegistry
pub mod ClientWorld
pub mod GameController
pub mod TcpClient
pub mod NetworkContext
pub mod EventBus
pub mod ThreadSafeQueue
pub mod TcpServer
pub mod ClientViews
pub mod Transport
