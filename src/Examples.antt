-- ===== src/Examples.antt =====
-- Tests, and the theorems at concrete inputs.
pub mod Samples
mod FrameCodec
mod EntityPool
pub mod Buffers
pub mod Worlds
mod Ticks
mod Clients
mod Sessions
mod Messages
mod Snapshots
mod Rules
mod Loops
mod Connections
mod Servers
mod Screens
