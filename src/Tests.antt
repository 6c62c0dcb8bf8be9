-- ===== src/Tests.antt =====
-- Concrete runs of the definitions, and the theorems at concrete inputs.
mod Frames
mod Messages
pub mod Server
pub mod Client
pub mod Exchange
mod Cli
mod Tap
mod Startup
mod Relayed
mod Served
mod Session
pub mod Relay
