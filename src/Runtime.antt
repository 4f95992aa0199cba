-- ===== src/Runtime.antt =====
-- crates/af-swarm-runtime: the types and traits of the agent runtime and the backpressure signal.
pub mod Backpressure
pub mod Agents
pub mod Identifiers
pub mod Errors
pub mod Interfaces
mod Tests
