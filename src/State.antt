-- ===== src/State.antt =====
-- The crate af-swarm-state (crates/af-swarm-state/src): the durable state of the agents.
pub mod Error
pub mod Keys
pub mod Validate
pub mod Proto
pub mod Exec
pub mod Store
pub mod Freeze
pub mod Hydrate
pub mod Keeps
pub mod Lifecycle
pub mod Isolation
pub mod Race
pub mod Life
pub mod Dormancy
pub mod Encryption
pub mod Migrations
pub mod Gc
pub mod LanceSchema
pub mod Tests
