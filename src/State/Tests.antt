-- ===== src/State/Tests.antt =====
-- Tests of the state layer (crates/af-swarm-state), and its theorems at concrete inputs.
mod Dormancy
mod Platform
mod Waiting
mod Keys
mod Lifecycle
mod Examples
mod Encryption
mod Migrations
mod Lance
mod Isolation
mod Race
mod Overlap
mod Life
