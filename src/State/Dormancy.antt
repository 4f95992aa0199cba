-- ===== src/State/Dormancy.antt =====
-- Agents that are left alone (crates/af-swarm-state/src/freeze.rs and hydrate.rs): their working memory
-- is written with a TTL of a day, their state with none.
pub mod Lifetimes
pub mod Woken
pub mod Lost
