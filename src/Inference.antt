-- ===== src/Inference.antt =====
-- crates/af-inference-client: the Rust side of the shared inference cluster.
pub mod Proto
pub mod Budget
pub mod Namespace
pub mod Client
pub mod Metrics
mod Tests
