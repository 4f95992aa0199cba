-- ===== src/Inference/Tests.antt =====
-- Tests of crates/af-inference-client, and its theorems at concrete inputs.
mod Budget
mod Namespace
mod Client
mod Metrics
mod Threads
