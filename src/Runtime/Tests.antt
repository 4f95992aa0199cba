-- ===== src/Runtime/Tests.antt =====
-- Tests of crates/af-swarm-runtime, and its theorems at concrete inputs.
mod Levels
mod Errors
