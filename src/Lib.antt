-- ===== src/Lib.antt =====
-- The core of swarm-runtime, the runtime of a swarm of agents, modelled and proved. The program has
-- three crates, under crates/ of the repository:
--
--   af-swarm-state       what is kept of an agent between its tasks: a state record and a working
--                        memory in a Dapr store, written by a freeze, read by a hydration, under keys
--                        built from tenant and agent, and encrypted and migrated on the way.
--   af-inference-client  the Rust side of the shared inference cluster: the client, the gate on the
--                        token budget, the namespaces of the prefix cache and the metrics.
--   af-swarm-runtime     the types of the agent runtime and its backpressure signal.
--
-- Where the code is modelled:
--
--   State/Error          crates/af-swarm-state/src/error.rs, with a panic as a result
--   State/Keys           crates/af-swarm-state/src/lib.rs: the key builders; below it their order
--                        (Order), their decimal digits (Decimal), collisions (Segments, Families)
--                        and scans by a prefix (Scans)
--   State/Validate       crates/af-swarm-state/src/store.rs, `validate_id`
--   State/Proto          the generated messages of crates/af-swarm-state/proto
--   State/Exec           the async methods: a state monad over a world, with errors and panics
--   State/Store          crates/af-swarm-state/src/store.rs: the client as it stands, and the
--                        platform that the crate runs on; Store/Laws has the optimistic concurrency
--                        that the Dapr store documents
--   State/Freeze         crates/af-swarm-state/src/freeze.rs: `freeze`, `write_checkpoint`,
--                        `current_timestamp`
--   State/Hydrate        crates/af-swarm-state/src/hydrate.rs: `hydrate`, for any recovery
--                        (`hydrate_with`), since `recover_from_checkpoint` is a `todo!()`
--   State/Lifecycle      the two together: what a hydration finds after a freeze
--   State/Life           the life of one agent: hydrations and freezes in any order and number
--   State/Dormancy       agents that are left alone, with the TTL of a record in seconds
--   State/Keeps          actions that leave one key alone
--   State/Isolation      what freeze and hydration leave alone
--   State/Race           crates/af-swarm-state/src/freeze.rs, call by call: several freezes of one
--                        agent at once, and the reads of hydrations, in any order; Race/Overlap is
--                        crates/af-swarm-state/src/hydrate.rs, call by call, among them
--   State/Encryption     crates/af-swarm-state/src/encryption.rs: `encrypt`, `decrypt`, the
--                        in-memory key provider
--   State/Migrations     crates/af-swarm-state/src/migrations.rs: `register`, `apply_to_latest`
--   State/Gc             crates/af-swarm-state/src/gc.rs: the configuration and the loop of the
--                        collector
--   State/LanceSchema    crates/af-swarm-state/src/lance_schema.rs: the table's rows and
--                        `compute_synapse_query_vector`
--   Inference/Proto      the enumerations of crates/af-inference-client/proto
--   Inference/Budget     crates/af-inference-client/src/budget.rs: `has_capacity`, `record_usage`,
--                        the hourly window; Budget/View has the abstract budget, Budget/Layout
--                        the gates up to the layout of the map, and Budget/Threads the same code
--                        statement by statement, for several threads in any order
--   Inference/Namespace  crates/af-inference-client/src/namespace.rs: `build_namespace_key`,
--                        `namespace_key_to_prefix`
--   Inference/Client     crates/af-inference-client/src/client.rs: `connect`, `infer`, `health`,
--                        `deadline_for_task`
--   Inference/Metrics    crates/af-inference-client/src/metrics.rs: `ClusterMetrics::new` and
--                        `record`
--   Runtime/Agents       crates/af-swarm-runtime/src/agent.rs: the types of agents, tasks, snapshots
--   Runtime/Identifiers  the same file: `AgentId::new`, `TaskId::new` and how an identifier prints
--   Runtime/Errors       the same file: the error types and their texts
--   Runtime/Interfaces   the same file: the traits, as records of operations, and
--                        `SnapshotMigrationRegistry`, whose methods are `todo!()`
--   Runtime/Backpressure the same file: `should_throttle`, `is_critical`
--   Prelude              numbers, texts and machine words; Prelude/Float is `f32`, exactly
--
-- How the code is read. A string is its UTF-8 bytes. A `u64` is a native number, and the additions
-- that wrap say so (`add64`); an `i64` is an integer, and the casts between them are written out. An
-- async method is a function on a world, and what it did to the world stays done when it fails. A
-- `todo!()` is a panic. Logging is left out. Time is an argument or a part of the world.
--
-- Concurrency. A method is modelled whole first. Where several run at once, each call of the store or
-- the clock, and each access to an atomic counter or the mutex, is a step of its own, and
-- the steps mix in any order. State/Race/Alone, State/Race/Overlap and Inference/Budget/Threads/Calls
-- compare the steps of one call without a break with the whole method. In State/Race/Overlap the
-- recovery of a hydration is one step with its last read, since it is a parameter. The locks of the shards
-- of the budget's map are left out of the steps, which so allow more orders than the locks do;
-- Inference/Budget/Threads/Progress says where one could make a thread wait.
--
-- Parameters. The Dapr store, prost, SHA-256, AES-GCM, hexadecimal encoding, tonic and prometheus are
-- not in the repository: each is a record of operations, or functions as arguments, and what their
-- authors document is a record of laws, which the tests instantiate with concrete functions. The
-- laws of the store (State/Store/Laws) let no record go by itself; those of its TTLs (State/Store/Ttl)
-- add the time that passes between calls, and calls themselves take none. `f32` is exact where its
-- rounding decides (backpressure), and abstract operations in the query vector.
--
-- Loops and fuel. The walk along the migrations takes fuel: one round more than versions are left is
-- enough, since a migration is meant to raise the version. Rounding an `f32` takes 300 for the bits
-- that may go, and no number here has more than 300 of them. The digits of a number take its value
-- plus one. The collector's loop never ends; its first rounds are modelled.
--
-- Not modelled: the wire names that serde gives the variants of agent.rs; the code that tonic and
-- prost generate; the build scripts; the manifests and the design documents.
pub mod Prelude
pub mod State
pub mod Inference
pub mod Runtime
