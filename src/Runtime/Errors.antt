-- ===== src/Runtime/Errors.antt =====
-- The errors of crates/af-swarm-runtime/src/agent.rs and their texts (`#[error(...)]`). The error types
-- of anyhow and tonic are parameters, with their texts.
use swarm_runtime.Prelude.{ℕ, suc, Bytes, [], ◌∷◌, ◌++◌, codes}
use swarm_runtime.State.Keys.{decimal_onto}

-- A number as `{}` prints it.
unfoldable pub decimal : ℕ → Bytes
unfolding decimal_onto
decimal n = decimal_onto (suc n) n []

-- The two characters of the texts that are not ASCII.
abbrev pub em_dash : Bytes
em_dash = 226 ∷ 128 ∷ 148 ∷ []

abbrev pub arrow : Bytes
arrow = 226 ∷ 134 ∷ 146 ∷ []

pub data AgentError (Anyhow : Type 0) : Type 0 where
  panic task_failed lifecycle_command_failed : Bytes → AgentError Anyhow
  internal : Anyhow → AgentError Anyhow

-- `agent panicked during message handling`, and so on.
unfoldable pub show_agent : {Anyhow : Type 0} → (Anyhow → Bytes) → AgentError Anyhow → Bytes
show_agent show (AgentError.panic backtrace) =
    codes "agent panicked during message handling: " ++ backtrace
show_agent show (AgentError.task_failed reason) = codes "task failed: " ++ reason
show_agent show (AgentError.lifecycle_command_failed reason) =
    codes "lifecycle command failed: " ++ reason
show_agent show (AgentError.internal e) = codes "internal error: " ++ show e

pub data MigrationError : Type 0 where
  no_migration_path : ℕ → ℕ → MigrationError
  step_failed : ℕ → ℕ → Bytes → MigrationError

unfoldable pub show_migration : MigrationError → Bytes
unfolding decimal
show_migration (MigrationError.no_migration_path before after) =
    codes "no migration path from v" ++ (decimal before ++ (codes " to v" ++ decimal after))
show_migration (MigrationError.step_failed before after reason) =
    codes "migration step failed (v"
    ++ (decimal before
        ++ (codes " " ++ (arrow ++ (codes " v" ++ (decimal after ++ (codes "): " ++ reason))))))

module _ (Status : Type 0) where
  -- For the state store and the workflows.
  pub data DaprError : Type 0 where
    etag_mismatch not_found unavailable : Bytes → DaprError
    transport : Status → DaprError
    internal : Bytes → DaprError

  abbrev pub StateError : Type 0
  StateError = DaprError

  pub data HydrationError : Type 0 where
    state_read_failed : DaprError → HydrationError
    deserialization_failed : ℕ → Bytes → HydrationError
    migration_failed : ℕ → ℕ → Bytes → HydrationError
    timeout : ℕ → HydrationError

  pub data FreezeError : Type 0 where
    serialization_failed : Bytes → FreezeError
    state_write_failed : DaprError → FreezeError
    etag_conflict : FreezeError

  module _ (show_status : Status → Bytes) where
    unfoldable pub show_dapr : DaprError → Bytes
    show_dapr (DaprError.etag_mismatch agent_id) =
        codes "ETag mismatch: concurrent write detected for agent " ++ agent_id
    show_dapr (DaprError.not_found agent_id) = codes "agent not found in state store: " ++ agent_id
    show_dapr (DaprError.unavailable reason) = codes "state store unavailable: " ++ reason
    show_dapr (DaprError.transport status) = codes "transport error: " ++ show_status status
    show_dapr (DaprError.internal text) = codes "internal error: " ++ text

    unfoldable pub show_hydration : HydrationError → Bytes
    unfolding show_dapr decimal
    show_hydration (HydrationError.state_read_failed e) =
        codes "failed to read snapshot from state store: " ++ show_dapr e
    show_hydration (HydrationError.deserialization_failed version reason) =
        codes "failed to deserialize snapshot (version "
        ++ (decimal version ++ (codes "): " ++ reason))
    show_hydration (HydrationError.migration_failed before after reason) =
        codes "snapshot migration failed from v"
        ++ (decimal before ++ (codes " to v" ++ (decimal after ++ (codes ": " ++ reason))))
    show_hydration (HydrationError.timeout elapsed_ms) =
        codes "hydration timeout after " ++ (decimal elapsed_ms ++ codes "ms")

    unfoldable pub show_freeze : FreezeError → Bytes
    unfolding show_dapr
    show_freeze (FreezeError.serialization_failed reason) =
        codes "failed to serialize snapshot: " ++ reason
    show_freeze (FreezeError.state_write_failed e) =
        codes "failed to write snapshot to state store: " ++ show_dapr e
    show_freeze FreezeError.etag_conflict =
        codes "ETag conflict on freeze " ++ (em_dash ++ codes " concurrent write detected")
