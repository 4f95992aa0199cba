-- ===== src/Runtime/Interfaces.antt =====
-- The traits of crates/af-swarm-runtime/src/agent.rs as records of operations, and the registry of
-- snapshot migrations as it stands. An async method is a function on the world `W`; one that takes
-- `&mut self` returns the agent as well.
use swarm_runtime.Prelude.{ℕ, Bytes, List, Option}
use swarm_runtime.Prelude.Results.{Result}
use swarm_runtime.Runtime.Agents.{
  AgentId, AgentLifecycleState, AgentConfig, AgentMessage, AgentSnapshot, TaskDispatch, TaskResult,
  DirectMessage, BroadcastEvent, LifecycleCommand,
}
use swarm_runtime.Runtime.Errors.{
  AgentError, HydrationError, FreezeError, DaprError, StateError, MigrationError,
}

pub data ETag : Type 0 where
  etag : Bytes → ETag

pub data WorkflowRuntimeStatus : Type 0 where
  running completed failed cancelled terminated pending suspended : WorkflowRuntimeStatus

module _ (Json : Type 0) where
  pub record WorkflowStatus : Type 0 where
    pub instance_id : Bytes
    pub runtime_status : WorkflowRuntimeStatus
    pub created_at : ℕ
    pub last_updated_at : ℕ
    pub output : Option Json

module _ (Json Anyhow Status W : Type 0) where
  pub record Agent (Self : Type 0) : Type 0 where
    pub agent_id : Self → AgentId
    pub lifecycle_state : Self → AgentLifecycleState
    pub config : Self → AgentConfig
    pub handle_message :
        Self
        → AgentMessage Json
        → W
        → Result (Option (TaskResult Json)) (AgentError Anyhow) × Self × W
    pub on_start : Self → W → Result (Unit {0}) (AgentError Anyhow) × Self × W
    pub on_stop : Self → W → Result (Unit {0}) (AgentError Anyhow) × Self × W

  pub record Hydrate (Self : Type 0) : Type 0 where
    pub agent : Agent Self
    pub hydrate :
        Self → AgentSnapshot Json → W → Result (Unit {0}) (HydrationError Status) × Self × W

  pub record Freeze (Self : Type 0) : Type 0 where
    pub agent : Agent Self
    pub freeze : Self → W → Result (AgentSnapshot Json) (FreezeError Status) × W
    pub emergency_freeze : Self → W → Result (AgentSnapshot Json) (FreezeError Status) × W

  pub record MessageHandler (Self : Type 0) : Type 0 where
    pub hydrate : Hydrate Self
    pub freeze : Freeze Self
    pub handle_task :
        Self
        → TaskDispatch Json
        → W
        → Result (Option (TaskResult Json)) (AgentError Anyhow) × Self × W
    pub handle_direct_message :
        Self → DirectMessage Json → W → Result (Unit {0}) (AgentError Anyhow) × Self × W
    pub handle_broadcast :
        Self → BroadcastEvent Json → W → Result (Unit {0}) (AgentError Anyhow) × Self × W
    pub handle_lifecycle_command :
        Self → LifecycleCommand → W → Result (Unit {0}) (AgentError Anyhow) × Self × W

  pub record StateClient : Type 0 where
    pub read_agent_snapshot :
        AgentId → W → Result (AgentSnapshot Json × ETag) (StateError Status) × W
    pub write_agent_snapshot :
        AgentId → AgentSnapshot Json → ETag → W → Result ETag (StateError Status) × W
    pub read_lifecycle_state : AgentId → W → Result AgentLifecycleState (StateError Status) × W
    pub write_lifecycle_state :
        AgentId → AgentLifecycleState → ETag → W → Result ETag (StateError Status) × W
    pub list_active_agents : W → Result (List AgentId) (StateError Status) × W
    pub register_active : AgentId → W → Result (Unit {0}) (StateError Status) × W
    pub deregister_active : AgentId → W → Result (Unit {0}) (StateError Status) × W

  pub record DaprWorkflowClient : Type 0 where
    pub start_workflow : Bytes → Bytes → Json → W → Result Bytes (DaprError Status) × W
    pub get_status : Bytes → W → Result (WorkflowStatus Json) (DaprError Status) × W
    pub terminate_workflow : Bytes → W → Result (Unit {0}) (DaprError Status) × W

-- A call that may panic.
pub data Called (A : Type 0) : Type 0 where
  returned : A → Called A
  panicked : Called A

-- The registry as committed: its one field is elided, and each method panics at its `todo!()`.
pub record SnapshotMigrationRegistry : Type 0 where
  pub private_ : Unit {0}

unfoldable pub new_snapshot_registry : Called SnapshotMigrationRegistry
new_snapshot_registry = panicked

unfoldable pub default_snapshot_registry : Called SnapshotMigrationRegistry
unfolding new_snapshot_registry
default_snapshot_registry = new_snapshot_registry

module _ {Json : Type 0} where
  unfoldable pub register_snapshot :
      SnapshotMigrationRegistry → ℕ → ℕ → (Json → Json) → Called SnapshotMigrationRegistry
  register_snapshot self from_version to_version f = panicked

  unfoldable pub migrate_snapshot :
      SnapshotMigrationRegistry → Json → ℕ → Called (Result Json MigrationError)
  migrate_snapshot self raw from_version = panicked
