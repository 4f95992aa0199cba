-- ===== src/Runtime/Agents.antt =====
-- The types of crates/af-swarm-runtime/src/agent.rs. A `Uuid` is its 128 bits as a number, a
-- `DateTime<Utc>` an instant in nanoseconds; the JSON values of serde_json are a parameter.
use swarm_runtime.Prelude.{ℕ, Bytes, Bool, true, false, List, [], Option, codes}
use swarm_runtime.Runtime.Backpressure.{MemoryPressureLevel}

pub data AgentId : Type 0 where
  agent_id : ℕ → AgentId

pub data TaskId : Type 0 where
  task_id : ℕ → TaskId

pub data CorrelationId : Type 0 where
  correlation_id : ℕ → CorrelationId

pub data AgentLifecycleState : Type 0 where
  frozen hydrating active draining freezing quarantined : AgentLifecycleState

pub data Capability : Type 0 where
  capability : Bytes → Capability

pub data InferenceTier : Type 0 where
  open_pool restricted_pod : InferenceTier

pub record AgentConfig : Type 0 where
  pub persona : Bytes
  pub capabilities : List Capability
  pub max_tools : ℕ
  pub max_context_tokens : ℕ
  pub idle_ttl_secs : ℕ
  pub inference_tier : InferenceTier

-- `AgentConfig::default()`
abbrev pub default_config : AgentConfig
default_config = record {
  persona = codes "unnamed";
  capabilities = [];
  max_tools = 16;
  max_context_tokens = 128000;
  idle_ttl_secs = 300;
  inference_tier = open_pool;
}

-- In ascending order.
pub data TaskPriority : Type 0 where
  low_priority normal_priority high_priority : TaskPriority

-- `TaskPriority::default()`
abbrev pub default_priority : TaskPriority
default_priority = normal_priority

-- `a <= b`, as derived.
unfoldable pub le_priority : TaskPriority → TaskPriority → Bool
le_priority low_priority b = true
le_priority normal_priority low_priority = false
le_priority normal_priority b = true
le_priority high_priority high_priority = true
le_priority high_priority b = false

pub data LifecycleCommand : Type 0 where
  drain : LifecycleCommand
  freeze : LifecycleCommand
  quarantine : Bytes → LifecycleCommand
  recover : LifecycleCommand

pub data ConversationRole : Type 0 where
  system user assistant tool : ConversationRole

pub record ConversationTurn : Type 0 where
  pub role : ConversationRole
  pub content : Bytes
  pub token_count : ℕ
  pub timestamp : ℕ

abbrev pub current_snapshot_version : ℕ
current_snapshot_version = 1

module _ (Json : Type 0) where
  pub record TaskPayload : Type 0 where
    pub kind : Bytes
    pub body : Json

  pub record TaskDispatch : Type 0 where
    pub task_id : TaskId
    pub workflow_instance_id : Option Bytes
    pub payload : TaskPayload
    pub priority : TaskPriority
    pub deadline : Option ℕ
    pub inference_tier : InferenceTier
    pub max_tokens : Option ℕ
    pub requester_id : Option AgentId

  pub data TaskOutcome : Type 0 where
    success : Json → TaskOutcome
    failure : Bytes → Bool → TaskOutcome
    cancelled : Bytes → TaskOutcome

  pub record TaskResult : Type 0 where
    pub task_id : TaskId
    pub agent_id : AgentId
    pub outcome : TaskOutcome
    pub completed_at : ℕ

  pub record DirectMessage : Type 0 where
    pub sender : AgentId
    pub to : AgentId
    pub correlation_id : CorrelationId
    pub payload : Json

  pub data BroadcastEvent : Type 0 where
    agent_lifecycle_changed :
        AgentId → AgentLifecycleState → AgentLifecycleState → ℕ → BroadcastEvent
    agent_quarantined : AgentId → Bytes → ℕ → BroadcastEvent
    backpressure_alert : MemoryPressureLevel → ℕ → ℕ → ℕ → BroadcastEvent
    task_completed : TaskResult → BroadcastEvent

  pub data AgentMessage : Type 0 where
    task : TaskDispatch → AgentMessage
    direct : DirectMessage → AgentMessage
    broadcast : BroadcastEvent → AgentMessage
    lifecycle : LifecycleCommand → AgentMessage
    ping : AgentMessage
    pong : AgentMessage

  -- `variables` is the `HashMap` as a function.
  pub record WorkingMemory : Type 0 where
    pub scratchpad : Bytes
    pub variables : Bytes → Option Json
    pub lancedb_collection_id : Option Bytes

  pub record PendingTask : Type 0 where
    pub task : TaskDispatch
    pub enqueued_at : ℕ

  pub record AgentSnapshot : Type 0 where
    pub agent_id : AgentId
    pub config : AgentConfig
    pub lifecycle_state : AgentLifecycleState
    pub last_active_at : ℕ
    pub pending_tasks : List PendingTask
    pub working_memory : WorkingMemory
    pub conversation_history : List ConversationTurn
    pub context_token_count : ℕ
    pub snapshot_version : ℕ
    pub created_at : ℕ
