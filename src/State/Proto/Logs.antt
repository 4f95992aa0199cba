-- ===== src/State/Proto/Logs.antt =====
-- The messages of crates/af-swarm-state/proto that prost generates beside those that freeze, hydration and
-- encryption use: conversation turns, tool calls, scratchpads and the rotation of keys. Their keys are
-- built in crates/af-swarm-state/src/lib.rs.
use swarm_runtime.Prelude.{ℕ, Bool, Bytes, List, Option, ℤ, pos}
use swarm_runtime.State.Proto.{Timestamp, EncryptionEnvelope}

pub data GoalStatus : Type 0 where
  goal_unspecified pending in_progress blocked completed : GoalStatus
  goal_failed : GoalStatus

abbrev pub goal_status_code : GoalStatus → ℤ
goal_status_code goal_unspecified = pos 0
goal_status_code pending = pos 1
goal_status_code in_progress = pos 2
goal_status_code blocked = pos 3
goal_status_code completed = pos 4
goal_status_code goal_failed = pos 5

pub data StateSensitivity : Type 0 where
  level_unspecified level_public level_internal level_sensitive level_restricted : StateSensitivity

abbrev pub state_sensitivity_code : StateSensitivity → ℤ
state_sensitivity_code level_unspecified = pos 0
state_sensitivity_code level_public = pos 1
state_sensitivity_code level_internal = pos 2
state_sensitivity_code level_sensitive = pos 3
state_sensitivity_code level_restricted = pos 4

pub data DataClass : Type 0 where
  class_unspecified public_content user_profile internal_config internal_metrics : DataClass
  pii_contact pii_identity financial_id financial_pci credential : DataClass
  crypto_key model_weights audit_log : DataClass

abbrev pub data_class_code : DataClass → ℤ
data_class_code class_unspecified = pos 0
data_class_code public_content = pos 1
data_class_code user_profile = pos 2
data_class_code internal_config = pos 3
data_class_code internal_metrics = pos 4
data_class_code pii_contact = pos 5
data_class_code pii_identity = pos 6
data_class_code financial_id = pos 7
data_class_code financial_pci = pos 8
data_class_code credential = pos 9
data_class_code crypto_key = pos 10
data_class_code model_weights = pos 11
data_class_code audit_log = pos 12

pub data ToolCallStatus : Type 0 where
  call_unspecified call_success call_failed call_timeout sandbox_violation : ToolCallStatus
  dse_blocked : ToolCallStatus

abbrev pub tool_call_status_code : ToolCallStatus → ℤ
tool_call_status_code call_unspecified = pos 0
tool_call_status_code call_success = pos 1
tool_call_status_code call_failed = pos 2
tool_call_status_code call_timeout = pos 3
tool_call_status_code sandbox_violation = pos 4
tool_call_status_code dse_blocked = pos 5

pub data SandboxType : Type 0 where
  sandbox_unspecified wasmtime bubblewrap seccomp host_inline : SandboxType

abbrev pub sandbox_code : SandboxType → ℤ
sandbox_code sandbox_unspecified = pos 0
sandbox_code wasmtime = pos 1
sandbox_code bubblewrap = pos 2
sandbox_code seccomp = pos 3
sandbox_code host_inline = pos 4

pub record ConversationTurnRecord : Type 0 where
  pub tenant_id : Bytes
  pub agent_id : Bytes
  pub turn_id : Bytes
  pub role : Bytes
  pub content : Bytes
  pub input_tokens : ℕ
  pub output_tokens : ℕ
  pub model_id : Bytes
  pub taint_context : Bytes
  pub tool_log_ids : List Bytes
  pub created_at : Option Timestamp
  pub encryption : Option EncryptionEnvelope
  pub schema_version : ℕ

pub record TextContent : Type 0 where
  pub text : Bytes

pub record ToolUseContent : Type 0 where
  pub tool_use_id : Bytes
  pub tool_name : Bytes
  pub input_json : Bytes

pub record ToolResultContent : Type 0 where
  pub tool_use_id : Bytes
  pub tool_name : Bytes
  pub output_json : Bytes
  pub is_error : Bool

-- The `oneof kind` of a message's content.
pub data ContentKind : Type 0 where
  text : TextContent → ContentKind
  tool_use : ToolUseContent → ContentKind
  tool_result : ToolResultContent → ContentKind

pub record MessageContent : Type 0 where
  pub kind : Option ContentKind

pub record ToolCallLogRecord : Type 0 where
  pub tenant_id : Bytes
  pub agent_id : Bytes
  pub log_id : Bytes
  pub turn_id : Bytes
  pub tool_name : Bytes
  pub input : Bytes
  pub output : Bytes
  pub status : ℤ
  pub duration_ms : ℕ
  pub sandbox : ℤ
  pub taint_context : Bytes
  pub invoked_at : Option Timestamp
  pub encryption : Option EncryptionEnvelope
  pub schema_version : ℕ

pub record ScratchpadEntry : Type 0 where
  pub key : Bytes
  pub value : Bytes
  pub written_at : Option Timestamp
  pub data_class : ℤ

pub record KeyRotationMetadata : Type 0 where
  pub tenant_id : Bytes
  pub old_key_id : Bytes
  pub new_key_id : Bytes
  pub scheme : ℤ
  pub records_pending : ℕ
  pub records_rotated : ℕ
  pub records_failed : ℕ
  pub rotation_started_at : Option Timestamp
  pub rotation_completed_at : Option Timestamp
