-- ===== src/State/Proto.antt =====
-- The messages that prost generates from crates/af-swarm-state/proto: the types that the state layer
-- stores. An enumeration's field is an `i32`, as in the generated code.
pub mod Logs
use swarm_runtime.Prelude.{
  ℕ, Bool, Bytes, List, Option, some, none, ℤ, pos, negsuc, ◌==◌, if◌then◌else◌,
}
use swarm_runtime.Prelude.Float.{F32}

pub record Timestamp : Type 0 where
  pub seconds : ℤ
  pub nanos : ℤ

pub data AgentLifecycleStatus : Type 0 where
  unspecified frozen active draining : AgentLifecycleStatus

-- `status as i32`.
abbrev pub status_code : AgentLifecycleStatus → ℤ
status_code unspecified = pos 0
status_code frozen = pos 1
status_code active = pos 2
status_code draining = pos 3

pub data CheckpointTrigger : Type 0 where
  trigger_unspecified freeze periodic pre_task manual : CheckpointTrigger

-- `trigger as i32`.
abbrev pub trigger_code : CheckpointTrigger → ℤ
trigger_code trigger_unspecified = pos 0
trigger_code freeze = pos 1
trigger_code periodic = pos 2
trigger_code pre_task = pos 3
trigger_code manual = pos 4

pub data EncryptionScheme : Type 0 where
  scheme_unspecified plaintext aes_256_gcm fhe_tfhe_rs : EncryptionScheme

-- `scheme as i32`.
abbrev pub scheme_code : EncryptionScheme → ℤ
scheme_code scheme_unspecified = pos 0
scheme_code plaintext = pos 1
scheme_code aes_256_gcm = pos 2
scheme_code fhe_tfhe_rs = pos 3

-- `EncryptionScheme::try_from(code)`.
abbrev pub scheme_of : ℤ → Option EncryptionScheme
scheme_of (pos n) =
    if n == 0
    then some scheme_unspecified
    else if n == 1
    then some plaintext
    else if n == 2
    then some aes_256_gcm
    else if n == 3
    then some fhe_tfhe_rs
    else none
scheme_of (negsuc n) = none

pub record EncryptionEnvelope : Type 0 where
  pub scheme : ℤ
  pub key_id : Bytes
  pub iv_or_nonce : Bytes
  pub ciphertext : Bytes
  pub aad : Bytes

pub record AadBinding : Type 0 where
  pub tenant_id : Bytes
  pub agent_id : Bytes
  pub schema_version : ℕ
  pub record_type : Bytes

pub record GoalFrame : Type 0 where
  pub goal_id : Bytes
  pub description : Bytes
  pub status : ℤ
  pub created_at : Option Timestamp
  pub sub_goal_ids : List Bytes
  pub completed_by_task_id : Bytes

pub record PinnedFact : Type 0 where
  pub fact_id : Bytes
  pub content : Bytes
  pub relevance_score : F32
  pub pinned_at : Option Timestamp
  pub last_accessed_at : Option Timestamp
  pub source_turn_id : Bytes
  pub data_class : ℤ

pub record AgentStateRecord : Type 0 where
  pub tenant_id : Bytes
  pub agent_id : Bytes
  pub agent_version : Bytes
  pub status : ℤ
  pub last_frozen_at : Option Timestamp
  pub last_hydrated_at : Option Timestamp
  pub hydration_count : ℕ
  pub current_task_id : Bytes
  pub current_task_taint : Bytes
  pub working_memory_key : Bytes
  pub working_memory_version : ℕ
  pub total_turns : ℕ
  pub latest_turn_id : Bytes
  pub goal_stack : List GoalFrame
  pub pinned_facts : List PinnedFact
  pub lancedb_record_ids : List Bytes
  pub encryption : Option EncryptionEnvelope
  pub schema_version : ℕ

pub record MemorySlot : Type 0 where
  pub slot_index : ℕ
  pub content : Bytes
  pub relevance_score : F32
  pub last_accessed_at : Option Timestamp
  pub is_pinned : Bool
  pub source_id : Bytes
  pub data_class : ℤ

pub record WorkingMemoryRecord : Type 0 where
  pub tenant_id : Bytes
  pub agent_id : Bytes
  pub version : ℕ
  pub slots : List MemorySlot
  pub eviction_cursor : ℕ
  pub scratchpad_bytes : Bytes
  pub active_goal_ids : List Bytes
  pub snapshot_at : Option Timestamp
  pub encryption : Option EncryptionEnvelope
  pub schema_version : ℕ

pub record CheckpointRecord : Type 0 where
  pub tenant_id : Bytes
  pub agent_id : Bytes
  pub checkpoint_seq : ℕ
  pub trigger : ℤ
  pub pre_task_id : Bytes
  pub state_snapshot : Option AgentStateRecord
  pub memory_snapshot : Option WorkingMemoryRecord
  pub sha256_digest : Bytes
  pub created_at : Option Timestamp
  pub schema_version : ℕ
