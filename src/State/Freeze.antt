-- ===== src/State/Freeze.antt =====
-- crates/af-swarm-state/src/freeze.rs: writing an agent's working memory, its state and a checkpoint.
pub mod Writes
pub mod Outcomes
pub mod Progress
pub mod Checkpoints
use swarm_runtime.Prelude.{ℕ, ◌+◌, Bytes, [], ◌∷◌, Option, none, some, add64, as_i64, pos}
use swarm_runtime.State.Exec.{Exec, pure, lift, unwrap_or_else, ◌>>=◌, ◌>>◌}
use swarm_runtime.State.Keys.{
  agent_state_key, working_memory_key, checkpoint_key, latest_schema_version,
}
use swarm_runtime.State.Proto.{
  Timestamp, AgentStateRecord, WorkingMemoryRecord, CheckpointRecord, CheckpointTrigger,
  trigger_code, status_code, frozen,
}
use swarm_runtime.State.Store.{ETag, TtlPolicy, no_ttl, seconds, Duration, Platform}

pub record FreezeInput : Type 0 where
  pub tenant_id : Bytes
  pub agent_id : Bytes
  pub state : AgentStateRecord
  pub working_memory : WorkingMemoryRecord
  pub state_etag : ETag
  pub memory_etag : ETag
  pub checkpoint_trigger : CheckpointTrigger

-- The manager's configuration; its store is that of the platform.
pub record AgentFreezeManager : Type 0 where
  pub max_retained_checkpoints : ℕ

unfoldable pub new_freeze_manager : AgentFreezeManager
new_freeze_manager = record { max_retained_checkpoints = 5 }

abbrev pub zero_duration : Duration
zero_duration = record { secs = 0; subsec_nanos = 0 }

-- `.unwrap_or_default()`
abbrev pub or_default : Option Duration → Duration
or_default none = zero_duration
or_default (some d) = d

abbrev pub timestamp_of : Duration → Timestamp
timestamp_of d = record { seconds = as_i64 d.secs; nanos = pos d.subsec_nanos }

-- The working memory that a freeze writes: steps 1 and 2.
unfoldable pub frozen_memory : WorkingMemoryRecord → Timestamp → WorkingMemoryRecord
frozen_memory m stamp = record m {
  version = add64 m.version 1;
  snapshot_at = some stamp;
  schema_version = latest_schema_version;
}

-- The state that a freeze writes: steps 3 and 4.
unfoldable pub frozen_state : AgentStateRecord → ℕ → Timestamp → AgentStateRecord
frozen_state s new_mem_version stamp = record s {
  working_memory_version = new_mem_version;
  status = status_code frozen;
  last_frozen_at = some stamp;
  current_task_id = [];
  current_task_taint = [];
  schema_version = latest_schema_version;
}

module _ (E : Platform) where
  unfoldable pub current_timestamp : Exec E.World Timestamp
  current_timestamp w = let (t, w') = E.now w in pure (timestamp_of (or_default t)) w'

  -- The checkpoint's sequence number is the Unix time in seconds.
  unfoldable pub unix_secs : Exec E.World ℕ
  unix_secs w = let (t, w') = E.now w in pure (or_default t).secs w'

  unfoldable pub checkpoint_of : FreezeInput → ℕ → Bytes → Timestamp → CheckpointRecord
  checkpoint_of input seq digest stamp = record {
    tenant_id = input.tenant_id;
    agent_id = input.agent_id;
    checkpoint_seq = seq;
    trigger = trigger_code input.checkpoint_trigger;
    pre_task_id = [];
    state_snapshot = some input.state;
    memory_snapshot = some input.working_memory;
    sha256_digest = digest;
    created_at = some stamp;
    schema_version = latest_schema_version;
  }

  unfoldable pub write_checkpoint : FreezeInput → E.Wire → E.Wire → Exec E.World ℕ
  write_checkpoint input state_bytes mem_bytes = do
    seq ← unix_secs
    let digest = E.sha256 (state_bytes ∷ mem_bytes ∷ [])
    stamp ← current_timestamp
    E.save_state (checkpoint_key input.tenant_id input.agent_id seq)
        (E.encode_checkpoint (checkpoint_of input seq digest stamp)) none no_ttl
    pure seq

  -- Steps 3 to 6, with the working memory written.
  unfoldable pub freeze_state : FreezeInput → E.Wire → Exec E.World ℕ
  freeze_state input mem_bytes = do
    stamp ← current_timestamp
    let state = frozen_state input.state input.working_memory.version stamp
    let state_bytes = E.encode_state state
    E.save_state (agent_state_key input.tenant_id input.agent_id) state_bytes
        (some input.state_etag) no_ttl
    unwrap_or_else 0 (write_checkpoint (record input { state = state }) state_bytes mem_bytes)

  unfoldable pub freeze : FreezeInput → Exec E.World ℕ
  freeze input = do
    stamp ← current_timestamp
    let memory = frozen_memory input.working_memory stamp
    let mem_bytes = E.encode_memory memory
    E.save_state (working_memory_key input.tenant_id input.agent_id) mem_bytes
        (some input.memory_etag) (seconds 86400)
    freeze_state (record input { working_memory = memory }) mem_bytes
