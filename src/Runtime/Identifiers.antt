-- ===== src/Runtime/Identifiers.antt =====
-- The identifiers of crates/af-swarm-runtime/src/agent.rs. The uuid crate is a parameter: `Uuid::new_v4`
-- takes its bits from a source of randomness, and `to_string` prints a UUID.
use swarm_runtime.Prelude.{ℕ, Bytes, ◌++◌, codes}
use swarm_runtime.Runtime.Agents.{AgentId, TaskId, agent_id, task_id}

module _ {Random : Type 0} (new_v4 : Random → ℕ × Random) where
  unfoldable pub new_agent_id : Random → AgentId × Random
  new_agent_id r = let (uuid, r') = new_v4 r in (agent_id uuid, r')

  unfoldable pub new_task_id : Random → TaskId × Random
  new_task_id r = let (uuid, r') = new_v4 r in (task_id uuid, r')

  unfoldable pub default_agent_id : Random → AgentId × Random
  unfolding new_agent_id
  default_agent_id r = new_agent_id r

  unfoldable pub default_task_id : Random → TaskId × Random
  unfolding new_task_id
  default_task_id r = new_task_id r

-- `AgentId`'s `Display`.
unfoldable pub show_agent_id : (ℕ → Bytes) → AgentId → Bytes
show_agent_id to_string (agent_id uuid) = codes "agent:" ++ to_string uuid
