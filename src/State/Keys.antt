-- ===== src/State/Keys.antt =====
-- crates/af-swarm-state/src/lib.rs: the crate's constants and the five builders of Dapr keys.
pub mod Decimal
pub mod Order
pub mod Segments
pub mod Families
pub mod Scans
use swarm_runtime.Prelude.{
  ℕ, zero, suc, ◌+◌, ◌-◌, ◌/◌, ◌%◌, List, [], ◌∷◌, ◌++◌, Bytes, codes, ◌==◌, if◌then◌else◌, length,
  replicate,
}

abbrev pub key_sep : Bytes
key_sep = codes "||"

abbrev pub key_prefix : Bytes
key_prefix = codes "afswarm"

abbrev pub max_working_memory_slots : ℕ
max_working_memory_slots = 32

abbrev pub max_pinned_facts : ℕ
max_pinned_facts = 64

abbrev pub max_goal_stack_depth : ℕ
max_goal_stack_depth = 32

abbrev pub latest_schema_version : ℕ
latest_schema_version = 1

-- The decimal digits of `n`, in front of `out`; a number has fewer digits than the fuel `n + 1`.
unfoldable pub decimal_onto : ℕ → ℕ → Bytes → Bytes
decimal_onto zero n out = out
decimal_onto (suc fuel) n out =
    let shown = (b'0' + n % 10) ∷ out in
    let rest = decimal_onto fuel (n / 10) shown in if n / 10 == 0 then shown else rest

-- `format!("{n:0width$}")`.
unfoldable pub zero_padded : ℕ → ℕ → Bytes
unfolding decimal_onto
zero_padded width n =
    let shown = decimal_onto (suc n) n [] in replicate (width - length shown) b'0' ++ shown

unfoldable pub agent_state_key : Bytes → Bytes → Bytes
agent_state_key tenant_id agent_id =
    tenant_id ++ (key_sep ++ (agent_id ++ (key_sep ++ codes "state")))

unfoldable pub working_memory_key : Bytes → Bytes → Bytes
working_memory_key tenant_id agent_id =
    tenant_id ++ (key_sep ++ (agent_id ++ (key_sep ++ codes "working_memory")))

unfoldable pub checkpoint_key : Bytes → Bytes → ℕ → Bytes
checkpoint_key tenant_id agent_id seq =
    tenant_id
    ++ (key_sep
        ++ (agent_id ++ (key_sep ++ (codes "checkpoint" ++ (key_sep ++ zero_padded 20 seq)))))

unfoldable pub conversation_turn_key : Bytes → Bytes → Bytes → Bytes
conversation_turn_key tenant_id agent_id turn_id =
    tenant_id ++ (key_sep ++ (agent_id ++ (key_sep ++ (codes "conv" ++ (key_sep ++ turn_id)))))

unfoldable pub tool_log_key : Bytes → Bytes → Bytes → Bytes
tool_log_key tenant_id agent_id log_id =
    tenant_id ++ (key_sep ++ (agent_id ++ (key_sep ++ (codes "tool_log" ++ (key_sep ++ log_id)))))
