-- ===== src/State/Tests/Lifecycle.antt =====
-- Freeze and hydration of crates/af-swarm-state on the store in memory: one agent, and the theorems at
-- it.
use swarm_runtime.Prelude.{
  Bytes, [], ◌∷◌, false, Option, none, some, ◌≡◌, refl, codes, pos, eq_bytes, if◌then◌else◌,
}
use swarm_runtime.State.Error.{ok, err, panic, etag_conflict, invalid_input, no_state_record}
use swarm_runtime.State.Exec.{Exec}
use swarm_runtime.State.Keys.{agent_state_key, working_memory_key, checkpoint_key, zero_padded}
use swarm_runtime.State.Proto.{
  Timestamp, AgentStateRecord, WorkingMemoryRecord, status_code, active, draining,
}
use swarm_runtime.State.Proto
use swarm_runtime.State.Store.{ETag, StateRecord}
use swarm_runtime.State.Freeze.{
  FreezeInput, freeze, freeze_state, frozen_memory, frozen_state, current_timestamp,
  write_checkpoint, unix_secs, checkpoint_of,
}
use swarm_runtime.State.Hydrate.{
  hydrate_with, hydrate, decode_found, stale_active_guard, busy_unless_stale, load_working_memory,
  age_of, recover_from_checkpoint, new_hydration_manager,
}
use swarm_runtime.State.Tests.Platform.{World, Wire, state_wire, memory_wire, in_memory}

abbrev pub t1 : Bytes
t1 = codes "t1"

abbrev pub a1 : Bytes
a1 = codes "a1"

abbrev pub stored_state : AgentStateRecord
stored_state = record {
  tenant_id = t1;
  agent_id = a1;
  agent_version = codes "1.0";
  status = status_code draining;
  last_frozen_at = none;
  last_hydrated_at = some (record { seconds = pos 900; nanos = pos 0 });
  hydration_count = 3;
  current_task_id = codes "task-9";
  current_task_taint = 1 ∷ [];
  working_memory_key = [];
  working_memory_version = 6;
  total_turns = 12;
  latest_turn_id = [];
  goal_stack = [];
  pinned_facts = [];
  lancedb_record_ids = [];
  encryption = none;
  schema_version = 1;
}

abbrev pub stored_memory : WorkingMemoryRecord
stored_memory = record {
  tenant_id = t1;
  agent_id = a1;
  version = 6;
  slots = [];
  eviction_cursor = 2;
  scratchpad_bytes = codes "notes";
  active_goal_ids = [];
  snapshot_at = none;
  encryption = none;
  schema_version = 1;
}

abbrev pub cell : Wire → ETag → Option (StateRecord Wire)
cell v tag = some (record { value = v; etag = tag })

-- The agent's two records, and the clock at 1000 s.
abbrev pub before : World
before = record {
  cells = λ k.
      if eq_bytes k (codes "t1||a1||state")
      then cell (state_wire stored_state) (codes "s")
      else if eq_bytes k (codes "t1||a1||working_memory")
      then cell (memory_wire stored_memory) (codes "m")
      else none;
  lives = λ k. if eq_bytes k (codes "t1||a1||working_memory") then some 86400 else none;
  clock = 1000;
}

abbrev pub input : FreezeInput
input = record {
  tenant_id = t1;
  agent_id = a1;
  state = stored_state;
  working_memory = stored_memory;
  state_etag = codes "s";
  memory_etag = codes "m";
  checkpoint_trigger = Proto.freeze;
}

abbrev pub stale_input : FreezeInput
stale_input = record input { state_etag = codes "old" }

-- A recovery that has nothing to offer.
abbrev pub no_recovery : Bytes → Bytes → Exec World WorkingMemoryRecord
no_recovery t a w = (panic, w)

unfoldable pub code : Unit {0}
unfolding freeze freeze_state frozen_memory frozen_state current_timestamp write_checkpoint
    unix_secs checkpoint_of hydrate_with hydrate decode_found stale_active_guard busy_unless_stale
    load_working_memory age_of recover_from_checkpoint new_hydration_manager agent_state_key
    working_memory_key checkpoint_key zero_padded
code = tt

freeze_test : (freeze in_memory input before).0 ≡ ok 1000
unfolding code
freeze_test = refl

stale_freeze_test :
    (freeze in_memory stale_input before).0 ≡ err (etag_conflict (codes "t1||a1||state"))
unfolding code
stale_freeze_test = refl

-- The records of before, which agree, are hydrated as they stand.
hydrate_test :
    (hydrate in_memory new_hydration_manager t1 a1 before).0
    ≡ ok (record {
      state = stored_state;
      working_memory = stored_memory;
      recovered_from_checkpoint = false;
    })
unfolding code
hydrate_test = refl

missing_test :
    (hydrate in_memory new_hydration_manager t1 (codes "b") before).0
    ≡ err (invalid_input (no_state_record (codes "b")))
unfolding code
missing_test = refl

-- After the torn write the committed recovery panics.
torn_hydrate_test :
    (hydrate in_memory new_hydration_manager t1 a1 (freeze in_memory stale_input before).1).0
    ≡ panic
unfolding code
torn_hydrate_test = refl
