-- ===== src/State/Tests/Migrations.antt =====
-- The theorems on crates/af-swarm-state/src/migrations.rs, at two small registries over the store in
-- memory.
use swarm_runtime.Prelude.{
  ℕ, [], ◌∷◌, pos, none, some, ◌≡◌, refl, arith, ◌==◌, codes, Bool-cases, inl, inr,
}
use swarm_runtime.State.Error.{StateResult, ok}
use swarm_runtime.State.Proto.{AgentStateRecord}
use swarm_runtime.State.Migrations.{
  StateMigration, MigrationRegistry, lookup, register, new_registry, with_all_migrations, apply_at,
  apply_to_latest,
}
use swarm_runtime.State.Migrations.Walk.{
  Leads, Migrates, arrived, migrated, IsForward, apply_at_total,
}
use swarm_runtime.State.Migrations.Sound.{apply_at_sound}
use swarm_runtime.State.Tests.Platform.{Wire, state_wire, in_memory}

abbrev at_version : ℕ → AgentStateRecord
at_version v = record {
  tenant_id = codes "acme";
  agent_id = codes "senku";
  agent_version = codes "1.0";
  status = pos 1;
  last_frozen_at = none;
  last_hydrated_at = none;
  hydration_count = 0;
  current_task_id = [];
  current_task_taint = [];
  working_memory_key = [];
  working_memory_version = 0;
  total_turns = 0;
  latest_turn_id = [];
  goal_stack = [];
  pinned_facts = [];
  lancedb_record_ids = [];
  encryption = none;
  schema_version = v;
}

-- A migration that rewrites the record's version.
abbrev migration : ℕ → ℕ → StateMigration Wire
migration from to = record {
  from_version = from;
  to_version = to;
  migrate_agent_state = λ raw. ok (at_version to);
  migrate_working_memory = λ raw. ok none;
}

abbrev one_step : MigrationRegistry Wire
one_step = record { migrations = (1, migration 1 2) ∷ [] }

abbrev still : MigrationRegistry Wire
still = record { migrations = (1, migration 1 1) ∷ [] }

registered : register new_registry (migration 1 2) ≡ one_step
unfolding register new_registry
registered = refl

nothing_to_do :
    apply_to_latest in_memory with_all_migrations 5 (state_wire (at_version 1)) 1
    ≡ some (ok (at_version 1))
unfolding apply_to_latest with_all_migrations
nothing_to_do = refl

one_step-forward : IsForward in_memory 2 one_step
unfolding lookup
one_step-forward v m h = elim (Bool-cases (1 == v)) [
  | inl same ↦ ground arith
  | inr other ↦ absurd (ground arith)
]

one_step-Leads : Leads in_memory 2 one_step (state_wire (at_version 1)) 1 (ok (at_version 2))
unfolding lookup
one_step-Leads =
    migrated (state_wire (at_version 1)) 1 (migration 1 2) (at_version 2) _ (omega arith) refl refl
      (arrived (state_wire (at_version 2)) 2 _ (omega arith) refl)

apply_at_total_example :
    (r : StateResult AgentStateRecord) × (apply_at in_memory 2 one_step 2
        (state_wire (at_version 1))
        1
      ≡ some r)
    × Migrates in_memory 2 one_step (state_wire (at_version 1)) 1 r
apply_at_total_example =
    apply_at_total in_memory 2 one_step 2 (state_wire (at_version 1)) 1 one_step-forward
      (omega arith)

apply_at_sound_example :
    Migrates in_memory 2 one_step (state_wire (at_version 1)) 1 (ok (at_version 2))
    × ((r : StateResult AgentStateRecord)
        → Migrates in_memory 2 one_step (state_wire (at_version 1)) 1 r
        → ok (at_version 2) ≡ r)
unfolding apply_at
apply_at_sound_example =
    apply_at_sound in_memory 2 one_step 2 (state_wire (at_version 1)) 1 (ok (at_version 2)) refl
