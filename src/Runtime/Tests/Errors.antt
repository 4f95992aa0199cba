-- ===== src/Runtime/Tests/Errors.antt =====
-- Texts of the errors and identifiers of crates/af-swarm-runtime/src/agent.rs.
use swarm_runtime.Prelude.{◌+◌, Bytes, ◌++◌, ◌≡◌, refl, codes}
use swarm_runtime.Runtime.Identifiers.{new_agent_id, show_agent_id}
use swarm_runtime.Runtime.Errors.{
  DaprError, HydrationError, FreezeError, MigrationError, show_hydration, show_freeze,
  show_migration, em_dash,
}

hydration_text :
    show_hydration Bytes (λ s. s) (HydrationError.migration_failed 1 12 (codes "no field"))
    ≡ codes "snapshot migration failed from v1 to v12: no field"
unfolding show_hydration
hydration_text = refl

nested_text :
    show_hydration Bytes
      (λ s. s)
      (HydrationError.state_read_failed (DaprError.not_found (codes "a")))
    ≡ codes "failed to read snapshot from state store: agent not found in state store: a"
unfolding show_hydration
nested_text = refl

conflict_text :
    show_freeze Bytes (λ s. s) FreezeError.etag_conflict
    ≡ codes "ETag conflict on freeze " ++ (em_dash ++ codes " concurrent write detected")
unfolding show_freeze
conflict_text = refl

migration_text :
    show_migration (MigrationError.no_migration_path 0 1) ≡ codes "no migration path from v0 to v1"
unfolding show_migration
migration_text = refl

-- A source of randomness that counts, and UUIDs printed as nothing.
agent_text :
    show_agent_id (λ uuid. codes "7") (new_agent_id (λ n. (n, n + 1)) 7).0 ≡ codes "agent:7"
unfolding show_agent_id new_agent_id
agent_text = refl
