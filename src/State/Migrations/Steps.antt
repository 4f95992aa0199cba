-- ===== src/State/Migrations/Steps.antt =====
-- One round of the loop in crates/af-swarm-state/src/migrations.rs, for each way that it can go.
use swarm_runtime.Prelude.{ℕ, suc, none, some, ◌≡◌, true, false, ltb}
use swarm_runtime.State.Error.{StateError, ok, err, panic}
use swarm_runtime.State.Proto.{AgentStateRecord}
use swarm_runtime.State.Store.{Platform}
use swarm_runtime.State.Migrations.{
  StateMigration, MigrationRegistry, lookup, unsupported, decoded, walk,
}

module _ (E : Platform) (latest : ℕ) (registry : MigrationRegistry E.Wire) where
  module _ (fuel : ℕ) (raw : E.Wire) (v : ℕ) where
    pub walk_arrived :
        ltb v latest ≡ false
        → walk E latest registry (suc fuel) raw v ≡ some (decoded E latest registry raw)
    unfolding walk
    walk_arrived h = rw h

    pub walk_missing :
        ltb v latest ≡ true
        → lookup v registry.migrations ≡ none
        → walk E latest registry (suc fuel) raw v ≡ some (unsupported v latest)
    unfolding walk
    walk_missing h l = rw (h, l)

    module _ (m : StateMigration E.Wire) (h : ltb v latest ≡ true)
        (l : lookup v registry.migrations ≡ some m) where
      pub walk_migrated :
          (s : AgentStateRecord)
          → m.migrate_agent_state raw ≡ ok s
          → walk E latest registry (suc fuel) raw v
            ≡ walk E latest registry fuel (E.encode_state s) m.to_version
      unfolding walk
      walk_migrated s g = rw (h, l, g)

      pub walk_failed :
          (e : StateError)
          → m.migrate_agent_state raw ≡ err e
          → walk E latest registry (suc fuel) raw v ≡ some (err e)
      unfolding walk
      walk_failed e g = rw (h, l, g)

      pub walk_panicked :
          m.migrate_agent_state raw ≡ panic → walk E latest registry (suc fuel) raw v ≡ some panic
      unfolding walk
      walk_panicked g = rw (h, l, g)
