-- ===== src/State/Migrations.antt =====
-- crates/af-swarm-state/src/migrations.rs: the registry of schema migrations and the walk along them.
-- `apply_at` is `apply_to_latest` for any value of `LATEST_SCHEMA_VERSION`, which is 1 today and grows
-- with the schema. The `while` loop takes fuel; `none` means that it ran out.
pub mod Registry
pub mod Steps
pub mod Walk
pub mod Sound
use swarm_runtime.Prelude.{
  ℕ, zero, suc, Bytes, List, [], ◌∷◌, Option, none, some, codes, ltb, ◌==◌, if◌then◌else◌,
}
use swarm_runtime.State.Error.{StateResult, ok, err, panic, unsupported_schema_version, proto_error}
use swarm_runtime.State.Hydrate.{or_proto_error}
use swarm_runtime.State.Keys.{latest_schema_version}
use swarm_runtime.State.Proto.{AgentStateRecord, WorkingMemoryRecord}
use swarm_runtime.State.Store.{Platform}

-- `dyn StateMigration`, on encoded messages of type `Wire`.
pub record StateMigration (Wire : Type 0) : Type 0 where
  pub from_version : ℕ
  pub to_version : ℕ
  pub migrate_agent_state : Wire → StateResult AgentStateRecord
  pub migrate_working_memory : Wire → StateResult (Option WorkingMemoryRecord)

module _ {Wire : Type 0} where
  -- The trait's default for `migrate_working_memory`.
  unfoldable pub no_memory_migration : Wire → StateResult (Option WorkingMemoryRecord)
  no_memory_migration raw = ok none

  -- The `BTreeMap` as its entries in ascending order.
  unfoldable pub lookup : ℕ → List (ℕ × StateMigration Wire) → Option (StateMigration Wire)
  lookup v [] = none
  lookup v ((k, m) ∷ rest) = if k == v then some m else lookup v rest

  unfoldable pub insert :
      ℕ → StateMigration Wire → List (ℕ × StateMigration Wire) → List (ℕ × StateMigration Wire)
  insert v new [] = (v, new) ∷ []
  insert v new ((k, m) ∷ rest) =
      if k == v
      then (v, new) ∷ rest
      else if ltb v k
      then (v, new) ∷ (k, m) ∷ rest
      else (k, m) ∷ insert v new rest

pub record MigrationRegistry (Wire : Type 0) : Type 0 where
  pub migrations : List (ℕ × StateMigration Wire)

module _ {Wire : Type 0} where
  unfoldable pub new_registry : MigrationRegistry Wire
  new_registry = record { migrations = [] }

  unfoldable pub with_all_migrations : MigrationRegistry Wire
  unfolding new_registry
  with_all_migrations = new_registry

  -- `MigrationRegistry::default()`
  unfoldable pub default_registry : MigrationRegistry Wire
  unfolding with_all_migrations
  default_registry = with_all_migrations

  unfoldable pub register : MigrationRegistry Wire → StateMigration Wire → MigrationRegistry Wire
  unfolding insert
  register self migration = record {
    migrations = insert migration.from_version migration self.migrations;
  }

abbrev pub unsupported : ℕ → ℕ → StateResult AgentStateRecord
unsupported found max_known =
    err (unsupported_schema_version (codes "AgentStateRecord") found max_known)

module _ (E : Platform) (latest : ℕ) (registry : MigrationRegistry E.Wire) where
  -- `AgentStateRecord::decode(raw).map_err(StateError::ProtoError)`
  abbrev pub decoded : E.Wire → StateResult AgentStateRecord
  decoded raw = or_proto_error (E.decode_state raw)

  -- The `while` loop, and the decoding after it.
  unfoldable pub walk : ℕ → E.Wire → ℕ → Option (StateResult AgentStateRecord)
  walk zero current_raw version = none
  walk (suc fuel) current_raw version =
      if ltb version latest
      then elim (lookup version registry.migrations) [
        | none ↦ some (unsupported version latest)
        | some migration ↦ elim (migration.migrate_agent_state current_raw) [
          | ok migrated ↦ walk fuel (E.encode_state migrated) migration.to_version
          | err e ↦ some (err e)
          | panic ↦ some panic
        ]
      ]
      else some (decoded current_raw)

  unfoldable pub apply_at : ℕ → E.Wire → ℕ → Option (StateResult AgentStateRecord)
  unfolding walk lookup
  apply_at fuel raw current_version =
      if ltb latest current_version
      then some (unsupported current_version latest)
      else if current_version == latest
      then some (decoded raw)
      else walk fuel raw current_version

unfoldable pub apply_to_latest :
    (E : Platform)
    → MigrationRegistry E.Wire
    → ℕ
    → E.Wire
    → ℕ
    → Option (StateResult AgentStateRecord)
unfolding apply_at
apply_to_latest E = apply_at E latest_schema_version
