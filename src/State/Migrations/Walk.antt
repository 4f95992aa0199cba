-- ===== src/State/Migrations/Walk.antt =====
-- The walk of crates/af-swarm-state/src/migrations.rs: when it ends, and what it returns.
use swarm_runtime.Prelude.{
  ℕ, zero, suc, ◌-◌, ◌≤◌, ◌<◌, none, some, ◌≡◌, inl, inr, refl, ◌∙◌, ltb, ltb→lt, lt→ltb, arith,
  Bool-cases, Option-cases,
}
use swarm_runtime.State.Error.{StateResult, StateError, ok, err, panic}
use swarm_runtime.State.Proto.{AgentStateRecord}
use swarm_runtime.State.Store.{Platform}
use swarm_runtime.State.Migrations.{
  StateMigration, MigrationRegistry, lookup, unsupported, decoded, walk, apply_at,
}
use swarm_runtime.State.Migrations.Steps.{
  walk_arrived, walk_missing, walk_migrated, walk_failed, walk_panicked,
}

module _ (E : Platform) (latest : ℕ) (registry : MigrationRegistry E.Wire) where
  -- What following the registered migrations from `raw` at a version leads to, with no fuel.
  pub data Leads : E.Wire → ℕ → StateResult AgentStateRecord → Type 0 where
    arrived :
        (raw : E.Wire) (v : ℕ) (r : StateResult AgentStateRecord)
        → latest ≤ v
        → decoded E latest registry raw ≡ r
        → Leads raw v r
    missing :
        (raw : E.Wire) (v : ℕ) (r : StateResult AgentStateRecord)
        → v < latest
        → lookup v registry.migrations ≡ none
        → unsupported v latest ≡ r
        → Leads raw v r
    failed :
        (raw : E.Wire) (v : ℕ) (m : StateMigration E.Wire) (e : StateError)
        → v < latest
        → lookup v registry.migrations ≡ some m
        → m.migrate_agent_state raw ≡ err e
        → Leads raw v (err e)
    panicked :
        (raw : E.Wire) (v : ℕ) (m : StateMigration E.Wire)
        → v < latest
        → lookup v registry.migrations ≡ some m
        → m.migrate_agent_state raw ≡ panic
        → Leads raw v panic
    migrated :
        (raw : E.Wire) (v : ℕ) (m : StateMigration E.Wire) (s : AgentStateRecord)
        (r : StateResult AgentStateRecord)
        → v < latest
        → lookup v registry.migrations ≡ some m
        → m.migrate_agent_state raw ≡ ok s
        → Leads (E.encode_state s) m.to_version r
        → Leads raw v r

  -- Every registered migration raises the version.
  abbrev pub IsForward : Type 0
  IsForward =
      (v : ℕ) (m : StateMigration E.Wire) → lookup v registry.migrations ≡ some m → v < m.to_version

  Ends : ℕ → E.Wire → ℕ → Type 0
  Ends fuel raw v =
      (r : StateResult AgentStateRecord) × (walk E latest registry fuel raw v ≡ some r)
      × Leads raw v r

  -- A round on a migration that is there, by its result.
  Ends-step :
      (fuel : ℕ) (raw : E.Wire) (v : ℕ) (m : StateMigration E.Wire)
      (r : StateResult AgentStateRecord)
      → v < latest
      → lookup v registry.migrations ≡ some m
      → m.migrate_agent_state raw ≡ r
      → ((s : AgentStateRecord) → Ends fuel (E.encode_state s) m.to_version)
      → Ends (suc fuel) raw v
  unfolding Ends
  Ends-step fuel raw v m (ok s) lt found g rest =
      let (r, ends, leads) = rest s in
      (
        r,
        walk_migrated E latest registry fuel raw v m (lt→ltb v latest lt) found s g ∙ ends,
        migrated raw v m s r lt found g leads,
      )
  Ends-step fuel raw v m (err e) lt found g rest = (
    err e,
    walk_failed E latest registry fuel raw v m (lt→ltb v latest lt) found e g,
    failed raw v m e lt found g,
  )
  Ends-step fuel raw v m panic lt found g rest = (
    panic,
    walk_panicked E latest registry fuel raw v m (lt→ltb v latest lt) found g,
    panicked raw v m lt found g,
  )

  walk-Ends :
      (forward : IsForward) (fuel : ℕ) (raw : E.Wire) (v : ℕ) → latest - v < fuel → Ends fuel raw v
  unfolding Ends
  walk-Ends forward zero raw v h = absurd (omega arith)
  walk-Ends forward (suc fuel) raw v h = elim (Bool-cases (ltb v latest)) [
    | inr done ↦ (
      decoded E latest registry raw,
      walk_arrived E latest registry fuel raw v done,
      arrived raw v _ (ground arith) refl,
    )
    | inl more ↦ elim (Option-cases (lookup v registry.migrations)) [
      | inl gap ↦ (
        unsupported v latest,
        walk_missing E latest registry fuel raw v more gap,
        missing raw v _ (ltb→lt v latest more) gap refl,
      )
      | inr (m, found) ↦
          Ends-step fuel raw v m (m.migrate_agent_state raw) (ltb→lt v latest more) found refl (λ s.
            let up = forward v m found in
            let lt = ltb→lt v latest more in
            walk-Ends forward fuel (E.encode_state s) m.to_version (omega arith))
    ]
  ]

  -- What the code promises of a record at some version: one that is too new is refused, and any
  -- other goes where the registered migrations lead.
  abbrev pub Migrates : E.Wire → ℕ → StateResult AgentStateRecord → Type 0
  Migrates raw v r = (latest < v → r ≡ unsupported v latest) × (v ≤ latest → Leads raw v r)

  pub apply_at_le :
      (fuel : ℕ) (raw : E.Wire) (v : ℕ)
      → v ≤ latest
      → apply_at E latest registry (suc fuel) raw v ≡ walk E latest registry (suc fuel) raw v
  unfolding apply_at
  apply_at_le fuel raw v h = ground arith

  pub apply_at_gt :
      (fuel : ℕ) (raw : E.Wire) (v : ℕ)
      → latest < v
      → apply_at E latest registry fuel raw v ≡ some (unsupported v latest)
  unfolding apply_at
  apply_at_gt fuel raw v h = ground arith

  -- Where every registered migration raises the version, fuel for the versions left is enough: the
  -- call ends. A record newer than the code is refused, and any other ends where following the
  -- registered migrations leads.
  pub apply_at_total :
      (fuel : ℕ) (raw : E.Wire) (v : ℕ)
      → IsForward
      → latest - v < fuel
      → (r : StateResult AgentStateRecord) × (apply_at E latest registry fuel raw v ≡ some r)
        × Migrates raw v r
  unfolding Ends
  apply_at_total zero raw v forward h = absurd (omega arith)
  apply_at_total (suc fuel) raw v forward h = elim (Bool-cases (ltb latest v)) [
    | inl newer ↦
        let gt = ltb→lt latest v newer in
        (
          unsupported v latest,
          apply_at_gt (suc fuel) raw v gt,
          ((λ _. refl), (λ le. absurd (omega arith))),
        )
    | inr older ↦
        let le : v ≤ latest = ground arith in
        let (r, ends, leads) = walk-Ends forward (suc fuel) raw v h in
        (r, apply_at_le fuel raw v le ∙ ends, ((λ gt. absurd (omega arith)), (λ _. leads)))
  ]

  -- A registered migration that does not move on keeps the loop going for good: no fuel is enough.
  pub walk_stuck :
      (fuel : ℕ) (raw : E.Wire) (v : ℕ) (m : StateMigration E.Wire)
      → v < latest
      → lookup v registry.migrations ≡ some m
      → m.to_version ≡ v
      → ((w : E.Wire) → (s : AgentStateRecord) × (m.migrate_agent_state w ≡ ok s))
      → apply_at E latest registry fuel raw v ≡ none
  unfolding apply_at
  walk_stuck fuel raw v m lt found still works = ground (arith, stuck fuel raw)
    where
      stuck : (fuel : ℕ) (raw : E.Wire) → walk E latest registry fuel raw v ≡ none
      stuck zero raw = refl
      stuck (suc fuel) raw =
          let (s, g) = works raw in
          walk_migrated E latest registry fuel raw v m (lt→ltb v latest lt) found s g
          ∙ rw still (stuck fuel (E.encode_state s))
