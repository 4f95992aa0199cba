-- ===== src/State/Migrations/Sound.antt =====
-- What the walk of crates/af-swarm-state/src/migrations.rs returned, if it returned.
use swarm_runtime.Prelude.{
  ℕ, zero, suc, ◌≤◌, ◌<◌, some, ◌≡◌, inl, inr, refl, sym, ◌∙◌, ltb, ltb→lt, lt→ltb, arith,
  Bool-cases, Option-cases,
}
use swarm_runtime.State.Error.{StateResult, ok, err, panic}
use swarm_runtime.State.Proto.{AgentStateRecord}
use swarm_runtime.State.Store.{Platform}
use swarm_runtime.State.Migrations.{
  StateMigration, MigrationRegistry, lookup, unsupported, walk, apply_at,
}
use swarm_runtime.State.Migrations.Steps.{
  walk_arrived, walk_missing, walk_migrated, walk_failed, walk_panicked,
}
use swarm_runtime.State.Migrations.Walk.{
  Leads, arrived, missing, failed, panicked, migrated, Migrates, apply_at_le, apply_at_gt,
}

module _ (E : Platform) (latest : ℕ) (registry : MigrationRegistry E.Wire) where
  the_some : {r q : StateResult AgentStateRecord} → some r ≡ some q → r ≡ q
  the_some h = cc

  no_fuel :
      (raw : E.Wire) (v : ℕ) (q : StateResult AgentStateRecord)
      → walk E latest registry 0 raw v ≡ some q
      → ⊥
  unfolding walk
  no_fuel raw v q h = cc

  -- A round that went on by a migration, by the result of that.
  migrated-Leads :
      (fuel : ℕ) (raw : E.Wire) (v : ℕ) (m : StateMigration E.Wire)
      (r q : StateResult AgentStateRecord)
      → v < latest
      → lookup v registry.migrations ≡ some m
      → m.migrate_agent_state raw ≡ r
      → walk E latest registry (suc fuel) raw v ≡ some q
      → ((s : AgentStateRecord)
          → walk E latest registry fuel (E.encode_state s) m.to_version ≡ some q
          → Leads E latest registry (E.encode_state s) m.to_version q)
      → Leads E latest registry raw v q
  migrated-Leads fuel raw v m (ok s) q lt found g h rest = migrated raw v m s q lt found g (
      rest s
        (sym (walk_migrated E latest registry fuel raw v m (lt→ltb v latest lt) found s g) ∙ h))
  migrated-Leads fuel raw v m (err e) q lt found g h rest =
      let same : err e ≡ q =
        the_some
          (sym (walk_failed E latest registry fuel raw v m (lt→ltb v latest lt) found e g) ∙ h) in
      rw (← same) (failed raw v m e lt found g)
  migrated-Leads fuel raw v m panic q lt found g h rest =
      let same : panic ≡ q =
        the_some
          (sym (walk_panicked E latest registry fuel raw v m (lt→ltb v latest lt) found g) ∙ h) in
      rw (← same) (panicked raw v m lt found g)

  walk-Leads :
      (fuel : ℕ) (raw : E.Wire) (v : ℕ) (q : StateResult AgentStateRecord)
      → walk E latest registry fuel raw v ≡ some q
      → Leads E latest registry raw v q
  walk-Leads zero raw v q h = absurd (no_fuel raw v q h)
  walk-Leads (suc fuel) raw v q h = elim (Bool-cases (ltb v latest)) [
    | inr done ↦
        arrived raw v q (ground arith)
          (the_some (sym (walk_arrived E latest registry fuel raw v done) ∙ h))
    | inl more ↦ elim (Option-cases (lookup v registry.migrations)) [
      | inl gap ↦
          missing raw v q (ltb→lt v latest more) gap
            (the_some (sym (walk_missing E latest registry fuel raw v more gap) ∙ h))
      | inr (m, found) ↦
          migrated-Leads fuel raw v m (m.migrate_agent_state raw) q (ltb→lt v latest more) found
            refl h (λ s. walk-Leads fuel (E.encode_state s) m.to_version q)
    ]
  ]

  -- The relation has one result.
  Leads-unique :
      (fuel : ℕ) (raw : E.Wire) (v : ℕ) (r : StateResult AgentStateRecord)
      → Leads E latest registry raw v r
      → (q : StateResult AgentStateRecord) → walk E latest registry fuel raw v ≡ some q
      → q ≡ r
  unfolding walk
  Leads-unique zero raw v r l q h = cc
  Leads-unique (suc fuel) _ _ _ (arrived raw v r ge e) q h = ground arith
  Leads-unique (suc fuel) _ _ _ (missing raw v r lt gap e) q h = ground arith
  Leads-unique (suc fuel) _ _ _ (failed raw v m e lt found g) q h = ground arith
  Leads-unique (suc fuel) _ _ _ (panicked raw v m lt found g) q h = ground arith
  Leads-unique (suc fuel) _ _ _ (migrated raw v m s r lt found g l) q h =
      ground (arith, Leads-unique fuel (E.encode_state s) m.to_version r l q)

  -- The first test of the call decodes a record of the latest version without a round.
  apply_at_zero :
      (raw : E.Wire) (v : ℕ) (q : StateResult AgentStateRecord)
      → apply_at E latest registry 0 raw v ≡ some q
      → apply_at E latest registry 1 raw v ≡ some q
  unfolding apply_at walk
  apply_at_zero raw v q h = ground arith

  sound_from_one :
      (fuel : ℕ) (raw : E.Wire) (v : ℕ) (q : StateResult AgentStateRecord)
      → apply_at E latest registry (suc fuel) raw v ≡ some q
      → Migrates E latest registry raw v q
        × ((r : StateResult AgentStateRecord) → Migrates E latest registry raw v r → q ≡ r)
  sound_from_one fuel raw v q h = elim (Bool-cases (ltb latest v)) [
    | inl newer ↦
        let gt = ltb→lt latest v newer in
        let refused : q ≡ unsupported v latest =
          sym (the_some (sym (apply_at_gt E latest registry (suc fuel) raw v gt) ∙ h)) in
        (((λ _. refused), (λ le. absurd (omega arith))), λ r leads. refused ∙ sym (leads.0 gt))
    | inr older ↦
        let le : v ≤ latest = ground arith in
        let walked = sym (apply_at_le E latest registry fuel raw v le) ∙ h in
        (
          ((λ gt. absurd (omega arith)), (λ _. walk-Leads (suc fuel) raw v q walked)),
          λ r leads. Leads-unique (suc fuel) raw v r (leads.1 le) q walked,
        )
  ]

  -- Whatever the registry and the fuel, a call that returns has refused a record that is newer than the
  -- code, and has the result that following the registered migrations from any other leads to; and that
  -- is the only result that they lead to.
  pub apply_at_sound :
      (fuel : ℕ) (raw : E.Wire) (v : ℕ) (q : StateResult AgentStateRecord)
      → apply_at E latest registry fuel raw v ≡ some q
      → Migrates E latest registry raw v q
        × ((r : StateResult AgentStateRecord) → Migrates E latest registry raw v r → q ≡ r)
  apply_at_sound zero raw v q h = sound_from_one 0 raw v q (apply_at_zero raw v q h)
  apply_at_sound (suc fuel) raw v q h = sound_from_one fuel raw v q h
