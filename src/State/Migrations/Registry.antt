-- ===== src/State/Migrations/Registry.antt =====
-- The registry of crates/af-swarm-state/src/migrations.rs as a map from source versions.
use swarm_runtime.Prelude.{ℕ, suc, ◌≤◌, List, [], ◌∷◌, some, ◌≡◌, ◌==◌, if◌then◌else◌, arith, refl}
use swarm_runtime.State.Migrations.{StateMigration, MigrationRegistry, lookup, insert, register}

module _ {Wire : Type 0} where
  lookup-insert :
      (v w : ℕ) (new : StateMigration Wire) (l : List (ℕ × StateMigration Wire))
      → lookup w (insert v new l) ≡ (if v == w then some new else lookup w l)
  unfolding lookup insert
  lookup-insert v w new [] = refl
  lookup-insert v w new ((k, m) ∷ l) = ground (arith, lookup-insert v w new l)

  -- A registration is found under its source version and replaces one that was there; the others
  -- stay.
  pub lookup-register :
      (registry : MigrationRegistry Wire) (new : StateMigration Wire) (v : ℕ)
      → lookup v (register registry new).migrations
        ≡ (if new.from_version == v then some new else lookup v registry.migrations)
  unfolding register
  lookup-register registry new v = lookup-insert new.from_version v new registry.migrations

  -- The keys ascend strictly from a bound on.
  abbrev pub IsAscending : ℕ → List (ℕ × StateMigration Wire) → Type 0
  IsAscending lo [] = Unit
  IsAscending lo ((k, m) ∷ l) = (lo ≤ k) × IsAscending (suc k) l

  insert-IsAscending :
      (lo v : ℕ) (new : StateMigration Wire) (l : List (ℕ × StateMigration Wire))
      → lo ≤ v
      → IsAscending lo l
      → IsAscending lo (insert v new l)
  unfolding insert
  insert-IsAscending lo v new [] h a = (h, tt)
  insert-IsAscending lo v new ((k, m) ∷ l) h (hk, a) =
      ground (arith, insert-IsAscending (suc k) v new l)

  -- The entries stay in ascending order, one for each version.
  pub register-IsAscending :
      (registry : MigrationRegistry Wire) (new : StateMigration Wire)
      → IsAscending 0 registry.migrations
      → IsAscending 0 (register registry new).migrations
  unfolding register
  register-IsAscending registry new =
      insert-IsAscending 0 new.from_version new registry.migrations (omega arith)
