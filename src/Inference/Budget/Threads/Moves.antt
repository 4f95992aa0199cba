-- ===== src/Inference/Budget/Threads/Moves.antt =====
-- What the single statements of crates/af-inference-client/src/budget.rs do to what a tenant has used.
use swarm_runtime.Prelude.{
  ℕ, ◌≤◌, Bytes, List, [], ◌∷◌, ◌≡◌, refl, arith, eq_bytes, eq_bytes→eq, if◌then◌else◌, add64,
  Bool-cases, inl, inr,
}
use swarm_runtime.Inference.Budget.{ClaudeBudgetGate, used_by, add_tenant}
use swarm_runtime.Inference.Budget.Usage.{usage, used_or_zero, used_by-charge}
use swarm_runtime.Inference.Budget.Threads.{store_entry}

pub usage-store :
    (k t : Bytes) (l : List (Bytes × ℕ))
    → used_or_zero (used_by t (store_entry k l)) ≤ used_or_zero (used_by t l)
unfolding store_entry used_by
usage-store k t [] = omega arith
usage-store k t ((j, used) ∷ l) = ground (arith, usage-store k t l)

pub usage-add :
    (gate : ClaudeBudgetGate) (s t : Bytes) (n : ℕ)
    → usage (add_tenant gate s n) t
      ≡ (if eq_bytes s t then add64 (usage gate t) n else usage gate t)
unfolding add_tenant
usage-add gate s t n = elim (Bool-cases (eq_bytes s t)) [
  | inl same ↦
      let e = eq_bytes→eq s t same in rw (used_by-charge t s n gate.tenant_used, same, e) refl
  | inr other ↦ rw (used_by-charge t s n gate.tenant_used, other) refl
]
