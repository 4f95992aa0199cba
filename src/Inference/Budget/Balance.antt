-- ===== src/Inference/Budget/Balance.antt =====
-- The two counters of crates/af-inference-client/src/budget.rs against each other, where the calls do
-- not overlap and where a reset comes between the two statements of one.
use swarm_runtime.Prelude.{
  ℕ, Bytes, List, [], ◌∷◌, ◌≡◌, ◌<◌, ◌+◌, ◌%◌, refl, arith, leb, u64_mod, Bool-cases, inl, inr,
  eq_bytes_refl,
}
use swarm_runtime.Inference.Budget.{
  ClaudeBudgetGate, new, charge, store_zeros, add_global, add_tenant, record_usage, has_capacity,
  maybe_reset_window, elapsed_secs,
}
use swarm_runtime.Inference.Budget.Usage.{usage, used_by-charge}
use swarm_runtime.Inference.Budget.Window.{IsExpired, reset-expired, usage-zeros}

abbrev pub total_used : List (Bytes × ℕ) → ℕ
total_used [] = 0
total_used ((k, used) ∷ l) = used + total_used l

-- The global counter is the sum of the tenants' counters, modulo 2^64.
abbrev pub IsBalanced : ClaudeBudgetGate → Type 0
IsBalanced gate = gate.global_used ≡ total_used gate.tenant_used % u64_mod

-- The states that calls which do not overlap lead to.
pub data IsReachable : ClaudeBudgetGate → Type 0 where
  started : (global_limit tenant_limit now : ℕ) → IsReachable (new global_limit tenant_limit now)
  asked :
      (gate : ClaudeBudgetGate) (t : Bytes) (now : ℕ)
      → IsReachable gate
      → IsReachable (has_capacity gate t now).1
  recorded :
      (gate : ClaudeBudgetGate) (t : Bytes) (tokens : ℕ)
      → IsReachable gate
      → IsReachable (record_usage gate t tokens)

total-charge :
    (t : Bytes) (n : ℕ) (l : List (Bytes × ℕ))
    → total_used (charge t n l) % u64_mod ≡ (total_used l + n) % u64_mod
unfolding charge
total-charge t n [] = omega arith
total-charge t n ((k, used) ∷ l) = let ih = total-charge t n l in ground arith

total-zeros : (l : List (Bytes × ℕ)) → total_used (store_zeros l) ≡ 0
unfolding store_zeros
total-zeros [] = refl
total-zeros ((k, used) ∷ l) = let ih = total-zeros l in omega arith

record-IsBalanced :
    (gate : ClaudeBudgetGate) (t : Bytes) (n : ℕ)
    → IsBalanced gate
    → IsBalanced (record_usage gate t n)
unfolding record_usage add_global add_tenant
record-IsBalanced gate t n h = let e = total-charge t n gate.tenant_used in omega arith

asked-IsBalanced :
    (gate : ClaudeBudgetGate) (t : Bytes) (now : ℕ)
    → IsBalanced gate
    → IsBalanced (has_capacity gate t now).1
unfolding has_capacity maybe_reset_window
asked-IsBalanced gate t now h =
    elim (Bool-cases (leb gate.window_duration_secs (elapsed_secs gate.window_start now))) [
      | inl expired ↦ let z = total-zeros gate.tenant_used in rw expired (omega arith)
      | inr open_still ↦ rw open_still h
    ]

-- In every state that calls which do not overlap lead to, the global counter is the sum of the
-- tenants' counters, modulo 2^64.
pub reachable-IsBalanced : (gate : ClaudeBudgetGate) → IsReachable gate → IsBalanced gate
unfolding new
reachable-IsBalanced _ (started gl tl now) = refl
reachable-IsBalanced _ (asked gate t now r) =
    asked-IsBalanced gate t now (reachable-IsBalanced gate r)
reachable-IsBalanced _ (recorded gate t n r) =
    record-IsBalanced gate t n (reachable-IsBalanced gate r)

-- A reset between the two statements of `record_usage` wipes the tokens from the global counter and
-- not from the tenant's: the tenant is charged, and the global counter is 0.
split_record_unbalanced :
    (gate : ClaudeBudgetGate) (t : Bytes) (tokens now : ℕ)
    → IsExpired gate now
    → tokens < u64_mod
    → ((add_tenant (maybe_reset_window (add_global gate tokens) now) t tokens).global_used ≡ 0)
      × (usage (add_tenant (maybe_reset_window (add_global gate tokens) now) t tokens) t ≡ tokens)
unfolding add_global add_tenant
split_record_unbalanced gate t tokens now expired small =
    let counted = used_by-charge t t tokens (store_zeros gate.tenant_used) in
    let zero_before = usage-zeros t gate.tenant_used in
    rw (reset-expired (add_global gate tokens) now expired)
      (refl, rw (counted, eq_bytes_refl t, zero_before) (omega arith))
