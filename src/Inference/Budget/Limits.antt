-- ===== src/Inference/Budget/Limits.antt =====
-- How far above the limits of crates/af-inference-client/src/budget.rs a caller gets that asks before
-- each request.
use swarm_runtime.Prelude.{
  ℕ, Bytes, true, List, [], ◌∷◌, ◌≡◌, ◌≤◌, ◌<◌, ◌+◌, ◌&&◌, refl, arith, leb, if◌then◌else◌, u64_mod,
  Bool-cases, Option-cases, inl, inr, All,
}
use swarm_runtime.Inference.Budget.{
  ClaudeBudgetGate, new, used_by, charge, store_zeros, add_global, add_tenant, record_usage,
  has_capacity, maybe_reset_window, check_global, check_tenant, elapsed_secs,
}
use swarm_runtime.Inference.Budget.Usage.{usage, used_or_zero}
use swarm_runtime.Inference.Budget.Window.{check_used_iff}

-- A caller that asks before each request and records what the request used.
abbrev pub spend : ClaudeBudgetGate → Bytes → ℕ → ℕ → ClaudeBudgetGate
spend gate t tokens now =
    let (allowed, asked) = has_capacity gate t now in
    if allowed then record_usage asked t tokens else asked

abbrev pub spend_all : ClaudeBudgetGate → List (Bytes × ℕ × ℕ) → ClaudeBudgetGate
spend_all gate [] = gate
spend_all gate ((t, tokens, now) ∷ rest) = spend_all (spend gate t tokens now) rest

-- The limits of a gate, and its counters at most `m` above them.
abbrev IsWithin : ℕ → ℕ → ℕ → ClaudeBudgetGate → Type 0
IsWithin gl tl m gate =
    (gate.global_limit ≡ gl)
    × (gate.per_tenant_limit ≡ tl)
    × (gate.global_used ≤ gl + m)
    × All (λ e. e.1 ≤ tl + m) gate.tenant_used

zeros-within : (b : ℕ) (l : List (Bytes × ℕ)) → All (λ e. e.1 ≤ b) (store_zeros l)
unfolding store_zeros
zeros-within b [] = tt
zeros-within b ((k, used) ∷ l) = (omega arith, zeros-within b l)

charge-within :
    (b : ℕ) (t : Bytes) (n : ℕ) (l : List (Bytes × ℕ))
    → b < u64_mod
    → used_or_zero (used_by t l) + n ≤ b
    → All (λ e. e.1 ≤ b) l
    → All (λ e. e.1 ≤ b) (charge t n l)
unfolding used_by charge
charge-within b t n [] fits h a = (omega arith, tt)
charge-within b t n ((k, used) ∷ l) fits h (hk, a) = ground (arith, charge-within b t n l)

used_by-within :
    (b : ℕ) (t : Bytes) (l : List (Bytes × ℕ))
    → All (λ e. e.1 ≤ b) l
    → used_or_zero (used_by t l) ≤ b
unfolding used_by
used_by-within b t [] a = omega arith
used_by-within b t ((k, used) ∷ l) (hk, a) = ground (arith, used_by-within b t l)

allowed_room :
    (gate : ClaudeBudgetGate) (t : Bytes)
    → (check_global gate && check_tenant gate t) ≡ true
    → (gate.global_used < gate.global_limit) × (usage gate t ≤ gate.per_tenant_limit)
unfolding check_global check_tenant
allowed_room gate t h =
    let room = check_used_iff gate.per_tenant_limit (used_by t gate.tenant_used) in
    elim (Option-cases (used_by t gate.tenant_used)) [
      | inl e ↦ rw e (ground arith)
      | inr (n, e) ↦ rw e (ground (arith, rw e at h))
    ]

module _ (gl tl m : ℕ) (fits_global : gl + m < u64_mod) (fits_tenant : tl + m < u64_mod) where
  reset-IsWithin :
      (gate : ClaudeBudgetGate) (now : ℕ)
      → IsWithin gl tl m gate
      → IsWithin gl tl m (maybe_reset_window gate now)
  unfolding maybe_reset_window
  reset-IsWithin gate now (el, et, hg, ht) =
      elim (Bool-cases (leb gate.window_duration_secs (elapsed_secs gate.window_start now))) [
        | inl expired ↦ rw expired (el, et, omega arith, zeros-within (tl + m) gate.tenant_used)
        | inr open_still ↦ rw open_still (el, et, hg, ht)
      ]

  record-IsWithin :
      (gate : ClaudeBudgetGate) (t : Bytes) (n : ℕ)
      → n ≤ m
      → (check_global gate && check_tenant gate t) ≡ true
      → IsWithin gl tl m gate
      → IsWithin gl tl m (record_usage gate t n)
  unfolding record_usage add_global add_tenant
  record-IsWithin gate t n small ok (el, et, hg, ht) =
      let (room, tenant_room) = allowed_room gate t ok in
      (
        el,
        et,
        omega arith,
        charge-within (tl + m) t n gate.tenant_used fits_tenant (omega arith) ht,
      )

  spend-IsWithin :
      (gate : ClaudeBudgetGate) (t : Bytes) (n now : ℕ)
      → n ≤ m
      → IsWithin gl tl m gate
      → IsWithin gl tl m (spend gate t n now)
  unfolding has_capacity
  spend-IsWithin gate t n now small w =
      let asked = maybe_reset_window gate now in
      let within = reset-IsWithin gate now w in
      elim (Bool-cases (check_global asked && check_tenant asked t)) [
        | inl fine ↦ rw fine (record-IsWithin asked t n small fine within)
        | inr spent ↦ rw spent within
      ]

  spend_all-IsWithin :
      (requests : List (Bytes × ℕ × ℕ)) (gate : ClaudeBudgetGate)
      → All (λ r. r.1 ≤ m) requests
      → IsWithin gl tl m gate
      → IsWithin gl tl m (spend_all gate requests)
  spend_all-IsWithin [] gate a w = w
  spend_all-IsWithin ((t, n, now) ∷ rest) gate (small, a) w =
      spend_all-IsWithin rest (spend gate t n now) a (spend-IsWithin gate t n now small w)

  -- A caller that asks before each request gets past the global limit and the limit for a tenant by at
  -- most the largest request, whenever its requests come, if the limits are that far below 2^64.
  pub spend_all_bounded :
      (start : ℕ) (requests : List (Bytes × ℕ × ℕ))
      → All (λ r. r.1 ≤ m) requests
      → ((spend_all (new gl tl start) requests).global_used ≤ gl + m)
        × ((t : Bytes) → usage (spend_all (new gl tl start) requests) t ≤ tl + m)
  unfolding new
  spend_all_bounded start requests small =
      let (el, et, hg, ht) =
        spend_all-IsWithin requests (new gl tl start) small (refl, refl, omega arith, tt) in
      (hg, λ t. used_by-within (tl + m) t (spend_all (new gl tl start) requests).tenant_used ht)
