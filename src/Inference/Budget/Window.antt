-- ===== src/Inference/Budget/Window.antt =====
-- The hourly window of crates/af-inference-client/src/budget.rs: when there is capacity, and what a call
-- after the end of the window does.
use swarm_runtime.Prelude.{
  ℕ, Bytes, Bool, true, List, [], ◌∷◌, Option, none, some, ◌≡◌, ◌↔◌, ◌⊎◌, ◌≤◌, ◌<◌, ◌&&◌, refl,
  arith, ltb→lt, lt→ltb, Option-cases, inl, inr,
}
use swarm_runtime.Inference.Budget.{
  ClaudeBudgetGate, used_by, store_zeros, has_capacity, maybe_reset_window, check_global,
  check_tenant, check_used, elapsed_secs,
}
use swarm_runtime.Inference.Budget.Usage.{usage, used_or_zero}

abbrev pub IsExpired : ClaudeBudgetGate → ℕ → Type 0
IsExpired gate now = gate.window_duration_secs ≤ elapsed_secs gate.window_start now

used_by-zeros-none :
    (t : Bytes) (l : List (Bytes × ℕ)) → used_by t l ≡ none → used_by t (store_zeros l) ≡ none
unfolding used_by store_zeros
used_by-zeros-none t [] h = refl
used_by-zeros-none t ((k, used) ∷ l) h = ground (arith, used_by-zeros-none t l)

used_by-zeros-some :
    (t : Bytes) (n : ℕ) (l : List (Bytes × ℕ))
    → used_by t l ≡ some n
    → used_by t (store_zeros l) ≡ some 0
unfolding used_by store_zeros
used_by-zeros-some t n [] h = cc
used_by-zeros-some t n ((k, used) ∷ l) h = ground (arith, used_by-zeros-some t n l)

pub check_used_iff :
    (limit : ℕ) (o : Option ℕ)
    → (check_used limit o ≡ true) ↔ ((o ≡ none) ⊎ (used_or_zero o < limit))
check_used_iff limit none = ((λ _. inl refl), (λ _. refl))
check_used_iff limit (some n) = (
  (λ h. inr (ltb→lt n limit h)),
  λ h. elim h [ inl e ↦ absurd (cc) | inr lt ↦ lt→ltb n limit lt ],
)

and_iff : (a b : Bool) → ((a && b) ≡ true) ↔ ((a ≡ true) × (b ≡ true))
and_iff a b = ground arith

-- Inside the window there is capacity for a tenant exactly if less than the global limit is used, and
-- the tenant is unknown or has used less than the limit for a tenant; and the gate stays as it is.
has_capacity_open :
    (gate : ClaudeBudgetGate) (t : Bytes) (now : ℕ)
    → ¬ IsExpired gate now
    → ((has_capacity gate t now).1 ≡ gate)
      × (((has_capacity gate t now).0 ≡ true) ↔ (
          (gate.global_used < gate.global_limit)
          × ((used_by t gate.tenant_used ≡ none) ⊎ (usage gate t < gate.per_tenant_limit))))
unfolding has_capacity maybe_reset_window check_global check_tenant
has_capacity_open gate t now h =
    ground (arith, check_used_iff gate.per_tenant_limit (used_by t gate.tenant_used))

pub usage-zeros : (s : Bytes) (l : List (Bytes × ℕ)) → used_or_zero (used_by s (store_zeros l)) ≡ 0
usage-zeros s l = elim (Option-cases (used_by s l)) [
  | inl e ↦ rw (used_by-zeros-none s l e) refl
  | inr (n, e) ↦ rw (used_by-zeros-some s n l e) refl
]

check-zeros :
    (limit : ℕ) (t : Bytes) (l : List (Bytes × ℕ))
    → (check_used limit (used_by t (store_zeros l)) ≡ true) ↔ ((used_by t l ≡ none) ⊎ (0 < limit))
check-zeros limit t l = elim (Option-cases (used_by t l)) [
  | inl e ↦ rw (used_by-zeros-none t l e, e) ((λ _. inl refl), (λ _. refl))
  | inr (n, e) ↦
      rw (used_by-zeros-some t n l e, e)
        (
          (λ h. inr (ltb→lt 0 limit h)),
          (λ h. elim h [ inl known ↦ absurd (cc) | inr lt ↦ lt→ltb 0 limit lt ]),
        )
]

pub reset-expired :
    (gate : ClaudeBudgetGate) (now : ℕ)
    → IsExpired gate now
    → maybe_reset_window gate now ≡ record gate {
      global_used = 0;
      tenant_used = store_zeros gate.tenant_used;
      window_start = now;
    }
unfolding maybe_reset_window
reset-expired gate now h = ground arith

pub reset-open :
    (gate : ClaudeBudgetGate) (now : ℕ) → ¬ IsExpired gate now → maybe_reset_window gate now ≡ gate
unfolding maybe_reset_window
reset-open gate now h = ground arith

-- When the window is over every counter starts again at zero, the window at the time of the call; and
-- there is capacity exactly if the limits allow any use at all, by the limit for a tenant only for
-- one that the gate knows.
has_capacity_expired :
    (gate : ClaudeBudgetGate) (t : Bytes) (now : ℕ)
    → IsExpired gate now
    → ((has_capacity gate t now).1.global_used ≡ 0)
      × ((s : Bytes) → usage (has_capacity gate t now).1 s ≡ 0)
      × ((has_capacity gate t now).1.window_start ≡ now)
      × (((has_capacity gate t now).0 ≡ true) ↔ (
          (0 < gate.global_limit)
          × ((used_by t gate.tenant_used ≡ none) ⊎ (0 < gate.per_tenant_limit))))
unfolding has_capacity check_global check_tenant
has_capacity_expired gate t now h =
    let zero_use = check-zeros gate.per_tenant_limit t gate.tenant_used in
    rw (reset-expired gate now h)
      (refl, (λ s. usage-zeros s gate.tenant_used), refl, ground (arith, zero_use))
