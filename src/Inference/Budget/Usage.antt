-- ===== src/Inference/Budget/Usage.antt =====
-- What the counters of crates/af-inference-client/src/budget.rs count, against a log of the requests.
use swarm_runtime.Prelude.{
  ℕ, Bytes, Bool, true, false, List, [], ◌∷◌, Option, none, some, ◌≡◌, ◌<◌, ◌+◌, ◌%◌, refl, ap,
  arith, eq_bytes, eq_bytes→eq, if◌then◌else◌, add64, u64_mod, Bool-cases, inl, inr,
}
use swarm_runtime.Inference.Budget.{
  ClaudeBudgetGate, new, used_by, charge, add_global, add_tenant, record_usage,
}

abbrev pub used_or_zero : Option ℕ → ℕ
used_or_zero none = 0
used_or_zero (some n) = n

-- What a tenant has used; nothing, if nothing was recorded.
abbrev pub usage : ClaudeBudgetGate → Bytes → ℕ
usage gate t = used_or_zero (used_by t gate.tenant_used)

eq_bytes_trans : (a b c : Bytes) → eq_bytes a b ≡ true → eq_bytes a c ≡ eq_bytes b c
eq_bytes_trans a b c h = ap (λ x. eq_bytes x c) (eq_bytes→eq a b h)

not_both : {a b : Bool} → a ≡ b → a ≡ false → b ≡ true → ⊥
not_both e f t = cc

pub used_by-charge :
    (t s : Bytes) (n : ℕ) (l : List (Bytes × ℕ))
    → used_by t (charge s n l)
      ≡ (if eq_bytes s t then some (add64 (used_or_zero (used_by s l)) n) else used_by t l)
unfolding used_by charge
used_by-charge t s n [] = refl
used_by-charge t s n ((k, used) ∷ l) = elim (Bool-cases (eq_bytes k s)) [
  | inl same ↦ rw (same, eq_bytes_trans k s t same) (ground arith)
  | inr other ↦ elim (Bool-cases (eq_bytes k t)) [
    | inl here ↦ elim (Bool-cases (eq_bytes s t)) [
      | inl st ↦ absurd (not_both (ap (λ x. eq_bytes k x) (eq_bytes→eq s t st)) other here)
      | inr ne ↦ rw (other, here, ne) refl
    ]
    | inr away ↦ rw (other, away) (used_by-charge t s n l)
  ]
]

-- The tokens of a log of recorded requests, and those of one tenant.
abbrev pub total_tokens : List (Bytes × ℕ) → ℕ
total_tokens [] = 0
total_tokens ((s, n) ∷ log) = n + total_tokens log

abbrev pub tokens_of : Bytes → List (Bytes × ℕ) → ℕ
tokens_of t [] = 0
tokens_of t ((s, n) ∷ log) = (if eq_bytes s t then n else 0) + tokens_of t log

abbrev pub record_all : ClaudeBudgetGate → List (Bytes × ℕ) → ClaudeBudgetGate
record_all gate [] = gate
record_all gate ((s, n) ∷ log) = record_all (record_usage gate s n) log

usage-record :
    (gate : ClaudeBudgetGate) (s t : Bytes) (n : ℕ)
    → usage (record_usage gate s n) t
      ≡ (if eq_bytes s t then add64 (usage gate t) n else usage gate t)
unfolding record_usage add_global add_tenant
usage-record gate s t n = elim (Bool-cases (eq_bytes s t)) [
  | inl same ↦
      let e = eq_bytes→eq s t same in rw (used_by-charge t s n gate.tenant_used, same, e) refl
  | inr other ↦ rw (used_by-charge t s n gate.tenant_used, other) refl
]

usage-record_all :
    (log : List (Bytes × ℕ)) (gate : ClaudeBudgetGate) (t : Bytes)
    → usage gate t < u64_mod
    → usage (record_all gate log) t ≡ (usage gate t + tokens_of t log) % u64_mod
usage-record_all [] gate t h = omega arith
usage-record_all ((s, n) ∷ log) gate t h = elim (Bool-cases (eq_bytes s t)) [
  | inl same ↦
      let e : usage (record_usage gate s n) t ≡ add64 (usage gate t) n =
        rw same at (usage-record gate s t n) in
      let ih = usage-record_all log (record_usage gate s n) t (omega arith) in rw same (omega arith)
  | inr other ↦
      let e : usage (record_usage gate s n) t ≡ usage gate t =
        rw other at (usage-record gate s t n) in
      let ih = usage-record_all log (record_usage gate s n) t (omega arith) in
      rw other (omega arith)
]

global_used-record_all :
    (log : List (Bytes × ℕ)) (gate : ClaudeBudgetGate)
    → gate.global_used < u64_mod
    → (record_all gate log).global_used ≡ (gate.global_used + total_tokens log) % u64_mod
unfolding record_usage add_global add_tenant
global_used-record_all [] gate h = omega arith
global_used-record_all ((s, n) ∷ log) gate h =
    let ih = global_used-record_all log (record_usage gate s n) (omega arith) in omega arith

-- After a log of recorded requests, a new gate counts for each tenant the tokens that the log has for
-- it, and in all those of the whole log, modulo 2^64.
pub counts-log :
    (global_limit tenant_limit now : ℕ) (log : List (Bytes × ℕ))
    → ((record_all (new global_limit tenant_limit now) log).global_used
        ≡ total_tokens log % u64_mod)
      × ((t : Bytes)
          → usage (record_all (new global_limit tenant_limit now) log) t
            ≡ tokens_of t log % u64_mod)
unfolding new used_by
counts-log global_limit tenant_limit now log =
    let gate = new global_limit tenant_limit now in
    let g = global_used-record_all log gate (omega arith) in
    (omega arith, λ t. let u = usage-record_all log gate t (omega arith) in omega arith)
