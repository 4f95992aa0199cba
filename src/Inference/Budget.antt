-- ===== src/Inference/Budget.antt =====
-- crates/af-inference-client/src/budget.rs: the gate on Claude tokens. Time is an argument, in
-- nanoseconds on the monotonic clock of `Instant`; `tenant_used` is an association list with one entry
-- for each key, and the counters are `u64`s that wrap around.
pub mod Usage
pub mod View
pub mod Layout
pub mod Window
pub mod Limits
pub mod Balance
pub mod Threads
use swarm_runtime.Prelude.{
  ℕ, Bytes, Bool, true, List, [], ◌∷◌, Option, none, some, map, ◌&&◌, ◌-◌, ◌/◌, ltb, leb, add64,
  eq_bytes, if◌then◌else◌,
}

pub record ClaudeBudgetGate : Type 0 where
  pub global_used : ℕ
  pub global_limit : ℕ
  pub tenant_used : List (Bytes × ℕ)
  pub per_tenant_limit : ℕ
  pub window_start : ℕ
  pub window_duration_secs : ℕ

unfoldable pub new : ℕ → ℕ → ℕ → ClaudeBudgetGate
new global_hourly_limit per_tenant_hourly_limit now = record {
  global_used = 0;
  global_limit = global_hourly_limit;
  tenant_used = [];
  per_tenant_limit = per_tenant_hourly_limit;
  window_start = now;
  window_duration_secs = 3600;
}

-- `tenant_used.get(tenant_id)`
unfoldable pub used_by : Bytes → List (Bytes × ℕ) → Option ℕ
used_by t [] = none
used_by t ((k, used) ∷ l) = if eq_bytes k t then some used else used_by t l

-- `tenant_used.entry(tenant_id).or_insert_with(|| 0).fetch_add(tokens)`
unfoldable pub charge : Bytes → ℕ → List (Bytes × ℕ) → List (Bytes × ℕ)
charge t tokens [] = (t, add64 0 tokens) ∷ []
charge t tokens ((k, used) ∷ l) =
    if eq_bytes k t then (k, add64 used tokens) ∷ l else (k, used) ∷ charge t tokens l

-- `tenant_used.iter().for_each(|e| e.value().store(0))`
unfoldable pub store_zeros : List (Bytes × ℕ) → List (Bytes × ℕ)
store_zeros [] = []
store_zeros ((k, used) ∷ l) = (k, 0) ∷ store_zeros l

unfoldable pub check_global : ClaudeBudgetGate → Bool
check_global self = ltb self.global_used self.global_limit

abbrev pub check_used : ℕ → Option ℕ → Bool
check_used limit (some used) = ltb used limit
check_used limit none = true

unfoldable pub check_tenant : ClaudeBudgetGate → Bytes → Bool
unfolding used_by
check_tenant self tenant_id = check_used self.per_tenant_limit (used_by tenant_id self.tenant_used)

-- `start.elapsed().as_secs()`: an `Instant` does not go back.
abbrev pub elapsed_secs : ℕ → ℕ → ℕ
elapsed_secs start now = (now - start) / 1000000000

unfoldable pub maybe_reset_window : ClaudeBudgetGate → ℕ → ClaudeBudgetGate
unfolding store_zeros
maybe_reset_window self now =
    if leb self.window_duration_secs (elapsed_secs self.window_start now)
    then record self {
      global_used = 0;
      tenant_used = store_zeros self.tenant_used;
      window_start = now;
    }
    else self

unfoldable pub has_capacity : ClaudeBudgetGate → Bytes → ℕ → Bool × ClaudeBudgetGate
unfolding maybe_reset_window check_global check_tenant
has_capacity self tenant_id now =
    let gate = maybe_reset_window self now in
    (check_global gate && check_tenant gate tenant_id, gate)

-- The two statements of `record_usage`: another thread may run between them.
unfoldable pub add_global : ClaudeBudgetGate → ℕ → ClaudeBudgetGate
add_global self tokens = record self { global_used = add64 self.global_used tokens }

unfoldable pub add_tenant : ClaudeBudgetGate → Bytes → ℕ → ClaudeBudgetGate
unfolding charge
add_tenant self tenant_id tokens = record self {
  tenant_used = charge tenant_id tokens self.tenant_used;
}

unfoldable pub record_usage : ClaudeBudgetGate → Bytes → ℕ → ClaudeBudgetGate
unfolding add_global add_tenant
record_usage self tenant_id tokens = add_tenant (add_global self tokens) tenant_id tokens
