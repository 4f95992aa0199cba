-- ===== src/Inference/Budget/View.antt =====
-- The gate of crates/af-inference-client/src/budget.rs as its callers may think of it: counters, limits
-- and a window, with the tenants' counters a function, and any calls of it one after the other.
use swarm_runtime.Prelude.{
  ℕ, Bytes, Bool, List, [], ◌∷◌, Option, none, some, ◌≡◌, refl, ap, arith, ◌&&◌, ltb, leb, add64,
  eq_bytes, if◌then◌else◌, Bool-cases, inl, inr,
}
use mathlib.Core.Path.{fun_ext}
use swarm_runtime.Inference.Budget.{
  ClaudeBudgetGate, used_by, store_zeros, check_used, check_global, check_tenant, has_capacity,
  maybe_reset_window, add_global, add_tenant, record_usage, elapsed_secs,
}
use swarm_runtime.Inference.Budget.Usage.{used_or_zero, used_by-charge}

abbrev pub zeroed : Option ℕ → Option ℕ
zeroed none = none
zeroed (some n) = some 0

pub used_by-zeros :
    (t : Bytes) (l : List (Bytes × ℕ)) → used_by t (store_zeros l) ≡ zeroed (used_by t l)
unfolding used_by store_zeros
used_by-zeros t [] = refl
used_by-zeros t ((k, used) ∷ l) = ground (arith, used_by-zeros t l)

-- The promise to the callers, where a tenant that was never charged has no counter.
pub record Budget : Type 0 where
  pub global_used : ℕ
  pub global_limit : ℕ
  pub used : Bytes → Option ℕ
  pub per_tenant_limit : ℕ
  pub window_start : ℕ
  pub window_duration_secs : ℕ

-- After the end of the window every counter is 0 and the window begins anew.
abbrev pub renewed : Budget → ℕ → Budget
renewed b now =
    if leb b.window_duration_secs (elapsed_secs b.window_start now)
    then record b { global_used = 0; used = λ t. zeroed (b.used t); window_start = now }
    else b

-- There is capacity while both counters are under their limits.
abbrev pub capacity : Budget → Bytes → Bool
capacity b t = ltb b.global_used b.global_limit && check_used b.per_tenant_limit (b.used t)

abbrev pub spend : Budget → Bytes → ℕ → Budget
spend b t n = record b {
  global_used = add64 b.global_used n;
  used = λ s. if eq_bytes t s then some (add64 (used_or_zero (b.used t)) n) else b.used s;
}

-- The calls that a user of the gate makes, and their answers in order.
pub data Call : Type 0 where
  ask : Bytes → ℕ → Call
  record_tokens : Bytes → ℕ → Call

abbrev pub answers : ClaudeBudgetGate → List Call → List Bool
answers gate [] = []
answers gate (ask t now ∷ calls) =
    (has_capacity gate t now).0 ∷ answers (has_capacity gate t now).1 calls
answers gate (record_tokens t n ∷ calls) = answers (record_usage gate t n) calls

abbrev pub promised : Budget → List Call → List Bool
promised b [] = []
promised b (ask t now ∷ calls) = capacity (renewed b now) t ∷ promised (renewed b now) calls
promised b (record_tokens t n ∷ calls) = promised (spend b t n) calls

abbrev pub view : ClaudeBudgetGate → Budget
view gate = record {
  global_used = gate.global_used;
  global_limit = gate.global_limit;
  used = λ t. used_by t gate.tenant_used;
  per_tenant_limit = gate.per_tenant_limit;
  window_start = gate.window_start;
  window_duration_secs = gate.window_duration_secs;
}

pub view_ext :
    (g h : ClaudeBudgetGate)
    → g.global_used ≡ h.global_used
    → g.global_limit ≡ h.global_limit
    → g.per_tenant_limit ≡ h.per_tenant_limit
    → g.window_start ≡ h.window_start
    → g.window_duration_secs ≡ h.window_duration_secs
    → ((t : Bytes) → used_by t g.tenant_used ≡ used_by t h.tenant_used)
    → view g ≡ view h
view_ext g h global limit tenant_limit start duration tenants = λ i. record {
  global_used = global i;
  global_limit = limit i;
  used = fun_ext tenants i;
  per_tenant_limit = tenant_limit i;
  window_start = start i;
  window_duration_secs = duration i;
}

pub view-reset :
    (gate : ClaudeBudgetGate) (now : ℕ)
    → view (maybe_reset_window gate now) ≡ renewed (view gate) now
unfolding maybe_reset_window
view-reset gate now =
    elim (Bool-cases (leb gate.window_duration_secs (elapsed_secs gate.window_start now))) [
      | inl late ↦
          let zeros = fun_ext (λ t. used_by-zeros t gate.tenant_used) in
          rw late
            (ap (λ u. record (view gate) { global_used = 0; used = u; window_start = now }) zeros)
      | inr early ↦ rw early refl
    ]

pub view-record :
    (gate : ClaudeBudgetGate) (t : Bytes) (n : ℕ)
    → view (record_usage gate t n) ≡ spend (view gate) t n
unfolding record_usage add_global add_tenant
view-record gate t n =
    let charged = fun_ext (λ s. used_by-charge s t n gate.tenant_used) in
    ap (λ u. record (view gate) { global_used = add64 gate.global_used n; used = u }) charged

pub checks_view :
    (gate : ClaudeBudgetGate) (t : Bytes)
    → (check_global gate && check_tenant gate t) ≡ capacity (view gate) t
unfolding check_global check_tenant
checks_view gate t = refl

pub has_capacity_view :
    (gate : ClaudeBudgetGate) (t : Bytes) (now : ℕ)
    → ((has_capacity gate t now).0 ≡ capacity (renewed (view gate) now) t)
      × (view (has_capacity gate t now).1 ≡ renewed (view gate) now)
unfolding has_capacity check_global check_tenant
has_capacity_view gate t now =
    let reset = view-reset gate now in (ap (λ b. capacity b t) reset, reset)

-- Whatever calls a user makes, one after the other, the gate answers as the abstract budget does that
-- it stands for: so nothing that the users see depends on how the map of the counters is laid out.
pub answers-promised :
    (calls : List Call) (gate : ClaudeBudgetGate) → answers gate calls ≡ promised (view gate) calls
answers-promised [] gate = refl
answers-promised (ask t now ∷ calls) gate =
    let (same, after) = has_capacity_view gate t now in
    let ih = answers-promised calls (has_capacity gate t now).1 in rw (same, ih, after) refl
answers-promised (record_tokens t n ∷ calls) gate =
    rw (answers-promised calls (record_usage gate t n), view-record gate t n) refl
