-- ===== src/Inference/Tests/Budget.antt =====
-- A gate with 100 tokens an hour for all, 40 for a tenant.
use swarm_runtime.Prelude.{ℕ, Bytes, true, false, List, [], ◌∷◌, ◌≡◌, ◌*◌, ◌-◌, ◌^◌, refl, codes}
use swarm_runtime.Inference.Budget.{ClaudeBudgetGate, new, record_usage, has_capacity}
use swarm_runtime.Inference.Budget.Usage.{record_all}
use mathlib.Core.List.{Permᴰ}
use swarm_runtime.Inference.Budget.View.{Call, answers, promised, view, answers-promised}
use swarm_runtime.Inference.Budget.Layout.{up_to_layout, record_order_hidden}
use swarm_runtime.Inference.Budget.Limits.{spend_all}
use swarm_runtime.Inference.Budget.Balance.{IsBalanced, started, recorded, reachable-IsBalanced}

abbrev hour : ℕ
hour = 3600 * 1000000000

abbrev log : List (Bytes × ℕ)
log = (codes "acme", 30) ∷ (codes "beta", 20) ∷ (codes "acme", 15) ∷ []

abbrev gate : ClaudeBudgetGate
gate = record {
  global_used = 65;
  global_limit = 100;
  tenant_used = (codes "acme", 45) ∷ (codes "beta", 20) ∷ [];
  per_tenant_limit = 40;
  window_start = 0;
  window_duration_secs = 3600;
}

recorded_log : record_all (new 100 40 0) log ≡ gate
unfolding new record_usage
recorded_log = refl

spent : (has_capacity gate (codes "acme") 5).0 ≡ false
unfolding has_capacity
spent = refl

left : (has_capacity gate (codes "beta") 5).0 ≡ true
unfolding has_capacity
left = refl

next_hour : (has_capacity gate (codes "acme") hour).0 ≡ true
unfolding has_capacity
next_hour = refl

-- A counter that wraps around makes room again.
wrapped : (has_capacity (record_usage gate (codes "acme") (2 ^ 64 - 45)) (codes "acme") 5).0 ≡ true
unfolding has_capacity record_usage
wrapped = refl

abbrev requests : List (Bytes × ℕ × ℕ)
requests = (codes "acme", 30, 1) ∷ (codes "acme", 30, 2) ∷ (codes "acme", 30, 3) ∷ []

-- The third request finds no room.
spent_requests : (spend_all (new 100 40 0) requests).global_used ≡ 60
unfolding new has_capacity record_usage
spent_requests = refl

reachable-IsBalanced_example : IsBalanced (record_usage (new 100 40 0) (codes "acme") 30)
reachable-IsBalanced_example =
    reachable-IsBalanced (record_usage (new 100 40 0) (codes "acme") 30)
      (recorded (new 100 40 0) (codes "acme") 30 (started 100 40 0))

abbrev other_order : List (Bytes × ℕ)
other_order = (codes "beta", 20) ∷ (codes "acme", 30) ∷ (codes "acme", 15) ∷ []

-- A request that is let through and recorded, one that is not, and one an hour later.
abbrev calls : List Call
calls =
    Call.ask (codes "beta") 5
    ∷ Call.record_tokens (codes "beta") 30
    ∷ Call.ask (codes "beta") 6
    ∷ Call.ask (codes "beta") hour
    ∷ []

calls_answered : answers gate calls ≡ true ∷ false ∷ true ∷ []
unfolding has_capacity record_usage
calls_answered = refl

answers-promised_example : answers gate calls ≡ promised (view gate) calls
answers-promised_example = answers-promised calls gate

record_order_hidden_example :
    (up_to_layout (record_all (new 100 40 0) log)
      ≡ up_to_layout (record_all (new 100 40 0) other_order))
    × (answers (record_all (new 100 40 0) log) calls
        ≡ answers (record_all (new 100 40 0) other_order) calls)
record_order_hidden_example =
    record_order_hidden (new 100 40 0) log other_order calls ∣ Permᴰ.swap refl refl ∣₁
