-- ===== src/Inference/Tests/Threads.antt =====
-- Two threads at a gate with 100 tokens for all and 40 for a tenant, and requests of at most 30.
use swarm_runtime.Prelude.{
  ℕ, ◌≤◌, ◌<◌, ◌+◌, ◌*◌, Bytes, true, List, [], ◌∷◌, ◌≡◌, refl, arith, codes, suc, zero,
}
use mathlib.Core.List.{Permᴰ}
use swarm_runtime.Prelude.Families.{update}
use swarm_runtime.Inference.Budget.{
  ClaudeBudgetGate, new, check_global, check_tenant, add_global, add_tenant,
}
use swarm_runtime.Inference.Budget.Usage.{usage, record_all}
use swarm_runtime.Inference.Budget.Window.{IsExpired}
use swarm_runtime.Inference.Budget.Threads.{Shared, Pc, Move, System, IsReached, init}
use swarm_runtime.Inference.Budget.Threads.Extent.{overrun_reached}
use swarm_runtime.Inference.Budget.Threads.Overrun.{overrun_bounded}
use swarm_runtime.Inference.Budget.Threads.Ledger.{
  Run, recorded, EndsWindow, run-IsReached, pending, threads_refine_sequence,
}

abbrev acme : Bytes
acme = codes "acme"

abbrev gate : ClaudeBudgetGate
gate = new 100 40 0

abbrev beta : Bytes
beta = codes "beta"

abbrev second : ℕ
second = 1000000000

early : ¬ IsExpired gate second
unfolding new
early over = absurd (omega arith)

global_left : check_global gate ≡ true
unfolding new check_global
global_left = refl

acme_left : check_tenant gate acme ≡ true
unfolding new check_tenant
acme_left = refl

beta_left : check_tenant gate beta ≡ true
unfolding new check_tenant
beta_left = refl

-- A run with its log.
abbrev LoggedRun : Type 0
LoggedRun = (log : List (Bytes × ℕ)) × (s : System) × Run 30 2 gate log s

abbrev then_step :
    (r : LoggedRun) (i : ℕ) {mem : Shared} {p : Pc}
    → i < 2
    → (move : Move 30 r.1.mem (r.1.pc i) mem p) → ¬ EndsWindow move
    → LoggedRun
then_step (log, s, run) i {mem} {p} lt move open_still = (
  recorded move log,
  record { mem = mem; pc = update s.pc i p },
  Run.later i run lt move open_still,
)

-- Thread 0 asks, and thread 1 holds the mutex while thread 0's request is under way.
abbrev one_asks : LoggedRun
one_asks =
    let r0 : LoggedRun = ([], init gate, Run.started) in
    let r1 = then_step r0 0 (omega arith) (Move.ask acme) (λ e. e) in
    let r2 = then_step r1 0 (omega arith) (Move.lock refl) (λ e. e) in
    let r3 = then_step r2 0 (omega arith) (Move.keep_window second early) (λ e. e) in
    let r4 = then_step r3 0 (omega arith) (Move.global_left global_left) (λ e. e) in
    let r5 = then_step r4 0 (omega arith) (Move.tenant_left acme_left) (λ e. e) in
    let r6 = then_step r5 1 (omega arith) (Move.ask beta) (λ e. e) in
    then_step r6 1 (omega arith) (Move.lock refl) (λ e. e)

-- Both are let through, and record 30 and 20 tokens in a mixed order.
abbrev both_recorded : LoggedRun
both_recorded =
    let r1 = then_step one_asks 1 (omega arith) (Move.keep_window second early) (λ e. e) in
    let r2 = then_step r1 1 (omega arith) (Move.global_left global_left) (λ e. e) in
    let r3 = then_step r2 1 (omega arith) (Move.tenant_left beta_left) (λ e. e) in
    let r4 = then_step r3 0 (omega arith) (Move.count_global 30 (omega arith)) (λ e. e) in
    let r5 = then_step r4 1 (omega arith) (Move.count_global 20 (omega arith)) (λ e. e) in
    let r6 = then_step r5 1 (omega arith) Move.count_tenant (λ e. e) in
    then_step r6 0 (omega arith) Move.count_tenant (λ e. e)

abbrev sequence : List (Bytes × ℕ)
sequence = (beta, 20) ∷ (acme, 30) ∷ []

global_50 : both_recorded.1.mem.gate.global_used ≡ 50
unfolding new add_global add_tenant
global_50 = refl

settled : (i : ℕ) → i < 2 → pending (both_recorded.1.pc i) ≡ 0
settled zero h = refl
settled (suc zero) h = refl
settled (suc (suc i)) h = absurd (omega arith)

threads_refine_sequence_example :
    (both_recorded.1.mem.gate.global_used ≡ (record_all (new 100 40 0) sequence).global_used)
    × ((t : Bytes)
        → usage both_recorded.1.mem.gate t ≡ usage (record_all (new 100 40 0) sequence) t)
threads_refine_sequence_example =
    threads_refine_sequence 30 2 100 40 0 both_recorded.0 sequence both_recorded.1 both_recorded.2
      settled ∣ Permᴰ.swap refl refl ∣₁

overrun_bounded_example :
    (both_recorded.1.mem.gate.global_used ≤ 99 + 2 * 30)
    × ((t : Bytes) → usage both_recorded.1.mem.gate t ≤ 39 + 2 * 30)
overrun_bounded_example =
    overrun_bounded 30 2 100 40 (omega arith) (omega arith) 0 both_recorded.1
      (run-IsReached 30 2 gate both_recorded.0 both_recorded.1 both_recorded.2)

abbrev used_gate : ClaudeBudgetGate
used_gate = record {
  global_used = 65;
  global_limit = 100;
  tenant_used = (acme, 45) ∷ (beta, 20) ∷ [];
  per_tenant_limit = 40;
  window_start = 0;
  window_duration_secs = 3600;
}

abbrev hour : ℕ
hour = 3600 * 1000000000

overrun_reached_example :
    (s : System) × IsReached 30 2 (new 1 1 0) s × (s.mem.gate.global_used ≡ 2 * 30)
overrun_reached_example = overrun_reached 30 2 0 acme (omega arith)
