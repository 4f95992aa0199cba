-- ===== src/Inference/Budget/Threads/Extent.antt =====
-- Runs of the threads of crates/af-inference-client/src/budget.rs in which all of them are let through
-- before the first of them has counted its tokens.
use swarm_runtime.Prelude.{
  ℕ, zero, suc, ◌*◌, ◌≤◌, ◌<◌, Bytes, ◌≡◌, ◌≢◌, refl, arith, u64_mod, Bool-cases, inl, inr, ◌==◌,
  ==_iff, ◌∙◌,
}
use native.Mathlib.Nat.{mul-le-mul_right}
use swarm_runtime.Prelude.Families.{update, update_here, update_other}
use swarm_runtime.Inference.Budget.{
  ClaudeBudgetGate, new, used_by, check_global, check_tenant, add_global, add_tenant, record_usage,
}
use swarm_runtime.Inference.Budget.Window.{IsExpired}
use swarm_runtime.Inference.Budget.Threads.{Shared, Pc, Move, System, Step, IsReached, init}
use swarm_runtime.Inference.Budget.Threads.Calls.{Moves, unlocked}

module _ (m n : ℕ) (gate : ClaudeBudgetGate) where
  -- A state that thread `i` reaches from `s` while the others wait.
  record Onward (s : System) (i : ℕ) (mem : Shared) (p : Pc) : Type 0 where
    end : System
    reached : IsReached m n gate end
    same_mem : end.mem ≡ mem
    here : end.pc i ≡ p
    others : (j : ℕ) → j ≢ i → end.pc j ≡ s.pc j

  Moves-Onward :
      (i : ℕ) (a b : Shared) (p q : Pc) (s : System)
      → i < n
      → IsReached m n gate s
      → Moves m a p b q
      → s.mem ≡ a
      → s.pc i ≡ p
      → Onward s i b q
  Moves-Onward i a _ p _ s lt r Moves.none_left em ep = record {
    end = s;
    reached = r;
    same_mem = em;
    here = ep;
    others = λ j ne. refl;
  }
  Moves-Onward i a b p q s lt r (Moves.next {s' = c} {p' = p1} move more) em ep =
      let step : Move m s.mem (s.pc i) c p1 = rw (em, ep) move in
      let s1 : System = record { mem = c; pc = update s.pc i p1 } in
      let rest =
        Moves-Onward i c b p1 q s1 lt (IsReached.later r (Step.pick i lt step)) more refl
          (update_here s.pc i p1) in
      record {
        end = rest.end;
        reached = rest.reached;
        same_mem = rest.same_mem;
        here = rest.here;
        others = λ j ne. rest.others j ne ∙ update_other s.pc i j p1 ne;
      }

let_through :
    (m start : ℕ) (t : Bytes)
    → Moves m (unlocked (new 1 1 start)) Pc.idle (unlocked (new 1 1 start)) (Pc.allowed t)
unfolding new check_global check_tenant used_by
let_through m start t =
    let open_still : ¬ IsExpired (new 1 1 start) start = λ over. absurd (omega arith) in
    Moves.next (Move.ask t) (
      Moves.next (Move.lock refl) (
        Moves.next (Move.keep_window start open_still) (
          Moves.next (Move.global_left refl) (Moves.next (Move.tenant_left refl) Moves.none_left))))

counted :
    (m : ℕ) (t : Bytes) (g : ClaudeBudgetGate)
    → Moves m (unlocked g) (Pc.allowed t) (unlocked (record_usage g t m)) Pc.idle
unfolding record_usage
counted m t g =
    Moves.next (Move.count_global m (omega arith)) (Moves.next Move.count_tenant Moves.none_left)

module _ (m n start : ℕ) (t : Bytes) where
  -- The first `k` threads are let through, and the gate is as new.
  record LetThrough (k : ℕ) : Type 0 where
    s : System
    reached : IsReached m n (new 1 1 start) s
    mem : s.mem ≡ unlocked (new 1 1 start)
    through : (j : ℕ) → j < k → s.pc j ≡ Pc.allowed t
    waiting : (j : ℕ) → k ≤ j → s.pc j ≡ Pc.idle

  all-LetThrough : (k : ℕ) → k ≤ n → LetThrough k
  all-LetThrough zero le = record {
    s = init (new 1 1 start);
    reached = IsReached.start;
    mem = refl;
    through = λ j lt. absurd (omega arith);
    waiting = λ j le. refl;
  }
  all-LetThrough (suc k) le =
      let r = all-LetThrough k (omega arith) in
      let o =
        Moves-Onward m n (new 1 1 start) k _ _ _ _ r.s (omega arith) r.reached
          (let_through m start t) r.mem (r.waiting k (omega arith)) in
      record {
        s = o.end;
        reached = o.reached;
        mem = o.same_mem;
        through = λ j lt. elim (Bool-cases (j == k)) [
          | inl same ↦ rw ((==_iff j k).0 same) o.here
          | inr other ↦ let ne : j ≢ k = ground arith in o.others j ne ∙ r.through j (omega arith)
        ];
        waiting =
            λ j lt. let ne : j ≢ k = λ e. omega arith in o.others j ne ∙ r.waiting j (omega arith);
      }

  -- The first `k` threads have counted `m` tokens each.
  record Counted (k : ℕ) : Type 0 where
    s : System
    reached : IsReached m n (new 1 1 start) s
    gate : ClaudeBudgetGate
    mem : s.mem ≡ unlocked gate
    used : gate.global_used ≡ k * m
    through : (j : ℕ) → k ≤ j → j < n → s.pc j ≡ Pc.allowed t

  all-Counted : n * m < u64_mod → (k : ℕ) → k ≤ n → Counted k
  unfolding new record_usage add_global add_tenant
  all-Counted fits zero le =
      let r = all-LetThrough n (omega arith) in
      record {
        s = r.s;
        reached = r.reached;
        gate = new 1 1 start;
        mem = r.mem;
        used = omega arith;
        through = λ j le lt. r.through j lt;
      }
  all-Counted fits (suc k) le =
      let r = all-Counted fits k (omega arith) in
      let o =
        Moves-Onward m n (new 1 1 start) k _ _ _ _ r.s (omega arith) r.reached (counted m t r.gate)
          r.mem (r.through k (omega arith) (omega arith)) in
      record {
        s = o.end;
        reached = o.reached;
        gate = record_usage r.gate t m;
        mem = o.same_mem;
        used = let most = mul-le-mul_right m le in omega (arith, r.used);
        through = λ j le lt.
            let ne : j ≢ k = λ e. omega arith in o.others j ne ∙ r.through j (omega arith) lt;
      }

  -- With both limits at one token, some order of the steps of `n` threads whose requests use at most `m`
  -- tokens leaves `n * m` in the global counter, if that is below 2^64.
  pub overrun_reached :
      n * m < u64_mod
      → (s : System) × IsReached m n (new 1 1 start) s × (s.mem.gate.global_used ≡ n * m)
  overrun_reached fits =
      let r = all-Counted fits n (omega arith) in (r.s, r.reached, rw r.mem r.used)
