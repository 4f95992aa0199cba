-- ===== src/Inference/Budget/Threads/Ledger.antt =====
-- What the counters of crates/af-inference-client/src/budget.rs count when several threads record at
-- once and no window ends, against a log of the requests.
use swarm_runtime.Prelude.{
  ℕ, ◌+◌, ◌%◌, ◌<◌, Bytes, List, [], ◌∷◌, ◌≡◌, refl, ap, arith, ◌∙◌, eq_bytes, if◌then◌else◌,
  u64_mod, Bool-cases, inl, inr,
}
use swarm_runtime.Prelude.Families.{update, total, total-update, total_zero, update_case}
use mathlib.Core.List.{Perm, Permᴰ}
use mathlib.Core.Logic.{∥∥₁_elim}
use swarm_runtime.Inference.Budget.{ClaudeBudgetGate, new, used_by, add_global, add_tenant}
use swarm_runtime.Inference.Budget.Usage.{usage, total_tokens, tokens_of, record_all, counts-log}
use swarm_runtime.Inference.Budget.Threads.{
  Shared, Pc, Move, System, Step, IsReached, init, store_tenant, restart_window,
}
use swarm_runtime.Inference.Budget.Threads.Moves.{usage-add}

-- The tokens that the global counter has and the tenant's has not yet.
abbrev pub pending : Pc → ℕ
pending (Pc.charging t n) = n
pending _ = 0

abbrev pub IsClearing : Pc → Type 0
IsClearing (Pc.clearing t ks) = Unit
IsClearing _ = ⊥

-- What a step adds to the log of the requests recorded, the latest first; and whether it begins a reset.
abbrev pub recorded :
    {m : ℕ} {s s' : Shared} {p p' : Pc} → Move m s p s' p' → List (Bytes × ℕ) → List (Bytes × ℕ)
recorded (Move.count_tenant {t} {n}) log = (t, n) ∷ log
recorded _ log = log

abbrev pub EndsWindow : {m : ℕ} {s s' : Shared} {p p' : Pc} → Move m s p s' p' → Type 0
EndsWindow (Move.clear_global now over) = Unit
EndsWindow _ = ⊥

-- The runs in which no thread finds the window over, with their logs.
pub data Run (m n : ℕ) (gate : ClaudeBudgetGate) : List (Bytes × ℕ) → System → Type 0 where
  started : Run m n gate [] (init gate)
  later :
      {log : List (Bytes × ℕ)} {s : System} (i : ℕ) {mem : Shared} {p : Pc}
      → Run m n gate log s
      → i < n
      → (move : Move m s.mem (s.pc i) mem p) → ¬ EndsWindow move
      → Run m n gate (recorded move log) (record { mem = mem; pc = update s.pc i p })

pub run-IsReached :
    (m n : ℕ) (gate : ClaudeBudgetGate) (log : List (Bytes × ℕ)) (s : System)
    → Run m n gate log s
    → IsReached m n gate s
run-IsReached m n gate _ _ Run.started = IsReached.start
run-IsReached m n gate _ _ (Run.later {log} {s} i before lt move open_still) =
    IsReached.later (run-IsReached m n gate log s before) (Step.pick i lt move)

Move-calm :
    (m : ℕ) (s s' : Shared) (p p' : Pc) (move : Move m s p s' p')
    → ¬ EndsWindow move
    → ¬ IsClearing p
    → ¬ IsClearing p'
Move-calm m s s' p p' (Move.clear_global now over) open_still calm = absurd (open_still tt)
Move-calm m s s' p p' Move.clear_next open_still calm = absurd (calm tt)
Move-calm m s s' p p' (Move.clear_late k) open_still calm = absurd (calm tt)
Move-calm m s s' p p' _ open_still calm = λ c. c

-- A step keeps the global counter equal to the log with what is pending: `before` and `after` are the
-- sums of the pending tokens.
Move-global :
    (m before after : ℕ) (log : List (Bytes × ℕ)) (s s' : Shared) (p p' : Pc)
    (move : Move m s p s' p')
    → ¬ EndsWindow move
    → after + pending p ≡ before + pending p'
    → s.gate.global_used ≡ (total_tokens log + before) % u64_mod
    → s'.gate.global_used ≡ (total_tokens (recorded move log) + after) % u64_mod
unfolding store_tenant restart_window add_global add_tenant
Move-global m b a log s s' p p' (Move.clear_global now over) open_still e h = absurd (open_still tt)
Move-global m b a log s s' p p' (Move.count_global n small) open_still e h = omega arith
Move-global m b a log s s' p p' Move.count_tenant open_still e h = omega arith
Move-global m b a log s s' p p' _ open_still e h = omega arith

Move-tenant :
    (m : ℕ) (log : List (Bytes × ℕ)) (s s' : Shared) (p p' : Pc) (move : Move m s p s' p')
    (t : Bytes)
    → ¬ EndsWindow move
    → ¬ IsClearing p
    → usage s.gate t ≡ tokens_of t log % u64_mod
    → usage s'.gate t ≡ tokens_of t (recorded move log) % u64_mod
unfolding restart_window add_global
Move-tenant m log s s' p p' (Move.clear_global now over) t open_still calm h =
    absurd (open_still tt)
Move-tenant m log s s' p p' Move.clear_next t open_still calm h = absurd (calm tt)
Move-tenant m log s s' p p' (Move.clear_late k) t open_still calm h = absurd (calm tt)
Move-tenant m log s s' p p' (Move.count_tenant {t = r} {n = n}) t open_still calm h =
    elim (Bool-cases (eq_bytes r t)) [
      | inl same ↦ let up = rw same at (usage-add s.gate r t n) in rw same (omega arith)
      | inr other ↦ let kept = rw other at (usage-add s.gate r t n) in rw other (omega arith)
    ]
Move-tenant m log s s' p p' _ t open_still calm h = h

-- What the states of these runs satisfy.
record IsCounted (n : ℕ) (log : List (Bytes × ℕ)) (s : System) : Type 0 where
  calm : (i : ℕ) → ¬ IsClearing (s.pc i)
  global : s.mem.gate.global_used ≡ (total_tokens log + total pending n s.pc) % u64_mod
  tenant : (t : Bytes) → usage s.mem.gate t ≡ tokens_of t log % u64_mod

run-IsCounted :
    (m n gl tl now : ℕ) (log : List (Bytes × ℕ)) (s : System)
    → Run m n (new gl tl now) log s
    → IsCounted n log s
unfolding new used_by
run-IsCounted m n gl tl now _ _ Run.started = record {
  calm = λ i c. c;
  global = omega (arith, total_zero pending n (λ _. Pc.idle) (λ _ _. refl));
  tenant = λ t. omega arith;
}
run-IsCounted m n gl tl now _ _ (Run.later {log} {s} i {mem} {p} before lt move open_still) =
    let c = run-IsCounted m n gl tl now log s before in
    let pc = update s.pc i p in
    record {
      calm = λ j.
          update_case (λ p. ¬ IsClearing p) s.pc i p j
            (Move-calm m s.mem mem (s.pc i) p move open_still (c.calm i)) (c.calm j);
      global =
          Move-global m (total pending n s.pc) (total pending n pc) log s.mem mem (s.pc i) p move
            open_still (total-update pending n i s.pc p lt) c.global;
      tenant =
          λ t. Move-tenant m log s.mem mem (s.pc i) p move t open_still (c.calm i) (c.tenant t);
    }

-- The order of a log does not matter to its sums.
total-Permᴰ : {a b : List (Bytes × ℕ)} → Permᴰ a b → total_tokens a ≡ total_tokens b
total-Permᴰ Permᴰ.nil = refl
total-Permᴰ (Permᴰ.cons e d) = let ih = total-Permᴰ d in let f = ap (λ x. x.1) e in omega arith
total-Permᴰ (Permᴰ.swap e d) = let f = ap (λ x. x.1) e in let g = ap (λ x. x.1) d in omega arith
total-Permᴰ (Permᴰ.trans c d) = total-Permᴰ c ∙ total-Permᴰ d

abbrev share : Bytes → Bytes × ℕ → ℕ
share t r = if eq_bytes r.0 t then r.1 else 0

tokens-Permᴰ : (t : Bytes) {a b : List (Bytes × ℕ)} → Permᴰ a b → tokens_of t a ≡ tokens_of t b
tokens-Permᴰ t Permᴰ.nil = refl
tokens-Permᴰ t (Permᴰ.cons e d) = let ih = tokens-Permᴰ t d in let f = ap (share t) e in omega arith
tokens-Permᴰ t (Permᴰ.swap e d) = let f = ap (share t) e in let g = ap (share t) d in omega arith
tokens-Permᴰ t (Permᴰ.trans c d) = tokens-Permᴰ t c ∙ tokens-Permᴰ t d

-- Where no thread is between the two statements of `record_usage`, the counters of a run in which no
-- thread finds the window over are those that the same requests leave, recorded one after the other
-- on a new gate in any order.
pub threads_refine_sequence :
    (m n gl tl now : ℕ) (log order : List (Bytes × ℕ)) (s : System)
    → Run m n (new gl tl now) log s
    → ((i : ℕ) → i < n → pending (s.pc i) ≡ 0)
    → Perm log order
    → (s.mem.gate.global_used ≡ (record_all (new gl tl now) order).global_used)
      × ((t : Bytes) → usage s.mem.gate t ≡ usage (record_all (new gl tl now) order) t)
threads_refine_sequence m n gl tl now log order s run settled same =
    let c = run-IsCounted m n gl tl now log s run in
    let none_left = total_zero pending n s.pc settled in
    let (sum, shares) = counts-log gl tl now order in
    let same_sum : total_tokens log ≡ total_tokens order =
      ∥∥₁_elim same (hlevel) (λ d. total-Permᴰ d) in
    (
      omega (arith, c.global),
      λ t.
          let same_share : tokens_of t log ≡ tokens_of t order =
            ∥∥₁_elim same (hlevel) (λ d. tokens-Permᴰ t d) in
          omega (arith, c.tenant t, shares t),
    )
