-- ===== src/Inference/Budget/Threads/Overrun.antt =====
-- How far the threads of crates/af-inference-client/src/budget.rs together get above the limits.
use swarm_runtime.Prelude.{
  ℕ, ◌+◌, ◌-◌, ◌*◌, ◌≤◌, ◌<◌, Bytes, true, ◌≡◌, refl, arith, eq_bytes, eq_bytes→eq, if◌then◌else◌,
  u64_mod, Bool-cases, Option-cases, inl, inr, ltb→lt,
}
use swarm_runtime.Prelude.Families.{
  update, total, total-update, total_bound, update_case, total_zero,
}
use swarm_runtime.Inference.Budget.{
  ClaudeBudgetGate, new, used_by, add_global, add_tenant, check_global, check_tenant,
}
use swarm_runtime.Inference.Budget.Usage.{usage}
use swarm_runtime.Inference.Budget.Window.{check_used_iff}
use swarm_runtime.Inference.Budget.Threads.{
  Shared, Pc, Move, System, Step, IsReached, store_global, store_tenant, restart_window,
}
use swarm_runtime.Inference.Budget.Threads.Moves.{usage-store, usage-add}

-- The tokens that a thread may still add to the global counter without another look at it, and to
-- the counter of tenant `t`.
abbrev to_global : ℕ → Pc → ℕ
to_global m (Pc.at_tenant t) = m
to_global m (Pc.allowed t) = m
to_global m _ = 0

abbrev to_tenant : ℕ → Bytes → Pc → ℕ
to_tenant m t (Pc.allowed s) = if eq_bytes s t then m else 0
to_tenant m t (Pc.charging s n) = if eq_bytes s t then n else 0
to_tenant m t _ = 0

abbrev IsSmall : ℕ → Pc → Type 0
IsSmall m (Pc.charging t n) = n ≤ m
IsSmall m _ = Unit

Move-IsSmall : (m : ℕ) (s s' : Shared) (p p' : Pc) → Move m s p s' p' → IsSmall m p'
Move-IsSmall m s s' p p' (Move.count_global n small) = small
Move-IsSmall m s s' p p' _ = tt

-- The limits do not move.
abbrev HasLimits : ℕ → ℕ → Shared → Type 0
HasLimits gl tl s = (s.gate.global_limit ≡ gl) × (s.gate.per_tenant_limit ≡ tl)

Move-HasLimits :
    (m gl tl : ℕ) (s s' : Shared) (p p' : Pc)
    → Move m s p s' p'
    → HasLimits gl tl s
    → HasLimits gl tl s'
unfolding store_global store_tenant restart_window add_global add_tenant
Move-HasLimits m gl tl s s' p p' (Move.count_global n small) h = h
Move-HasLimits m gl tl s s' p p' _ h = h

to_tenant_le : (m : ℕ) (t : Bytes) (p : Pc) → IsSmall m p → to_tenant m t p ≤ m
to_tenant_le m t (Pc.allowed s) h = ground arith
to_tenant_le m t (Pc.charging s n) h = ground arith
to_tenant_le m t _ h = omega arith

to_global_le : (m : ℕ) (p : Pc) → to_global m p ≤ m
to_global_le m (Pc.at_tenant t) = omega arith
to_global_le m (Pc.allowed t) = omega arith
to_global_le m _ = omega arith

-- A step keeps the global counter, with what all threads may add to it, under `gl - 1 + c`: `before` and
-- `after` are the sums over the threads.
Move-global :
    (m gl tl c before after : ℕ) (s s' : Shared) (p p' : Pc)
    → Move m s p s' p'
    → HasLimits gl tl s
    → gl - 1 + c < u64_mod
    → after + to_global m p ≡ before + to_global m p'
    → after ≤ c
    → s.gate.global_used + before ≤ gl - 1 + c
    → s'.gate.global_used + after ≤ gl - 1 + c
unfolding store_global store_tenant restart_window add_global add_tenant check_global
Move-global m gl tl c b a s s' p p' (Move.count_global n small) l fits e le h = omega arith
Move-global m gl tl c b a s s' p p' (Move.global_left left) l fits e le h =
    let room = ltb→lt s.gate.global_used s.gate.global_limit left in omega (arith, l.0)
Move-global m gl tl c b a s s' p p' _ l fits e le h = omega arith

tenant_room :
    (gate : ClaudeBudgetGate) (t : Bytes)
    → check_tenant gate t ≡ true
    → usage gate t ≤ gate.per_tenant_limit - 1
unfolding check_tenant
tenant_room gate t h =
    let room = check_used_iff gate.per_tenant_limit (used_by t gate.tenant_used) in
    elim (Option-cases (used_by t gate.tenant_used)) [
      | inl e ↦ rw e (ground arith)
      | inr (n, e) ↦ rw e (ground (arith, rw e at h))
    ]

-- The same for what a tenant has used.
Move-tenant :
    (m gl tl c before after : ℕ) (s s' : Shared) (p p' : Pc) (t : Bytes)
    → Move m s p s' p'
    → HasLimits gl tl s
    → tl - 1 + c < u64_mod
    → after + to_tenant m t p ≡ before + to_tenant m t p'
    → after ≤ c
    → usage s.gate t + before ≤ tl - 1 + c
    → usage s'.gate t + after ≤ tl - 1 + c
unfolding store_global store_tenant restart_window add_global
Move-tenant m gl tl c b a s s' p p' t (Move.clear_next {k = k}) l fits e le h =
    let down = usage-store k t s.gate.tenant_used in omega arith
Move-tenant m gl tl c b a s s' p p' t (Move.clear_late k) l fits e le h =
    let down = usage-store k t s.gate.tenant_used in omega arith
Move-tenant m gl tl c b a s s' p p' t (Move.tenant_left {t = r} left) l fits e le h =
    elim (Bool-cases (eq_bytes r t)) [
      | inl same ↦
          let room : usage s.gate t ≤ s.gate.per_tenant_limit - 1 =
            rw (eq_bytes→eq r t same) at (tenant_room s.gate r left) in
          omega (arith, l.1)
      | inr other ↦ let kept = rw other at e in omega arith
    ]
Move-tenant m gl tl c b a s s' p p' t (Move.count_tenant {t = r} {n = n}) l fits e le h =
    elim (Bool-cases (eq_bytes r t)) [
      | inl same ↦
          let up = rw same at (usage-add s.gate r t n) in let less = rw same at e in omega arith
      | inr other ↦
          let kept = rw other at (usage-add s.gate r t n) in
          let still = rw other at e in omega arith
    ]
Move-tenant m gl tl c b a s s' p p' t (Move.count_global n small) l fits e le h = ground arith
Move-tenant m gl tl c b a s s' p p' t (Move.give_up {t = r}) l fits e le h = ground arith
Move-tenant m gl tl c b a s s' p p' t _ l fits e le h = omega arith

module _ (m n gl tl : ℕ) (fits_global : gl - 1 + n * m < u64_mod)
    (fits_tenant : tl - 1 + n * m < u64_mod) where
  -- What every reached state satisfies.
  record IsBounded (s : System) : Type 0 where
    limits : HasLimits gl tl s.mem
    small : (i : ℕ) → IsSmall m (s.pc i)
    global : s.mem.gate.global_used + total (to_global m) n s.pc ≤ gl - 1 + n * m
    tenant : (t : Bytes) → usage s.mem.gate t + total (to_tenant m t) n s.pc ≤ tl - 1 + n * m

  Step-IsBounded : (s s' : System) → Step m n s s' → IsBounded s → IsBounded s'
  Step-IsBounded s s' (Step.pick i {mem} {p} lt move) b =
      let small : (j : ℕ) → IsSmall m (update s.pc i p j) = λ j.
        update_case (IsSmall m) s.pc i p j (Move-IsSmall m s.mem mem (s.pc i) p move) (b.small j) in
      let pc = update s.pc i p in
      record {
        limits = Move-HasLimits m gl tl s.mem mem (s.pc i) p move b.limits;
        small = small;
        global =
            Move-global m gl tl (n * m) (total (to_global m) n s.pc) (total (to_global m) n pc)
              s.mem mem (s.pc i) p move b.limits fits_global
              (total-update (to_global m) n i s.pc p lt)
              (total_bound (to_global m) m n pc (λ j. to_global_le m (pc j))) b.global;
        tenant = λ t.
            Move-tenant m gl tl (n * m) (total (to_tenant m t) n s.pc) (total (to_tenant m t) n pc)
              s.mem mem (s.pc i) p t move b.limits fits_tenant
              (total-update (to_tenant m t) n i s.pc p lt)
              (total_bound (to_tenant m t) m n pc (λ j. to_tenant_le m t (pc j) (small j)))
              (b.tenant t);
      }

  reached-IsBounded : (start : ℕ) (s : System) → IsReached m n (new gl tl start) s → IsBounded s
  unfolding new used_by
  reached-IsBounded start _ IsReached.start = record {
    limits = (refl, refl);
    small = λ i. tt;
    global = omega (arith, total_zero (to_global m) n (λ _. Pc.idle) (λ _ _. refl));
    tenant = λ t. omega (arith, total_zero (to_tenant m t) n (λ _. Pc.idle) (λ _ _. refl));
  }
  reached-IsBounded start s (IsReached.later before step) =
      Step-IsBounded _ s step (reached-IsBounded start _ before)

  -- However the steps of `n` threads mix, those of a window reset included, the global counter stays
  -- within `n` of the largest requests of one below the global limit, and a tenant's counter of one
  -- below the limit for a tenant (of 0 for a limit 0), where each thread asks before each request and
  -- these sums are below 2^64.
  pub overrun_bounded :
      (start : ℕ) (s : System)
      → IsReached m n (new gl tl start) s
      → (s.mem.gate.global_used ≤ gl - 1 + n * m)
        × ((t : Bytes) → usage s.mem.gate t ≤ tl - 1 + n * m)
  overrun_bounded start s reached =
      let b = reached-IsBounded start s reached in
      (omega (arith, b.global), λ t. omega (arith, b.tenant t))
