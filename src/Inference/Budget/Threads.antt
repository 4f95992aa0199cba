-- ===== src/Inference/Budget/Threads.antt =====
-- crates/af-inference-client/src/budget.rs with several threads: the gate is shared, each statement
-- on an atomic counter is a step of its own, and the steps of the threads mix in any order. A thread
-- is a caller that asks `has_capacity` before each request and records what the request used.
pub mod Moves
pub mod Overrun
pub mod Ledger
pub mod Progress
pub mod Alone
pub mod Calls
pub mod Extent
use swarm_runtime.Prelude.{
  ℕ, ◌≤◌, ◌<◌, Bytes, Bool, true, false, List, [], ◌∷◌, ◌++◌, ◌≡◌, map, eq_bytes, if◌then◌else◌,
}
use swarm_runtime.Prelude.Families.{update}
use swarm_runtime.Inference.Budget.{
  ClaudeBudgetGate, new, add_global, add_tenant, check_global, check_tenant,
}
use swarm_runtime.Inference.Budget.Window.{IsExpired}

-- The statements of `maybe_reset_window`: the store of the global counter, that of one entry of the
-- map that the iteration visits, and the new start of the window.
unfoldable pub store_global : ClaudeBudgetGate → ClaudeBudgetGate
store_global self = record self { global_used = 0 }

unfoldable pub store_entry : Bytes → List (Bytes × ℕ) → List (Bytes × ℕ)
store_entry t [] = []
store_entry t ((k, used) ∷ l) = if eq_bytes k t then (k, 0) ∷ l else (k, used) ∷ store_entry t l

unfoldable pub store_tenant : ClaudeBudgetGate → Bytes → ClaudeBudgetGate
unfolding store_entry
store_tenant self t = record self { tenant_used = store_entry t self.tenant_used }

unfoldable pub restart_window : ClaudeBudgetGate → ℕ → ClaudeBudgetGate
restart_window self now = record self { window_start = now }

-- The gate, and whether a thread holds the mutex of `window_start`.
pub record Shared : Type 0 where
  pub gate : ClaudeBudgetGate
  pub locked : Bool

-- Where a thread is. `clearing` has the keys that the iteration still has to visit, `charging` the
-- tokens that the global counter has and the tenant's has not.
pub data Pc : Type 0 where
  idle : Pc
  locking holding : Bytes → Pc
  clearing : Bytes → List Bytes → Pc
  at_global at_tenant allowed : Bytes → Pc
  charging : Bytes → ℕ → Pc

abbrev pub keys : List (Bytes × ℕ) → List Bytes
keys l = map (λ e. e.0) l

-- One step of one thread. Requests use at most `m` tokens each. An iteration visits every key that
-- was in the map when it began, and may visit a later one. The locks of the map's shards are left out:
-- an entry and a look-up hold theirs within one step, and an iteration holds one from step to step, for
-- which the steps here do not wait. So they mix in every order that the locks allow, and in more.
pub data Move (m : ℕ) (s : Shared) : Pc → Shared → Pc → Type 0 where
  ask : (t : Bytes) → Move m s idle s (locking t)
  lock :
      {t : Bytes} → s.locked ≡ false → Move m s (locking t) (record s { locked = true }) (holding t)
  keep_window :
      {t : Bytes} (now : ℕ)
      → ¬ IsExpired s.gate now
      → Move m s (holding t) (record s { locked = false }) (at_global t)
  clear_global :
      {t : Bytes} (now : ℕ)
      → IsExpired s.gate now
      → Move m s
          (holding t)
          (record s { gate = store_global s.gate })
          (clearing t (keys s.gate.tenant_used))
  clear_next :
      {t k : Bytes} {ks : List Bytes}
      → Move m s (clearing t (k ∷ ks)) (record s { gate = store_tenant s.gate k }) (clearing t ks)
  clear_late :
      {t : Bytes} {ks : List Bytes} (k : Bytes)
      → Move m s (clearing t ks) (record s { gate = store_tenant s.gate k }) (clearing t ks)
  restart :
      {t : Bytes} (now : ℕ)
      → Move m s
          (clearing t [])
          (record { gate = restart_window s.gate now; locked = false })
          (at_global t)
  global_left : {t : Bytes} → check_global s.gate ≡ true → Move m s (at_global t) s (at_tenant t)
  global_spent : {t : Bytes} → check_global s.gate ≡ false → Move m s (at_global t) s idle
  tenant_left : {t : Bytes} → check_tenant s.gate t ≡ true → Move m s (at_tenant t) s (allowed t)
  tenant_spent : {t : Bytes} → check_tenant s.gate t ≡ false → Move m s (at_tenant t) s idle
  count_global :
      {t : Bytes} (n : ℕ)
      → n ≤ m
      → Move m s (allowed t) (record s { gate = add_global s.gate n }) (charging t n)
  count_tenant :
      {t : Bytes} {n : ℕ} → Move m s (charging t n) (record s { gate = add_tenant s.gate t n }) idle
  give_up : {t : Bytes} → Move m s (allowed t) s idle

-- `n` threads: an index from `n` on names none, and stays `idle`.
pub record System : Type 0 where
  pub mem : Shared
  pub pc : ℕ → Pc

pub data Step (m n : ℕ) (s : System) : System → Type 0 where
  pick :
      (i : ℕ) {mem : Shared} {p : Pc}
      → i < n
      → Move m s.mem (s.pc i) mem p
      → Step m n s (record { mem = mem; pc = update s.pc i p })

abbrev pub init : ClaudeBudgetGate → System
init gate = record { mem = record { gate = gate; locked = false }; pc = λ _. idle }

pub data IsReached (m n : ℕ) (gate : ClaudeBudgetGate) : System → Type 0 where
  start : IsReached m n gate (init gate)
  later : {s s' : System} → IsReached m n gate s → Step m n s s' → IsReached m n gate s'
