-- ===== src/Inference/Budget/Threads/Progress.antt =====
-- The locks of crates/af-inference-client/src/budget.rs: who holds the mutex, who iterates over the map,
-- and which thread can go on.
use swarm_runtime.Prelude.{ℕ, ◌+◌, ◌<◌, Bool, ◌≡◌, refl, ap, arith, length, if◌then◌else◌}
use swarm_runtime.Prelude.Families.{update, total, total-update, total_zero}
use swarm_runtime.Inference.Budget.{ClaudeBudgetGate}
use swarm_runtime.Inference.Budget.Threads.{Shared, Pc, Move, System, Step, IsReached, keys}

-- 1 for a thread that holds the mutex.
abbrev pub holds : Pc → ℕ
holds (Pc.holding t) = 1
holds (Pc.clearing t ks) = 1
holds _ = 0

abbrev flag : Bool → ℕ
flag b = if b then 1 else 0

Move-lock :
    (m before after : ℕ) (s s' : Shared) (p p' : Pc)
    → Move m s p s' p'
    → after + holds p ≡ before + holds p'
    → before ≡ flag s.locked
    → after ≡ flag s'.locked
Move-lock m b a s s' p p' (Move.lock is_free) e h = let f = ap flag is_free in omega arith
Move-lock m b a s s' p p' (Move.keep_window now open_still) e h = ground arith
Move-lock m b a s s' p p' (Move.restart now) e h = ground arith
Move-lock m b a s s' p p' _ e h = omega arith

-- The mutex is taken exactly while one thread, and no more, holds it.
pub reached_lock :
    (m n : ℕ) (gate : ClaudeBudgetGate) (s : System)
    → IsReached m n gate s
    → total holds n s.pc ≡ flag s.mem.locked
reached_lock m n gate _ IsReached.start = total_zero holds n (λ _. Pc.idle) (λ _ _. refl)
reached_lock m n gate _ (IsReached.later {s = s} before (Step.pick i {mem} {p} lt move)) =
    Move-lock m (total holds n s.pc) (total holds n (update s.pc i p)) s.mem mem (s.pc i) p move
      (total-update holds n i s.pc p lt) (reached_lock m n gate s before)

-- A thread is inside a call of the gate: not idle, nor with a request under way.
abbrev pub IsInCall : Pc → Type 0
IsInCall Pc.idle = ⊥
IsInCall (Pc.allowed t) = ⊥
IsInCall _ = Unit

-- How far a call is from its return.
abbrev pub distance : Shared → Pc → ℕ
distance s (Pc.locking t) = 5 + length (keys s.gate.tenant_used)
distance s (Pc.holding t) = 4 + length (keys s.gate.tenant_used)
distance s (Pc.clearing t ks) = 3 + length ks
distance s (Pc.at_global t) = 2
distance s (Pc.at_tenant t) = 1
distance s (Pc.charging t n) = 1
distance s _ = 0

-- A step that brings a call nearer its return.
pub record Nearer (m : ℕ) (s : Shared) (p : Pc) : Type 0 where
  pub mem : Shared
  pub at : Pc
  pub move : Move m s p mem at
  pub less : distance mem at < distance s p

abbrev IsWaiting : Pc → Type 0
IsWaiting (Pc.locking t) = Unit
IsWaiting _ = ⊥

-- The locks of the map's shards. A write to the map locks its shard within one step, and a look at a
-- tenant's counter as well. An iteration keeps a shard locked from one step to the next: a thread that
-- is about to write may have to wait for it.
abbrev pub IsCounting : Pc → Type 0
IsCounting (Pc.charging t n) = Unit
IsCounting _ = ⊥

abbrev pub IsIterating : Pc → Type 0
IsIterating (Pc.clearing t ks) = Unit
IsIterating _ = ⊥
