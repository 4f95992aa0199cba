-- ===== src/State/Race/Overlap/Ended.antt =====
-- How many calls a hydration (crates/af-swarm-state/src/hydrate.rs) has left, whatever freezes do meanwhile.
use swarm_runtime.Prelude.{ℕ, ◌+◌, ◌-◌, ◌≤◌, Bytes, Bool, List, [], ◌∷◌, ◌≡◌, refl, arith}
use swarm_runtime.State.Error.{StateResult, ok, err, panic}
use swarm_runtime.State.Exec.{Exec}
use swarm_runtime.State.Proto.{AgentStateRecord, WorkingMemoryRecord}
use swarm_runtime.State.Store.{Platform}
use swarm_runtime.State.Freeze.{FreezeInput}
use swarm_runtime.State.Hydrate.{HydrationResult, AgentHydrationManager}
use swarm_runtime.State.Race.Overlap.{
  HydratePc, after_part, result_of, hydrate_advance, Overlap, Event, overlap_step, overlap,
}

abbrev calls_left : HydratePc → ℕ
calls_left HydratePc.begun = 3
calls_left (HydratePc.state_read s) = 2
calls_left (HydratePc.state_free s) = 1
calls_left (HydratePc.returned r) = 0

abbrev pub hydrating_calls : List Event → ℕ
hydrating_calls [] = 0
hydrating_calls (Event.freezing x ∷ events) = hydrating_calls events
hydrating_calls (Event.hydrating ∷ events) = 1 + hydrating_calls events

after_part-calls_left :
    {A : Type 0} (n : ℕ) (next : A → HydratePc) (r : StateResult A)
    → ((x : A) → calls_left (next x) ≤ n)
    → calls_left (after_part next r) ≤ n
after_part-calls_left n next (ok x) h = h x
after_part-calls_left n next (err e) h = omega arith
after_part-calls_left n next panic h = omega arith

result_of-calls_left :
    (s : AgentStateRecord) (p : WorkingMemoryRecord × Bool) → calls_left (result_of s p) ≤ 0
result_of-calls_left s (m, recovered) = omega arith

none_left :
    (p : HydratePc)
    → calls_left p ≤ 0
    → (result : StateResult HydrationResult) × (p ≡ HydratePc.returned result)
none_left HydratePc.begun h = absurd (omega arith)
none_left (HydratePc.state_read s) h = absurd (omega arith)
none_left (HydratePc.state_free s) h = absurd (omega arith)
none_left (HydratePc.returned r) h = (r, refl)

module _ (E : Platform) (recover : Bytes → Bytes → Exec E.World WorkingMemoryRecord)
    (manager : AgentHydrationManager) (t a : Bytes) where
  hydrate_advance-calls_left :
      (p : HydratePc) (w : E.World)
      → calls_left (hydrate_advance E recover manager t a p w).0 ≤ calls_left p - 1
  unfolding hydrate_advance
  hydrate_advance-calls_left HydratePc.begun w =
      after_part-calls_left 2 HydratePc.state_read _ (λ s. omega arith)
  hydrate_advance-calls_left (HydratePc.state_read s) w =
      after_part-calls_left 1 (λ u. HydratePc.state_free s) _ (λ u. omega arith)
  hydrate_advance-calls_left (HydratePc.state_free s) w =
      after_part-calls_left 0 (result_of s) _ (result_of-calls_left s)
  hydrate_advance-calls_left (HydratePc.returned r) w = omega arith

  overlap-calls_left :
      (inputs : ℕ → FreezeInput) (o : Overlap E) (events : List Event)
      → calls_left (overlap E recover manager t a inputs o events).hydration
        ≤ calls_left o.hydration - hydrating_calls events
  unfolding overlap overlap_step
  overlap-calls_left inputs o [] = omega arith
  overlap-calls_left inputs o (Event.freezing x ∷ events) =
      overlap-calls_left inputs (overlap_step E recover manager t a inputs o (Event.freezing x))
        events
  overlap-calls_left inputs o (Event.hydrating ∷ events) =
      let one = hydrate_advance-calls_left o.hydration o.freezers.world in
      let rest =
        overlap-calls_left inputs (overlap_step E recover manager t a inputs o Event.hydrating)
          events in
      omega arith

  pub overlap_ends :
      (inputs : ℕ → FreezeInput) (o : Overlap E) (events : List Event)
      → calls_left o.hydration ≤ hydrating_calls events
      → (result : StateResult HydrationResult) × ((overlap E recover manager t a inputs o
            events).hydration
          ≡ HydratePc.returned result)
  overlap_ends inputs o events enough =
      let left = overlap-calls_left inputs o events in
      none_left (overlap E recover manager t a inputs o events).hydration (omega arith)
