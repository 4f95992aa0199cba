-- ===== src/State/Tests/Overlap.antt =====
-- A hydration (crates/af-swarm-state/src/hydrate.rs) that reads the state before a freeze
-- (crates/af-swarm-state/src/freeze.rs) writes it and the working memory after, on the store in memory.
use swarm_runtime.Prelude.{ℕ, List, [], ◌∷◌, ◌≡◌, refl, codes, arith}
use swarm_runtime.State.Error.{StateResult, ok}
use swarm_runtime.State.Hydrate.{HydrationResult, new_hydration_manager}
use swarm_runtime.State.Race.{Action, advance, act, init}
use swarm_runtime.State.Race.Stopped.{IsWhole}
use swarm_runtime.State.Race.Overlap.{
  HydratePc, Event, Overlap, hydrate_advance, overlap_step, overlap,
}
use swarm_runtime.State.Race.Overlap.Loaded.{IsStored}
use swarm_runtime.State.Race.Overlap.Whole.{overlap-IsWhole}
use swarm_runtime.State.Race.Overlap.Returns.{Recovers, overlap_returns}
use swarm_runtime.State.Tests.Platform.{
  in_memory-IsAvailable, state_wire, memory_wire, in_memory-Answers, in_memory, in_memory_occ,
  in_memory-IsLossless,
}
use swarm_runtime.State.Tests.Lifecycle.{t1, a1, stored_memory, before, stored_state, code}
use swarm_runtime.State.Tests.Race.{inputs, same_agent, known_recovery, recovered}

-- The hydration's first call comes after the freeze's first write.
abbrev freezing : Event
freezing = Event.freezing (Action.freeze_step 1)

abbrev events : List Event
events =
    freezing ∷ freezing ∷ Event.hydrating ∷ freezing ∷ Event.hydrating ∷ freezing ∷ Event.hydrating
    ∷ []

abbrev start : Overlap in_memory
start = record { freezers = init in_memory before; hydration = HydratePc.begun }

-- It notices, and has its working memory from recovery.
torn_noticed :
    (overlap in_memory known_recovery new_hydration_manager t1 a1 inputs start events).hydration
    ≡ HydratePc.returned (ok recovered)
unfolding code overlap overlap_step hydrate_advance act advance
torn_noticed = refl

stored :
    IsStored in_memory in_memory_occ before t1 a1 inputs
      (record { value = state_wire stored_state; etag = codes "s" })
      (record { value = memory_wire stored_memory; etag = codes "m" })
      stored_state
      stored_memory
unfolding code
stored = record {
  state_stored = refl;
  state_decoded = refl;
  memory_stored = refl;
  memory_decoded = refl;
  agree = refl;
  from_stored = λ i. ground arith;
  fits = omega arith;
}

overlap-IsWhole_example :
    (result : StateResult HydrationResult) × ((overlap in_memory known_recovery
        new_hydration_manager t1 a1 inputs start events).hydration
      ≡ HydratePc.returned result)
    × ((r : HydrationResult)
        → result ≡ ok r
        → (i : ℕ) × IsWhole in_memory known_recovery (inputs i) stored_state stored_memory r)
overlap-IsWhole_example =
    overlap-IsWhole in_memory in_memory_occ in_memory-Answers in_memory-IsLossless known_recovery
      new_hydration_manager before inputs same_agent
      (record { value = state_wire stored_state; etag = codes "s" })
      (record { value = memory_wire stored_memory; etag = codes "m" }) stored_state stored_memory
      stored events (omega arith)

recovers : Recovers in_memory known_recovery
recovers t a w = (stored_memory, refl)

overlap_returns_example :
    (r : HydrationResult) × ((overlap in_memory known_recovery new_hydration_manager t1 a1 inputs
        start events).hydration
      ≡ HydratePc.returned (ok r))
    × ((i : ℕ) × IsWhole in_memory known_recovery (inputs i) stored_state stored_memory r)
overlap_returns_example =
    overlap_returns in_memory in_memory_occ in_memory-IsAvailable in_memory-Answers
      in_memory-IsLossless known_recovery recovers new_hydration_manager before inputs same_agent
      (record { value = state_wire stored_state; etag = codes "s" })
      (record { value = memory_wire stored_memory; etag = codes "m" }) stored_state stored_memory
      stored refl events (omega arith)
