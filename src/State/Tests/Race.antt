-- ===== src/State/Tests/Race.antt =====
-- Two freezes of one agent (crates/af-swarm-state/src/freeze.rs) on the store in memory, call by call,
-- with a hydration reading in between.
use swarm_runtime.Prelude.{
  false, Bytes, true, ℕ, zero, suc, ◌≤◌, ◌<◌, List, [], ◌∷◌, ◌≡◌, ◌≢◌, refl, codes, arith,
  if◌then◌else◌, ◌==◌,
}
use swarm_runtime.State.Error.{ok, err, etag_conflict}
use swarm_runtime.State.Proto.{Timestamp, WorkingMemoryRecord}
use swarm_runtime.State.Race.Mixed.{mixed_pair_undetected}
use swarm_runtime.State.Freeze.{frozen_memory, frozen_state, FreezeInput}
use swarm_runtime.State.Exec.{Exec}
use swarm_runtime.State.Hydrate.{HydrationResult, new_hydration_manager, hydrate_with}
use swarm_runtime.State.Lifecycle.{thawed}
use swarm_runtime.State.Race.{FreezePc, Freezers, Action, advance, act, run, init}
use swarm_runtime.State.Race.Alone.{advances}
use swarm_runtime.State.Race.Winner.{IsRace, IsBehind, HasBoth}
use swarm_runtime.State.Race.Outcome.{one_freeze_wins, hydrate_after_race}
use swarm_runtime.State.Race.Available.{IsFinished, turns}
use swarm_runtime.State.Race.Success.{IsCurrent, one_freeze_succeeds}
use swarm_runtime.State.Tests.Platform.{
  World, in_memory, in_memory_occ, in_memory-IsAvailable, in_memory-IsLossless,
}
use swarm_runtime.State.Tests.Lifecycle.{
  t1, a1, stored_memory, before, input, no_recovery, code, stored_state,
}

-- The second freeze has other notes in its working memory.
abbrev pub inputs : ℕ → FreezeInput
inputs i =
    if i == 1
    then record input { working_memory = record stored_memory { scratchpad_bytes = codes "later" } }
    else input

pub same_agent : IsRace t1 a1 (codes "m") inputs
same_agent = record {
  tenant = λ i. ground arith;
  agent = λ i. ground arith;
  etag = λ i. ground arith;
}

abbrev step : ℕ → Action
step = Action.freeze_step

-- Both read the clock, the second writes first, and the first is refused.
abbrev schedule : List Action
schedule =
    step 0
    ∷ step 1
    ∷ step 1
    ∷ Action.read_key (codes "t1||a1||state")
    ∷ step 0
    ∷ step 1
    ∷ step 0
    ∷ Action.read_clock
    ∷ step 1
    ∷ step 1
    ∷ step 0
    ∷ step 1
    ∷ step 1
    ∷ step 0
    ∷ step 0
    ∷ step 0
    ∷ []

abbrev after : Freezers in_memory
after = run in_memory inputs (init in_memory before) schedule

first_refused :
    after.pc 0 ≡ FreezePc.finished (err (etag_conflict (codes "t1||a1||working_memory")))
unfolding code run act advance
first_refused = refl

second_done : after.pc 1 ≡ FreezePc.finished (ok 1000)
unfolding code run act advance
second_done = refl

one_freeze_wins_example :
    ((j seq' : ℕ) → after.pc j ≡ FreezePc.finished (ok seq') → j ≡ 1)
    × HasBoth in_memory in_memory_occ (inputs 1) after.world
one_freeze_wins_example =
    one_freeze_wins in_memory in_memory_occ inputs same_agent schedule before 1 1000 second_done

hydrate_after_race_example :
    (memory_stamp : Timestamp) × (state_stamp : Timestamp) × ((hydrate_with in_memory no_recovery
        new_hydration_manager t1 a1 after.world).0
      ≡ ok (thawed (inputs 1) memory_stamp state_stamp))
hydrate_after_race_example =
    hydrate_after_race in_memory in_memory_occ in_memory-IsAvailable in_memory-IsLossless inputs
      same_agent no_recovery new_hydration_manager schedule before 1 1000 second_done

current : IsCurrent in_memory in_memory_occ in_memory-IsAvailable inputs same_agent before
unfolding code
current = record { memory = λ i. ground arith; state = λ i. ground arith }

enough : (i : ℕ) → i < 2 → 7 ≤ turns i schedule
enough zero h = omega arith
enough (suc zero) h = omega arith
enough (suc (suc i)) h = absurd (omega arith)

one_freeze_succeeds_example :
    (i : ℕ) × (i < 2)
    × ((seq : ℕ) × (after.pc i ≡ FreezePc.finished (ok seq)))
    × ((j : ℕ) → j < 2 → j ≢ i → IsFinished (after.pc j) × IsBehind (after.pc j))
one_freeze_succeeds_example =
    one_freeze_succeeds in_memory in_memory_occ in_memory-IsAvailable inputs same_agent 2 schedule
      before (omega arith) current (ground arith) enough

-- The freeze stops after its second call, with its working memory written and its state not.
abbrev stopped : World
stopped = (advances in_memory 2 input (FreezePc.starting, before)).1

abbrev pub known_recovery : Bytes → Bytes → Exec World WorkingMemoryRecord
known_recovery t a w = (ok stored_memory, w)

abbrev pub recovered : HydrationResult
recovered = record {
  state = stored_state;
  working_memory = stored_memory;
  recovered_from_checkpoint = true;
}

-- A freeze from a recovered working memory, with the ETag of the one that the stalled freeze wrote.
abbrev late_input : FreezeInput
late_input = record input {
  working_memory = record stored_memory { scratchpad_bytes = codes "recovered" };
  memory_etag = codes "xm";
}

abbrev stalled : FreezePc × World
stalled = advances in_memory 2 input (FreezePc.starting, before)

abbrev overtaken : FreezePc × World
overtaken =
    advances in_memory 5 input
      (stalled.0, (advances in_memory 2 late_input (FreezePc.starting, stalled.1)).1)

mixed_pair_undetected_example :
    ((seq : ℕ) × (overtaken.0 ≡ FreezePc.finished (ok seq)))
    × ((m : WorkingMemoryRecord) × (memory_stamp : Timestamp) × (state_stamp : Timestamp) × (m
          ≡ frozen_memory late_input.working_memory memory_stamp)
        × ((hydrate_with in_memory no_recovery new_hydration_manager t1 a1 overtaken.1).0
            ≡ ok (record {
              state = frozen_state stored_state m.version state_stamp;
              working_memory = m;
              recovered_from_checkpoint = false;
            })))
unfolding code advance advances
mixed_pair_undetected_example =
    mixed_pair_undetected in_memory in_memory_occ in_memory-IsAvailable in_memory-IsLossless
      no_recovery new_hydration_manager input late_input before refl refl refl refl refl refl
