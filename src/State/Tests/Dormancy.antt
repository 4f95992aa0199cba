-- ===== src/State/Tests/Dormancy.antt =====
-- The agent of the tests left alone for a day (crates/af-swarm-state/src/freeze.rs and hydrate.rs).
use swarm_runtime.Prelude.{Bytes, leb, none, ◌≡◌, refl, if◌then◌else◌}
use swarm_runtime.State.Error.{ok, err, panic, etag_conflict}
use swarm_runtime.State.Keys.{working_memory_key}
use swarm_runtime.State.Proto.{Timestamp}
use swarm_runtime.State.Freeze.{freeze}
use swarm_runtime.State.Hydrate.{new_hydration_manager, hydrate_with, hydrate}
use swarm_runtime.State.Lifecycle.{thawed}
use swarm_runtime.State.Dormancy.Woken.{recovered, hydrate-idle}
use swarm_runtime.State.Dormancy.Lost.{IsLater, lost_memory_locks}
use swarm_runtime.State.Tests.Platform.{
  World, in_memory, in_memory_occ, in_memory-IsAvailable, in_memory-IsLossless,
}
use swarm_runtime.State.Tests.Waiting.{rest, in_memory_ttl}
use swarm_runtime.State.Tests.Lifecycle.{t1, a1, before, input, no_recovery, code}

abbrev frozen_once : World
frozen_once = (freeze in_memory input before).1

frozen_once_ok : freeze in_memory input before ≡ (ok 1000, frozen_once)
unfolding code
frozen_once_ok = refl

hydrate-idle_example :
    (memory_stamp : Timestamp) × (state_stamp : Timestamp) × (v : World) × ((j : Bytes)
      → v.cells j ≡ (rest 86400 frozen_once).cells j)
    × ((hydrate_with in_memory no_recovery new_hydration_manager t1 a1 (rest 86400 frozen_once)).0
        ≡ (if leb 86400 86400
            then recovered (thawed input memory_stamp state_stamp).state (no_recovery t1 a1 v).0
            else ok (thawed input memory_stamp state_stamp)))
    × ((hydrate in_memory new_hydration_manager t1 a1 (rest 86400 frozen_once)).0
        ≡ (if leb 86400 86400 then panic else ok (thawed input memory_stamp state_stamp)))
hydrate-idle_example =
    hydrate-idle in_memory in_memory_occ in_memory_ttl in_memory-IsAvailable in_memory-IsLossless
      no_recovery new_hydration_manager input before frozen_once 1000 86400 frozen_once_ok

abbrev lost : World
lost = rest 86400 frozen_once

lost_gone : lost.cells (working_memory_key t1 a1) ≡ none
unfolding code
lost_gone = refl

-- The agent is hydrated, and frozen again ten seconds later.
lost_memory_locks_example :
    (freeze in_memory input
      (rest 10 (hydrate_with in_memory no_recovery new_hydration_manager t1 a1 lost).1)).0
    ≡ err (etag_conflict (working_memory_key t1 a1))
lost_memory_locks_example =
    lost_memory_locks in_memory in_memory_occ in_memory_ttl no_recovery new_hydration_manager t1 a1
      (refl, refl) (refl, refl) (λ t a w j. refl) lost _ input lost_gone
      (IsLater.waited (IsLater.hydrated IsLater.begun t1 a1) 10) refl refl
