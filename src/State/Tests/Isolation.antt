-- ===== src/State/Tests/Isolation.antt =====
-- Freeze and hydration on the store in memory, and the records that they leave alone.
use swarm_runtime.Prelude.{true, eq_bytes, false, ap, Bytes, ◌≡◌, refl, codes}
use swarm_runtime.State.Error.{ok}
use swarm_runtime.State.Exec.{Exec}
use swarm_runtime.State.Keys.Families.{RecordKey, state, built}
use swarm_runtime.State.Proto.{WorkingMemoryRecord}
use swarm_runtime.State.Freeze.{freeze}
use swarm_runtime.State.Hydrate.{hydrate_with, new_hydration_manager}
use swarm_runtime.State.Isolation.{freeze_isolated, hydrate_reads_only}
use swarm_runtime.State.Tests.Platform.{World, in_memory, in_memory_occ}
use swarm_runtime.State.Tests.Lifecycle.{t1, a1, stored_memory, before, input}

abbrev empty_recovery : Bytes → Bytes → Exec World WorkingMemoryRecord
empty_recovery t a w = (ok stored_memory, w)

abbrev other_key : RecordKey
other_key = state (codes "t2") a1

other_tenant : (codes "t2") ≡ t1 → ⊥
other_tenant h = let e : false ≡ true = ap (λ s. eq_bytes s t1) h in cc

freeze_isolated_example :
    in_memory_occ.view (freeze in_memory input before).1 (built other_key)
    ≡ in_memory_occ.view before (built other_key)
freeze_isolated_example =
    freeze_isolated in_memory in_memory_occ input other_key before (refl, refl) (refl, refl)
      (refl, refl) (refl, refl) (λ h. other_tenant h.0)

hydrate_reads_only_example :
    in_memory_occ.view
      (hydrate_with in_memory empty_recovery new_hydration_manager t1 a1 before).1
      (codes "t1||a1||state")
    ≡ in_memory_occ.view before (codes "t1||a1||state")
hydrate_reads_only_example =
    hydrate_reads_only in_memory in_memory_occ empty_recovery new_hydration_manager t1 a1 before
      (λ v j. refl) (codes "t1||a1||state")
