-- ===== src/State/Tests/Life.antt =====
-- The life of the agent of the tests (crates/af-swarm-state/src/freeze.rs and hydrate.rs): frozen once,
-- then refused with the ETags of before, hydrated, and left alone for an hour and for a day.
use swarm_runtime.Prelude.{
  ◌+◌, ◌%◌, false, none, some, ◌≡◌, refl, arith, codes, u64_mod, Bytes, leb, if◌then◌else◌,
}
use swarm_runtime.State.Error.{ok, etag_conflict}
use swarm_runtime.State.Proto.{AgentStateRecord, WorkingMemoryRecord}
use swarm_runtime.State.Freeze.{freeze}
use swarm_runtime.State.Hydrate.{new_hydration_manager, hydrate_with}
use swarm_runtime.State.Life.{IsLast, IsSettled, Life}
use swarm_runtime.State.Life.Refine.{Life-refines_cell}
use swarm_runtime.State.Tests.Platform.{
  World, state_wire, memory_wire, in_memory, in_memory_occ, in_memory-IsAvailable,
  in_memory-IsLossless,
}
use swarm_runtime.State.Dormancy.Woken.{recovered}
use swarm_runtime.State.Tests.Waiting.{rest, in_memory_ttl}
use swarm_runtime.State.Tests.Lifecycle.{
  t1, a1, stored_state, stored_memory, before, input, no_recovery, code,
}

settled :
    IsSettled in_memory in_memory_occ in_memory_ttl in_memory-IsLossless no_recovery
      new_hydration_manager t1 a1 none 6 false before
unfolding code
settled = record {
  s = stored_state;
  m = stored_memory;
  sr = record { value = state_wire stored_state; etag = codes "s" };
  mr = record { value = memory_wire stored_memory; etag = codes "m" };
  state_stored = refl;
  state_decoded = refl;
  memory_stored = refl;
  memory_decoded = refl;
  is_idle = refl;
  agree = refl;
  counted = refl;
  is_last = tt;
}

abbrev once : World
once = (freeze in_memory input before).1

-- The life up to the freeze, and to the end.
Life-once :
    Life in_memory in_memory_occ in_memory_ttl in_memory-IsLossless no_recovery
      new_hydration_manager t1 a1 6 1
      (some input)
      0
      once
unfolding code
Life-once =
    Life.frozen {w1 = before} {seq = 1000} (Life.created settled refl refl)
      (record {
        state = stored_state;
        working_memory = stored_memory;
        recovered_from_checkpoint = false;
      })
      input refl refl refl refl refl

Life-refused :
    Life in_memory in_memory_occ in_memory_ttl in_memory-IsLossless no_recovery
      new_hydration_manager t1 a1 6 1
      (some input)
      0
      (freeze in_memory input once).1
unfolding code
Life-refused =
    Life.refused {e = etag_conflict (codes "t1||a1||working_memory")} Life-once input refl refl refl
      refl refl refl

abbrev later : World
later =
    rest 3600
      (hydrate_with in_memory no_recovery new_hydration_manager t1 a1
        (freeze in_memory input once).1).1

Life-later :
    Life in_memory in_memory_occ in_memory_ttl in_memory-IsLossless no_recovery
      new_hydration_manager t1 a1 6 1
      (some input)
      3600
      later
Life-later = Life.idled (Life.hydrated Life-refused) 3600

Life-refines_cell_example :
    (s : AgentStateRecord) × (m : WorkingMemoryRecord) × (v : World) × ((j : Bytes)
      → v.cells j ≡ later.cells j)
    × ((hydrate_with in_memory no_recovery new_hydration_manager t1 a1 later).0 ≡ (
        if leb 86400 3600
        then recovered s (no_recovery t1 a1 v).0
        else ok (record { state = s; working_memory = m; recovered_from_checkpoint = false })))
    × IsLast (some input) s m
    × (m.version ≡ s.working_memory_version)
    × (m.version ≡ (6 + 1) % u64_mod)
Life-refines_cell_example =
    Life-refines_cell in_memory in_memory_occ in_memory_ttl in_memory-IsLossless no_recovery
      new_hydration_manager t1 a1 (refl, refl) (refl, refl) (λ w j. refl) (λ w j. refl) 6 1 3600
      (some input) later in_memory-IsAvailable (omega arith) Life-later
