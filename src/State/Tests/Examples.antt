-- ===== src/State/Tests/Examples.antt =====
-- The theorems on freeze and hydration (crates/af-swarm-state/src/freeze.rs, hydrate.rs) at the agent of
-- the tests.
use swarm_runtime.Prelude.{
  ℕ, Bytes, true, none, some, ◌≡◌, refl, codes, arith, pos, negsuc, ◌⊎◌, if◌then◌else◌, eq_bytes,
}
use swarm_runtime.State.Error.{ok, err, etag_conflict, agent_busy}
use swarm_runtime.State.Exec.{Exec}
use swarm_runtime.State.Keys.{checkpoint_key}
use swarm_runtime.State.Proto.{
  Timestamp, AgentStateRecord, WorkingMemoryRecord, status_code, active,
}
use swarm_runtime.State.Store.{ETag, StateRecord}
use swarm_runtime.State.Freeze.{FreezeInput, freeze, write_checkpoint, frozen_memory}
use swarm_runtime.State.Freeze.Writes.{state_key, memory_key, stamp_at}
use swarm_runtime.State.Freeze.Outcomes.{freeze_err}
use swarm_runtime.State.Freeze.Checkpoints.{IsStored, checkpoints_collide}
use swarm_runtime.State.Hydrate.{HydrationResult, new_hydration_manager, hydrate_with}
use swarm_runtime.State.Hydrate.Sound.{HydratedFrom, hydrate_sound}
use swarm_runtime.State.Hydrate.Errors.{hydrate_busy_before_epoch}
use swarm_runtime.State.Lifecycle.{thawed, hydrate-freeze, torn_write_detected}
use swarm_runtime.State.Hydrate.Reads.{IsRecovered}
use swarm_runtime.State.Tests.Platform.{
  World, Wire, state_wire, memory_wire, in_memory, in_memory_occ, in_memory-IsAvailable,
  in_memory-IsLossless,
}
use swarm_runtime.State.Tests.Lifecycle.{
  t1, a1, stored_state, stored_memory, cell, before, input, stale_input, no_recovery, code,
}

abbrev known_recovery : Bytes → Bytes → Exec World WorkingMemoryRecord
known_recovery t a w = (ok stored_memory, w)

hydrate-freeze_example :
    ((seq : ℕ) × ((freeze in_memory input before).0 ≡ ok seq))
    × ((memory_stamp : Timestamp) × (state_stamp : Timestamp) × ((hydrate_with in_memory no_recovery
            new_hydration_manager t1 a1
            (freeze in_memory input before).1).0
          ≡ ok (thawed input memory_stamp state_stamp)))
unfolding code
hydrate-freeze_example =
    hydrate-freeze in_memory in_memory_occ in_memory-IsAvailable in_memory-IsLossless no_recovery
      new_hydration_manager input before refl refl

abbrev torn : World
torn = (freeze in_memory stale_input before).1

abbrev recovered : HydrationResult
recovered = record {
  state = stored_state;
  working_memory = stored_memory;
  recovered_from_checkpoint = true;
}

torn_write_detected_example :
    (recovered.state ≡ stored_state)
    × (recovered.recovered_from_checkpoint ≡ true)
    × IsRecovered in_memory known_recovery t1 a1 recovered.working_memory
unfolding code
torn_write_detected_example =
    torn_write_detected in_memory in_memory_occ in_memory-IsLossless known_recovery
      new_hydration_manager stale_input before torn torn (etag_conflict (codes "t1||a1||state"))
      (record { value = state_wire stored_state; etag = codes "s" }) stored_state recovered refl
      refl refl (omega arith) refl (ground arith) refl

hydrate_sound_example :
    HydratedFrom in_memory known_recovery new_hydration_manager t1 a1 torn recovered
unfolding code
hydrate_sound_example =
    hydrate_sound in_memory known_recovery new_hydration_manager t1 a1 torn torn recovered refl

freeze_err_example :
    (in_memory_occ.view torn (state_key stale_input)
      ≡ in_memory_occ.view before (state_key stale_input))
    × ((in_memory_occ.view torn (memory_key stale_input)
          ≡ in_memory_occ.view before (memory_key stale_input))
        ⊎ ((tag : ETag) × (in_memory_occ.view torn (memory_key stale_input)
              ≡ cell (memory_wire (frozen_memory stored_memory (stamp_at in_memory before))) tag)))
unfolding code
freeze_err_example =
    freeze_err in_memory in_memory_occ stale_input before
      {e = etag_conflict (codes "t1||a1||state")} {w' = torn} refl

abbrev manual_input : FreezeInput
manual_input = record input { working_memory = record stored_memory { version = 7 } }

checkpoints_collide_example :
    (checkpoint_key t1 a1 1000 ≡ checkpoint_key t1 a1 1000)
    × IsStored in_memory in_memory_occ manual_input
        (state_wire stored_state)
        (memory_wire stored_memory)
        1000
        (write_checkpoint in_memory manual_input
          (state_wire stored_state)
          (memory_wire stored_memory)
          before).1
unfolding code
checkpoints_collide_example =
    checkpoints_collide in_memory in_memory_occ input manual_input (state_wire stored_state)
      (memory_wire stored_memory) (state_wire stored_state) (memory_wire stored_memory) before
      (write_checkpoint in_memory input (state_wire stored_state) (memory_wire stored_memory)
        before).1
      before
      (write_checkpoint in_memory manual_input (state_wire stored_state) (memory_wire stored_memory)
        before).1
      1000 1000 refl refl refl refl refl

-- The agent ACTIVE, hydrated at `seconds`.
abbrev active_state : Timestamp → AgentStateRecord
active_state last = record stored_state {
  status = status_code active;
  last_hydrated_at = some last;
}

abbrev world_with : AgentStateRecord → World
world_with s = record {
  cells = λ k. if eq_bytes k (codes "t1||a1||state") then cell (state_wire s) (codes "s") else none;
  lives = λ k. none;
  clock = 1000;
}

abbrev at_900 : Timestamp
at_900 = record { seconds = pos 900; nanos = pos 0 }

abbrev in_1969 : Timestamp
in_1969 = record { seconds = negsuc 0; nanos = pos 0 }

hydrate_busy_before_epoch_example :
    (hydrate_with in_memory no_recovery new_hydration_manager t1 a1
      (world_with (active_state in_1969))).0
    ≡ err (agent_busy t1 a1 0)
unfolding code
hydrate_busy_before_epoch_example =
    hydrate_busy_before_epoch in_memory no_recovery new_hydration_manager t1 a1
      (world_with (active_state in_1969)) (world_with (active_state in_1969))
      (record { value = state_wire (active_state in_1969); etag = codes "s" })
      (active_state in_1969) in_1969 0 refl refl refl refl refl (omega arith) (omega arith)
      (omega arith)

abbrev undecodable : World
undecodable = record {
  cells = λ k.
      if eq_bytes k (codes "t1||a1||state")
      then cell (memory_wire stored_memory) (codes "s")
      else none;
  lives = λ k. none;
  clock = 1000;
}

abbrev bad_record : StateRecord Wire
bad_record = record { value = memory_wire stored_memory; etag = codes "s" }
