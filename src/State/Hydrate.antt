-- ===== src/State/Hydrate.antt =====
-- crates/af-swarm-state/src/hydrate.rs: the cold start of an agent from the store. Checkpoint
-- recovery is a `todo!()` in the source: `hydrate_with` is the code around that call, for any
-- recovery, and `hydrate` is the code as committed.
pub mod Sound
pub mod Errors
pub mod Committed
pub mod Reads
use swarm_runtime.Prelude.{
  ℕ, ◌-◌, Bytes, Bool, true, false, Option, none, some, ℤ, as_u64, ltb, ◌==◌, if◌then◌else◌, eq_ℤ,
  saturating_sub,
}
use swarm_runtime.State.Error.{
  StateResult, ok, err, panic, invalid_input, no_state_record, agent_busy, torn_write, proto_error,
}
use swarm_runtime.State.Exec.{Exec, pure, lift, map_err, ◌>>=◌, ◌>>◌}
use swarm_runtime.State.Freeze.{unix_secs}
use swarm_runtime.State.Keys.{agent_state_key, working_memory_key}
use swarm_runtime.State.Proto.{
  Timestamp, AgentStateRecord, WorkingMemoryRecord, status_code, active,
}
use swarm_runtime.State.Store.{StateRecord, Platform}

pub record HydrationResult : Type 0 where
  pub state : AgentStateRecord
  pub working_memory : WorkingMemoryRecord
  pub recovered_from_checkpoint : Bool

-- The manager's configuration; its store is that of the platform.
pub record AgentHydrationManager : Type 0 where
  pub stale_active_threshold_secs : ℕ

unfoldable pub new_hydration_manager : AgentHydrationManager
new_hydration_manager = record { stale_active_threshold_secs = 300 }

-- `.map(|t| t.seconds as u64).unwrap_or(0)`
abbrev pub seconds_or_zero : Option Timestamp → ℕ
seconds_or_zero none = 0
seconds_or_zero (some t) = as_u64 t.seconds

-- `.map_err(StateError::ProtoError)`
abbrev pub or_proto_error : {A : Type 0} → Option A → StateResult A
or_proto_error none = err proto_error
or_proto_error (some a) = ok a

unfoldable pub age_of : ℕ → AgentStateRecord → ℕ
age_of now_secs state = saturating_sub now_secs (seconds_or_zero state.last_hydrated_at)

unfoldable pub busy_unless_stale :
    AgentHydrationManager → Bytes → Bytes → ℕ → StateResult (Unit {0})
busy_unless_stale manager tenant_id agent_id age =
    if ltb age manager.stale_active_threshold_secs
    then err (agent_busy tenant_id agent_id age)
    else ok tt

module _ (E : Platform) where
  -- Step 1: the state record, decoded.
  unfoldable pub decode_found : Bytes → Option (StateRecord E.Wire) → StateResult AgentStateRecord
  decode_found agent_id none = err (invalid_input (no_state_record agent_id))
  decode_found agent_id (some r) = or_proto_error (E.decode_state r.value)

  -- Step 2: an agent that is ACTIVE and not stale is busy.
  unfoldable pub stale_active_guard :
      AgentHydrationManager → Bytes → Bytes → AgentStateRecord → Exec E.World (Unit {0})
  stale_active_guard manager tenant_id agent_id state =
      if eq_ℤ state.status (status_code active)
      then (do
        now_secs ← unix_secs E
        lift (busy_unless_stale manager tenant_id agent_id (age_of now_secs state)))
      else pure tt

  -- Steps 3 and 4: the working memory, recovered where it is missing or of another version.
  unfoldable pub load_working_memory :
      (Bytes → Bytes → Exec E.World WorkingMemoryRecord)
      → Bytes
      → Bytes
      → AgentStateRecord
      → Option (StateRecord E.Wire)
      → Exec E.World (WorkingMemoryRecord × Bool)
  load_working_memory recover tenant_id agent_id state none = do
    mem ← recover tenant_id agent_id
    pure (mem, true)
  load_working_memory recover tenant_id agent_id state (some r) = do
    mem ← lift (or_proto_error (E.decode_memory r.value))
    if mem.version == state.working_memory_version then pure (mem, false) else do
      recovered_mem ←
          map_err (λ _. torn_write agent_id state.working_memory_version mem.version)
            (recover tenant_id agent_id)
      pure (recovered_mem, true)

  unfoldable pub hydrate_with :
      (Bytes → Bytes → Exec E.World WorkingMemoryRecord)
      → AgentHydrationManager
      → Bytes
      → Bytes
      → Exec E.World HydrationResult
  hydrate_with recover manager tenant_id agent_id = do
    state_record ← E.get_state (agent_state_key tenant_id agent_id)
    state ← lift (decode_found agent_id state_record)
    stale_active_guard manager tenant_id agent_id state
    mem_record ← E.get_state (working_memory_key tenant_id agent_id)
    (working_memory, recovered) ← load_working_memory recover tenant_id agent_id state mem_record
    pure (record {
      state = state;
      working_memory = working_memory;
      recovered_from_checkpoint = recovered;
    })

  unfoldable pub recover_from_checkpoint : Bytes → Bytes → Exec E.World WorkingMemoryRecord
  recover_from_checkpoint tenant_id agent_id w = (panic, w)

  unfoldable pub hydrate : AgentHydrationManager → Bytes → Bytes → Exec E.World HydrationResult
  unfolding hydrate_with recover_from_checkpoint
  hydrate = hydrate_with recover_from_checkpoint
