-- ===== src/State/Lifecycle.antt =====
-- Freeze and hydration together (crates/af-swarm-state/src/freeze.rs and hydrate.rs): what comes back
-- after a freeze, and after one that failed between its two writes.
use swarm_runtime.Prelude.{
  ℕ, ◌<◌, Bytes, true, false, some, ◌≡◌, ◌≢◌, refl, ◌∙◌, ap, arith, inl, inr, u64_mod, add64, eq_ℤ,
}
use swarm_runtime.State.Error.{StateError, ok, err}
use swarm_runtime.State.Exec.{Exec, with_world}
use swarm_runtime.State.Keys.{agent_state_key, working_memory_key}
use swarm_runtime.State.Proto.{
  Timestamp, AgentStateRecord, WorkingMemoryRecord, status_code, active,
}
use swarm_runtime.State.Store.{StateRecord, Platform}
use swarm_runtime.State.Store.Laws.{Guard, IsOcc, IsAvailable, IsLossless}
use swarm_runtime.State.Freeze.{FreezeInput, frozen_memory, frozen_state, freeze}
use swarm_runtime.State.Freeze.Writes.{stamp_at, state_key, memory_key, freeze_ok}
use swarm_runtime.State.Freeze.Outcomes.{freeze_err}
use swarm_runtime.State.Freeze.Progress.{freeze_total}
use swarm_runtime.State.Hydrate.{
  HydrationResult, AgentHydrationManager, decode_found, stale_active_guard, load_working_memory,
  hydrate_with,
}
use swarm_runtime.State.Hydrate.Reads.{IsRecovered, hydrate_reads}

module _ (E : Platform) (occ : IsOcc E) where
  module _ (avail : IsAvailable E occ) (recover : Bytes → Bytes → Exec E.World WorkingMemoryRecord)
      (manager : AgentHydrationManager) (t a : Bytes) where
    -- Hydration of an agent that is not ACTIVE and whose records agree.
    pub hydrate_consistent :
        (w : E.World) (s : AgentStateRecord) (m : WorkingMemoryRecord) (sr mr : StateRecord E.Wire)
        → occ.view w (agent_state_key t a) ≡ some sr
        → E.decode_state sr.value ≡ some s
        → eq_ℤ s.status (status_code active) ≡ false
        → occ.view w (working_memory_key t a) ≡ some mr
        → E.decode_memory mr.value ≡ some m
        → m.version ≡ s.working_memory_version
        → (hydrate_with E recover manager t a w).0
          ≡ ok (record { state = s; working_memory = m; recovered_from_checkpoint = false })
    unfolding hydrate_with decode_found stale_active_guard load_working_memory
    hydrate_consistent w s m sr mr hs ds idle hm dm agree =
        let w1 = (E.get_state (agent_state_key t a) w).1 in
        ground (
          arith,
          avail.get_total (agent_state_key t a) w,
          avail.get_total (working_memory_key t a) w1,
          occ.view-get (agent_state_key t a) w (working_memory_key t a),
        )

-- What a hydration returns for the agent that a freeze wrote: the input's state, FROZEN and without
-- its task, and its working memory one version on, not recovered.
abbrev pub thawed : FreezeInput → Timestamp → Timestamp → HydrationResult
thawed input memory_stamp state_stamp =
    let m = frozen_memory input.working_memory memory_stamp in
    record {
      state = frozen_state input.state m.version state_stamp;
      working_memory = m;
      recovered_from_checkpoint = false;
    }

module _ (E : Platform) (occ : IsOcc E) (avail : IsAvailable E occ) (lossless : IsLossless E) where
  hydrate-freeze_at :
      (recover : Bytes → Bytes → Exec E.World WorkingMemoryRecord) (manager : AgentHydrationManager)
      (input : FreezeInput) (w w' : E.World) (seq : ℕ)
      → freeze E input w ≡ (ok seq, w')
      → (memory_stamp : Timestamp) × (state_stamp : Timestamp) × ((hydrate_with E recover manager
            input.tenant_id input.agent_id w').0
          ≡ ok (thawed input memory_stamp state_stamp))
  unfolding frozen_state
  hydrate-freeze_at recover manager input w w' seq done =
      let f = freeze_ok E occ input w done in
      let m = frozen_memory input.working_memory f.memory_stamp in
      let s = frozen_state input.state m.version f.state_stamp in
      (
        f.memory_stamp,
        f.state_stamp,
        hydrate_consistent E occ avail recover manager input.tenant_id input.agent_id w' s m
            (record { value = E.encode_state s; etag = f.state_tag })
            (record { value = E.encode_memory m; etag = f.memory_tag })
            (rw (ap (λ (x : WorkingMemoryRecord). x.version) f.is_memory) at f.state_stored)
            (lossless.state s) refl (rw f.is_memory at f.memory_stored) (lossless.memory m) refl,
      )

  -- With a store that answers and prost lossless, a freeze that carries the stored ETags succeeds,
  -- and a hydration after it returns exactly what was frozen, whatever recovery would do.
  pub hydrate-freeze :
      (recover : Bytes → Bytes → Exec E.World WorkingMemoryRecord) (manager : AgentHydrationManager)
      (input : FreezeInput) (w : E.World)
      → Guard (some input.memory_etag) (occ.view w (memory_key input))
      → Guard (some input.state_etag) (occ.view w (state_key input))
      → ((seq : ℕ) × ((freeze E input w).0 ≡ ok seq))
        × ((memory_stamp : Timestamp) × (state_stamp : Timestamp) × ((hydrate_with E recover manager
                input.tenant_id input.agent_id
                (freeze E input w).1).0
              ≡ ok (thawed input memory_stamp state_stamp)))
  hydrate-freeze recover manager input w memory_guarded state_guarded =
      let (seq, done) = freeze_total E occ avail input w memory_guarded state_guarded in
      (
        (seq, done),
        hydrate-freeze_at recover manager input w (freeze E input w).1 seq
            (with_world (freeze E input w) done),
      )

pub bumped : (v : ℕ) → v < u64_mod → add64 v 1 ≢ v
bumped v h = λ e. absurd (omega arith)

module _ (E : Platform) (occ : IsOcc E) (lossless : IsLossless E) where
  -- A hydration that reads a state of one version and a memory of another returns the memory that
  -- recovery returned.
  hydrate-IsRecovered :
      (recover : Bytes → Bytes → Exec E.World WorkingMemoryRecord) (manager : AgentHydrationManager)
      (t a : Bytes) (w w' : E.World) (r : HydrationResult) (sr mr : StateRecord E.Wire)
      (s : AgentStateRecord) (m : WorkingMemoryRecord)
      → occ.view w (agent_state_key t a) ≡ some sr
      → E.decode_state sr.value ≡ some s
      → occ.view w (working_memory_key t a) ≡ some mr
      → E.decode_memory mr.value ≡ some m
      → m.version ≢ s.working_memory_version
      → hydrate_with E recover manager t a w ≡ (ok r, w')
      → (r.state ≡ s)
        × (r.recovered_from_checkpoint ≡ true)
        × IsRecovered E recover t a r.working_memory
  hydrate-IsRecovered recover manager t a w w' r sr mr s m hs ds hm dm torn h =
      let (same, loaded) = hydrate_reads E occ recover manager t a w w' r sr mr s m hs ds hm dm h in
      elim loaded [
        | inl kept ↦ absurd (torn kept.0)
        | inr (_, flag, recovered) ↦ (same, flag, recovered)
      ]

  -- Where the stored state points at the version of the input's memory, and that version fits `u64`, a
  -- freeze that fails after it changed the working memory leaves a torn pair of records that a
  -- hydration tells: if it returns, it returns the stored state with the working memory that recovery
  -- returned, and says so.
  pub torn_write_detected :
      (recover : Bytes → Bytes → Exec E.World WorkingMemoryRecord) (manager : AgentHydrationManager)
      (input : FreezeInput) (w w1 w2 : E.World) (e : StateError) (sr : StateRecord E.Wire)
      (s : AgentStateRecord) (r : HydrationResult)
      → occ.view w (state_key input) ≡ some sr
      → E.decode_state sr.value ≡ some s
      → s.working_memory_version ≡ input.working_memory.version
      → input.working_memory.version < u64_mod
      → freeze E input w ≡ (err e, w1)
      → occ.view w1 (memory_key input) ≢ occ.view w (memory_key input)
      → hydrate_with E recover manager input.tenant_id input.agent_id w1 ≡ (ok r, w2)
      → (r.state ≡ s)
        × (r.recovered_from_checkpoint ≡ true)
        × IsRecovered E recover input.tenant_id input.agent_id r.working_memory
  unfolding frozen_memory
  torn_write_detected recover manager input w w1 w2 e sr s r hs ds same_version fits failed moved
        h =
      elim (freeze_err E occ input w failed).1 [
        | inl kept ↦ absurd (moved kept)
        | inr (tag, stored) ↦
            let m = frozen_memory input.working_memory (stamp_at E w) in
            hydrate-IsRecovered recover manager input.tenant_id input.agent_id w1 w2 r sr
              (record { value = E.encode_memory m; etag = tag }) s m
              ((freeze_err E occ input w failed).0 ∙ hs) ds stored (lossless.memory m)
              (rw same_version (bumped input.working_memory.version fits)) h
      ]
