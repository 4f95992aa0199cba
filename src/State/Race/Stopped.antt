-- ===== src/State/Race/Stopped.antt =====
-- What a hydration (crates/af-swarm-state/src/hydrate.rs) returns after a freeze
-- (crates/af-swarm-state/src/freeze.rs) that stopped for good, wherever it stopped.
use swarm_runtime.Prelude.{
  ℕ, ◌<◌, Bytes, true, false, some, ◌≡◌, ◌≢◌, ◌⊎◌, refl, ◌∙◌, ap, arith, inl, inr, u64_mod,
}
use swarm_runtime.State.Error.{ok}
use swarm_runtime.State.Exec.{Exec}
use swarm_runtime.State.Proto.{Timestamp, AgentStateRecord, WorkingMemoryRecord}
use swarm_runtime.State.Store.{StateRecord, Platform}
use swarm_runtime.State.Store.Laws.{IsOcc, IsLossless}
use swarm_runtime.State.Freeze.{FreezeInput, frozen_memory, frozen_state}
use swarm_runtime.State.Freeze.Writes.{state_key, memory_key}
use swarm_runtime.State.Hydrate.{HydrationResult, AgentHydrationManager, hydrate_with}
use swarm_runtime.State.Hydrate.Reads.{IsRecovered, IsLoaded, hydrate_reads}
use swarm_runtime.State.Lifecycle.{thawed}
use swarm_runtime.State.Race.{FreezePc}
use swarm_runtime.State.Race.Alone.{advances}
use swarm_runtime.State.Race.Crash.{Answers, stopped-HasSome}

module _ (E : Platform) (recover : Bytes → Bytes → Exec E.World WorkingMemoryRecord) where
  pub kept_result :
      (t a : Bytes) (s : AgentStateRecord) (m : WorkingMemoryRecord) (r : HydrationResult)
      → r.state ≡ s
      → m.version ≡ s.working_memory_version
      → IsLoaded E recover t a s m r
      → r ≡ record { state = s; working_memory = m; recovered_from_checkpoint = false }
  kept_result t a s m r es agree (inl (_, em, er)) = rw (← es, ← em, ← er) refl
  kept_result t a s m r es agree (inr (torn, _, _)) = absurd (torn agree)

  pub torn_result :
      (t a : Bytes) (s : AgentStateRecord) (m : WorkingMemoryRecord) (r : HydrationResult)
      → m.version ≢ s.working_memory_version
      → IsLoaded E recover t a s m r
      → (r.recovered_from_checkpoint ≡ true) × IsRecovered E recover t a r.working_memory
  torn_result t a s m r torn (inl kept) = absurd (torn kept.0)
  torn_result t a s m r torn (inr (_, flag, recovered)) = (flag, recovered)

  -- As before the freeze, with the records `s` and `m`; or with `s` and the working memory that recovery
  -- returned; or as the freeze leaves it.
  abbrev pub IsWhole :
      FreezeInput → AgentStateRecord → WorkingMemoryRecord → HydrationResult → Type 0
  IsWhole input s m r =
      (r ≡ record { state = s; working_memory = m; recovered_from_checkpoint = false })
      ⊎ (((r.state ≡ s)
            × (r.recovered_from_checkpoint ≡ true)
            × IsRecovered E recover input.tenant_id input.agent_id r.working_memory)
          ⊎ ((memory_stamp : Timestamp) × (state_stamp : Timestamp) × (r
                ≡ thawed input memory_stamp state_stamp)))

module _ (E : Platform) (occ : IsOcc E) (answers : Answers E) (lossless : IsLossless E)
    (recover : Bytes → Bytes → Exec E.World WorkingMemoryRecord) (manager : AgentHydrationManager)
    (input : FreezeInput) (w0 : E.World) (sr mr : StateRecord E.Wire) (s : AgentStateRecord)
    (m : WorkingMemoryRecord) where
  -- Of an agent whose records agree, frozen from the working memory that is stored: wherever the freeze
  -- stops for good, between two of its calls, after an error or at its end, a hydration that returns
  -- afterwards returns the agent as before the freeze, or as the freeze leaves it, or with the state from
  -- before and the working memory that recovery returned, and never the old half of one and the new half of the
  -- other.
  pub stopped_freeze-IsWhole :
      (k : ℕ) (w' : E.World) (r : HydrationResult)
      → occ.view w0 (state_key input) ≡ some sr
      → E.decode_state sr.value ≡ some s
      → occ.view w0 (memory_key input) ≡ some mr
      → E.decode_memory mr.value ≡ some m
      → m.version ≡ s.working_memory_version
      → input.working_memory.version ≡ m.version
      → m.version < u64_mod
      → hydrate_with E recover manager input.tenant_id input.agent_id
          (advances E k input (FreezePc.starting, w0)).1
        ≡ (ok r, w')
      → IsWhole E recover input s m r
  unfolding frozen_memory frozen_state
  stopped_freeze-IsWhole k w' r hs ds hm dm agree from_stored fits h =
      let w = (advances E k input (FreezePc.starting, w0)).1 in
      let reads = hydrate_reads E occ recover manager input.tenant_id input.agent_id w w' r in
      elim (stopped-HasSome E occ answers w0 k input) [
        | inl (sm, ss) ↦
            let (es, loaded) = reads sr mr s m (ss ∙ hs) ds (sm ∙ hm) dm h in
            inl (kept_result E recover input.tenant_id input.agent_id s m r es agree loaded)
        | inr (inl one) ↦
            let mr' : StateRecord E.Wire = record {
              value = E.encode_memory one.m;
              etag = one.has_memory.memory_tag;
            } in
            let (es, loaded) =
              reads sr mr' s one.m (one.state_kept ∙ hs) ds one.has_memory.memory_stored
                (lossless.memory one.m) h in
            let bumped = ap (λ (x : WorkingMemoryRecord). x.version) one.has_memory.is_memory in
            let (flag, recovered) =
              torn_result E recover input.tenant_id input.agent_id s one.m r
                (λ same. absurd (omega arith)) loaded in
            inr (inl (es, flag, recovered))
        | inr (inr two) ↦
            let m' = frozen_memory input.working_memory two.has_memory.memory_stamp in
            let s' = frozen_state input.state m'.version two.has_state.state_stamp in
            let same_memory : two.m ≡ m' = two.has_memory.is_memory in
            let same_state : two.s ≡ s' = rw same_memory at two.has_state.is_state in
            let memory_stored = rw same_memory at two.has_memory.memory_stored in
            let state_stored = rw same_state at two.has_state.state_stored in
            let (es, loaded) =
              reads (record { value = E.encode_state s'; etag = two.has_state.state_tag })
                (record { value = E.encode_memory m'; etag = two.has_memory.memory_tag }) s' m'
                state_stored (lossless.state s') memory_stored (lossless.memory m') h in
            inr (
              inr (
                two.has_memory.memory_stamp,
                two.has_state.state_stamp,
                kept_result E recover input.tenant_id input.agent_id s' m' r es refl loaded,
              ))
      ]
