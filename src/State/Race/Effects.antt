-- ===== src/State/Race/Effects.antt =====
-- The three writes of a freeze (crates/af-swarm-state/src/freeze.rs) and what each leaves in the store.
use swarm_runtime.Prelude.{ℕ, none, some, ◌≡◌, refl, sym, ◌∙◌}
use swarm_runtime.State.Error.{ok}
use swarm_runtime.State.Keys.{checkpoint_key}
use swarm_runtime.State.Keys.Families.{state-ne-memory, state-ne-checkpoint, memory-ne-checkpoint}
use swarm_runtime.State.Proto.{Timestamp, AgentStateRecord, WorkingMemoryRecord}
use swarm_runtime.State.Store.{ETag, no_ttl, seconds, Platform}
use swarm_runtime.State.Store.Laws.{IsOcc}
use swarm_runtime.State.Freeze.{FreezeInput, frozen_memory, frozen_state}
use swarm_runtime.State.Race.{save_memory, save_frozen_state, save_checkpoint}
use swarm_runtime.State.Freeze.Writes.{state_key, memory_key}

module _ (E : Platform) (occ : IsOcc E) where
  -- The working memory in the store is `m`, one that the freeze of `input` makes.
  pub record HasMemory (input : FreezeInput) (m : WorkingMemoryRecord) (w : E.World) : Type 0 where
    pub memory_stamp : Timestamp
    pub is_memory : m ≡ frozen_memory input.working_memory memory_stamp
    pub memory_tag : ETag
    pub memory_stored :
        occ.view w (memory_key input)
        ≡ some (record { value = E.encode_memory m; etag = memory_tag })

  -- The state in the store is `s`, which the freeze of `input` makes for the working memory `m`.
  pub record HasState (input : FreezeInput) (m : WorkingMemoryRecord) (s : AgentStateRecord)
      (w : E.World) : Type 0 where
    pub state_stamp : Timestamp
    pub is_state : s ≡ frozen_state input.state m.version state_stamp
    pub state_tag : ETag
    pub state_stored :
        occ.view w (state_key input) ≡ some (record { value = E.encode_state s; etag = state_tag })

  pub memory_kept :
      (input : FreezeInput) (m : WorkingMemoryRecord) (w w' : E.World)
      → occ.view w' (memory_key input) ≡ occ.view w (memory_key input)
      → HasMemory input m w
      → HasMemory input m w'
  memory_kept input m w w' same h = record {
    memory_stamp = h.memory_stamp;
    is_memory = h.is_memory;
    memory_tag = h.memory_tag;
    memory_stored = same ∙ h.memory_stored;
  }

  state_kept :
      (input : FreezeInput) (m : WorkingMemoryRecord) (s : AgentStateRecord) (w w' : E.World)
      → occ.view w' (state_key input) ≡ occ.view w (state_key input)
      → HasState input m s w
      → HasState input m s w'
  state_kept input m s w w' same h = record {
    state_stamp = h.state_stamp;
    is_state = h.is_state;
    state_tag = h.state_tag;
    state_stored = same ∙ h.state_stored;
  }

  pub both_kept :
      (input : FreezeInput) (m : WorkingMemoryRecord) (s : AgentStateRecord) (w w' : E.World)
      → occ.view w' (memory_key input) ≡ occ.view w (memory_key input)
      → occ.view w' (state_key input) ≡ occ.view w (state_key input)
      → HasMemory input m w × HasState input m s w
      → HasMemory input m w' × HasState input m s w'
  both_kept input m s w w' same_memory same_state (hm, hs) =
      (memory_kept input m w w' same_memory hm, state_kept input m s w w' same_state hs)

  pub save_memory_ok :
      (input : FreezeInput) (stamp : Timestamp) (w : E.World) (new : ETag)
      → (save_memory E input stamp w).0 ≡ ok new
      → HasMemory input (frozen_memory input.working_memory stamp) (save_memory E input stamp w).1
  save_memory_ok input stamp w new e =
      let m = frozen_memory input.working_memory stamp in
      let (_, stored, _) =
        occ.save_ok (memory_key input) (E.encode_memory m) (some input.memory_etag) (seconds 86400)
          w new e in
      record { memory_stamp = stamp; is_memory = refl; memory_tag = new; memory_stored = stored }

  pub save_memory_keeps :
      (input : FreezeInput) (stamp : Timestamp) (w : E.World)
      → occ.view (save_memory E input stamp w).1 (state_key input) ≡ occ.view w (state_key input)
  save_memory_keeps input stamp w =
      occ.save_other (memory_key input) _ (some input.memory_etag) (seconds 86400) w
        (state_key input) (state-ne-memory input.tenant_id input.agent_id)

  pub save_frozen_state_ok :
      (input : FreezeInput) (m : WorkingMemoryRecord) (stamp : Timestamp) (w : E.World) (new : ETag)
      → (save_frozen_state E input m stamp w).0 ≡ ok new
      → HasState input m
          (frozen_state input.state m.version stamp)
          (save_frozen_state E input m stamp w).1
  save_frozen_state_ok input m stamp w new e =
      let s = frozen_state input.state m.version stamp in
      let (_, stored, _) =
        occ.save_ok (state_key input) (E.encode_state s) (some input.state_etag) no_ttl w new e in
      record { state_stamp = stamp; is_state = refl; state_tag = new; state_stored = stored }

  pub save_frozen_state_keeps :
      (input : FreezeInput) (m : WorkingMemoryRecord) (stamp : Timestamp) (w : E.World)
      → occ.view (save_frozen_state E input m stamp w).1 (memory_key input)
        ≡ occ.view w (memory_key input)
  save_frozen_state_keeps input m stamp w =
      let apart = state-ne-memory input.tenant_id input.agent_id in
      occ.save_other (state_key input) _ (some input.state_etag) no_ttl w (memory_key input)
        (λ e. apart (sym e))

  pub save_checkpoint_keeps :
      (input : FreezeInput) (m : WorkingMemoryRecord) (s : AgentStateRecord) (seq : ℕ)
      (stamp : Timestamp) (w : E.World)
      → let after = (save_checkpoint E input m s seq stamp w).1 in
        (occ.view after (memory_key input) ≡ occ.view w (memory_key input))
        × (occ.view after (state_key input) ≡ occ.view w (state_key input))
  save_checkpoint_keeps input m s seq stamp w =
      let other =
        occ.save_other (checkpoint_key input.tenant_id input.agent_id seq) _ none no_ttl w in
      (
        other (memory_key input) (memory-ne-checkpoint input.tenant_id input.agent_id seq),
        other (state_key input) (state-ne-checkpoint input.tenant_id input.agent_id seq),
      )

  -- The clock changes no record.
  pub now-both :
      (input : FreezeInput) (m : WorkingMemoryRecord) (s : AgentStateRecord) (w : E.World)
      → HasMemory input m w × HasState input m s w
      → HasMemory input m (E.now w).1 × HasState input m s (E.now w).1
  now-both input m s w h =
      both_kept input m s w _ (occ.view-now w (memory_key input)) (occ.view-now w (state_key input))
        h
