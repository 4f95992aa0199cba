-- ===== src/State/Dormancy/Woken.antt =====
-- What a hydration (crates/af-swarm-state/src/hydrate.rs) returns of an agent that was left alone after a
-- freeze (crates/af-swarm-state/src/freeze.rs).
use swarm_runtime.Prelude.{
  ℕ, Bytes, true, false, none, some, ◌≡◌, refl, ◌∙◌, ap, arith, leb, eq_ℤ, if◌then◌else◌,
  Bool-cases, inl, inr,
}
use swarm_runtime.State.Error.{StateResult, ok, err, panic}
use swarm_runtime.State.Exec.{Exec}
use swarm_runtime.State.Keys.{agent_state_key, working_memory_key}
use swarm_runtime.State.Proto.{
  Timestamp, AgentStateRecord, WorkingMemoryRecord, status_code, active,
}
use swarm_runtime.State.Store.{StateRecord, Platform}
use swarm_runtime.State.Store.Laws.{IsOcc, IsAvailable, IsLossless}
use swarm_runtime.State.Store.Ttl.{IsTtl}
use swarm_runtime.State.Freeze.{FreezeInput, frozen_memory, frozen_state, freeze}
use swarm_runtime.State.Freeze.Writes.{state_key, memory_key, freeze_ok}
use swarm_runtime.State.Hydrate.{
  HydrationResult, AgentHydrationManager, decode_found, stale_active_guard, load_working_memory,
  hydrate_with, hydrate, recover_from_checkpoint,
}
use swarm_runtime.State.Lifecycle.{hydrate_consistent, thawed}
use swarm_runtime.State.Dormancy.Lifetimes.{left-freeze}

-- The result of a hydration whose working memory is from recovery.
abbrev pub recovered :
    AgentStateRecord → StateResult WorkingMemoryRecord → StateResult HydrationResult
recovered s (ok m) = ok (record { state = s; working_memory = m; recovered_from_checkpoint = true })
recovered s (err e) = err e
recovered s panic = panic

module _ (E : Platform) (occ : IsOcc E) (avail : IsAvailable E occ) where
  -- A hydration of an agent that is not ACTIVE and has no working memory recovers it, in a world that
  -- has the same records.
  pub hydrate_missing :
      (recover : Bytes → Bytes → Exec E.World WorkingMemoryRecord) (manager : AgentHydrationManager)
      (t a : Bytes) (w : E.World) (s : AgentStateRecord) (sr : StateRecord E.Wire)
      → occ.view w (agent_state_key t a) ≡ some sr
      → E.decode_state sr.value ≡ some s
      → eq_ℤ s.status (status_code active) ≡ false
      → occ.view w (working_memory_key t a) ≡ none
      → let v = (E.get_state (working_memory_key t a) (E.get_state (agent_state_key t a) w).1).1 in
        (hydrate_with E recover manager t a w).0 ≡ recovered s (recover t a v).0
  unfolding hydrate_with decode_found stale_active_guard load_working_memory
  hydrate_missing recover manager t a w s sr hs ds idle hm =
      let w1 = (E.get_state (agent_state_key t a) w).1 in
      ground (
        arith,
        avail.get_total (agent_state_key t a) w,
        avail.get_total (working_memory_key t a) w1,
        occ.view-get (agent_state_key t a) w (working_memory_key t a),
      )

module _ (E : Platform) (occ : IsOcc E) (ttl : IsTtl E occ) (avail : IsAvailable E occ)
    (lossless : IsLossless E) where
  -- After a successful freeze and `n` seconds without a call, over a store that answers and keeps a
  -- record for the time that it was given: within a day a hydration returns exactly what was frozen;
  -- from then on it returns the frozen state with what recovery makes of the same records, or the
  -- error of recovery; and the code as committed, whose recovery is a `todo!()`, panics.
  pub hydrate-idle :
      (recover : Bytes → Bytes → Exec E.World WorkingMemoryRecord) (manager : AgentHydrationManager)
      (input : FreezeInput) (w w' : E.World) (seq n : ℕ)
      → freeze E input w ≡ (ok seq, w')
      → (memory_stamp : Timestamp) × (state_stamp : Timestamp) × (v : E.World) × ((j : Bytes)
          → occ.view v j ≡ occ.view (ttl.idle n w') j)
        × ((hydrate_with E recover manager input.tenant_id input.agent_id (ttl.idle n w')).0 ≡ (
            if leb 86400 n
            then recovered
                (thawed input memory_stamp state_stamp).state
                (recover input.tenant_id input.agent_id v).0
            else ok (thawed input memory_stamp state_stamp)))
        × ((hydrate E manager input.tenant_id input.agent_id (ttl.idle n w')).0
            ≡ (if leb 86400 n then panic else ok (thawed input memory_stamp state_stamp)))
  unfolding frozen_state hydrate recover_from_checkpoint
  hydrate-idle recover manager input w w' seq n done =
      let f = freeze_ok E occ input w done in
      let (state_left, memory_left) = left-freeze E occ ttl input w done in
      let t = input.tenant_id in
      let a = input.agent_id in
      let m = frozen_memory input.working_memory f.memory_stamp in
      let s = frozen_state input.state m.version f.state_stamp in
      let sr : StateRecord E.Wire = record { value = E.encode_state s; etag = f.state_tag } in
      let mr : StateRecord E.Wire = record { value = E.encode_memory m; etag = f.memory_tag } in
      let d = ttl.idle n w' in
      let v1 = (E.get_state (state_key input) d).1 in
      let v2 = (E.get_state (memory_key input) v1).1 in
      let same_version = ap (λ (x : WorkingMemoryRecord). x.version) f.is_memory in
      let hs : occ.view d (state_key input) ≡ some sr =
        rw (ttl.view-idle n w' (state_key input), state_left) (rw same_version at f.state_stored) in
      let held : occ.view d (memory_key input) ≡ (if leb 86400 n then none else some mr) =
        rw
          (
            ttl.view-idle n w' (memory_key input),
            memory_left,
            ← (rw f.is_memory at f.memory_stored),
          )
          refl in
      let woken : (r : Bytes → Bytes → Exec E.World WorkingMemoryRecord)
          → (hydrate_with E r manager t a d).0 ≡ (
              if leb 86400 n
              then recovered s (r t a v2).0
              else ok (thawed input f.memory_stamp f.state_stamp)) =
        λ r. elim (Bool-cases (leb 86400 n)) [
          | inl late ↦
              let hm = rw late at held in
              rw late
                (hydrate_missing E occ avail r manager t a d s sr hs (lossless.state s) refl hm)
          | inr early ↦
              let hm = rw early at held in
              rw early (
                hydrate_consistent E occ avail r manager t a d s m sr mr hs (lossless.state s) refl
                  hm (lossless.memory m) refl)
        ] in
      (
        f.memory_stamp,
        f.state_stamp,
        v2,
        (λ j. occ.view-get (memory_key input) v1 j ∙ occ.view-get (state_key input) d j),
        woken recover,
        woken (recover_from_checkpoint E),
      )
