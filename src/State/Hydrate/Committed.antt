-- ===== src/State/Hydrate/Committed.antt =====
-- The hydration of crates/af-swarm-state/src/hydrate.rs as it is committed, where
-- `recover_from_checkpoint` is a `todo!()`.
use swarm_runtime.Prelude.{◌==◌, Bytes, true, false, Option, none, some, ◌≡◌, ◌≢◌, refl, arith}
use swarm_runtime.State.Error.{ok, panic}
use swarm_runtime.State.Keys.{agent_state_key, working_memory_key}
use swarm_runtime.State.Proto.{AgentStateRecord, WorkingMemoryRecord}
use swarm_runtime.State.Store.{StateRecord, Platform}
use swarm_runtime.State.Hydrate.{
  AgentHydrationManager, decode_found, stale_active_guard, load_working_memory, hydrate,
}

module _ (E : Platform) (manager : AgentHydrationManager) (t a : Bytes) (w w1 w2 w3 : E.World)
    (stored : StateRecord E.Wire) (s : AgentStateRecord) (held : Option (StateRecord E.Wire)) where
  -- A hydration that has read and accepted the state of an agent, and has read its working memory:
  -- if that is missing the call panics; if it is there at the state's version the call returns the
  -- two records as stored; and if it is there at another version the call panics.
  pub hydrate_committed :
      E.get_state (agent_state_key t a) w ≡ (ok (some stored), w1)
      → E.decode_state stored.value ≡ some s
      → stale_active_guard E manager t a s w1 ≡ (ok tt, w2)
      → E.get_state (working_memory_key t a) w2 ≡ (ok held, w3)
      → (held ≡ none → hydrate E manager t a w ≡ (panic, w3))
        × ((r : StateRecord E.Wire) (m : WorkingMemoryRecord)
            → held ≡ some r
            → E.decode_memory r.value ≡ some m
            → (m.version ≡ s.working_memory_version
                → hydrate E manager t a w ≡ (
                  ok (record { state = s; working_memory = m; recovered_from_checkpoint = false }),
                  w3,
                ))
              × (m.version ≢ s.working_memory_version → hydrate E manager t a w ≡ (panic, w3)))
  unfolding hydrate decode_found load_working_memory
  hydrate_committed read decoded passed read' = (
    (λ missing. rw (read, decoded, passed, read', missing) refl),
    (λ r m found dec. (
      (λ same.
          let test : (m.version == s.working_memory_version) ≡ true = ground arith in
          rw (read, decoded, passed, read', found, dec, test) refl),
      (λ other.
          let test : (m.version == s.working_memory_version) ≡ false = ground arith in
          rw (read, decoded, passed, read', found, dec, test) refl),
    )),
  )
