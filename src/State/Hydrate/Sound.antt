-- ===== src/State/Hydrate/Sound.antt =====
-- What a hydration that returns has checked (crates/af-swarm-state/src/hydrate.rs).
use swarm_runtime.Prelude.{
  ◌≤◌, Bytes, Bool, true, false, Option, none, some, ◌≡◌, ◌≢◌, refl, ◌⊎◌, eq_ℤ, arith, ap,
}
use swarm_runtime.State.Error.{ok}
use swarm_runtime.State.Exec.{Exec, pure, bind_ok, lift_ok}
use swarm_runtime.State.Freeze.{or_default, unix_secs}
use swarm_runtime.State.Keys.{agent_state_key, working_memory_key}
use swarm_runtime.State.Proto.{AgentStateRecord, WorkingMemoryRecord, status_code, active}
use swarm_runtime.State.Store.{StateRecord, Platform}
use swarm_runtime.State.Hydrate.{
  HydrationResult, AgentHydrationManager, age_of, decode_found, stale_active_guard,
  load_working_memory, hydrate_with, busy_unless_stale,
}

module _ (E : Platform) where
  -- The working memory `m` was read from `held` at the state's version, or `recover` returned it
  -- because nothing is held or what is held has another version.
  abbrev pub LoadedFrom :
      (Bytes → Bytes → Exec E.World WorkingMemoryRecord)
      → Bytes
      → Bytes
      → AgentStateRecord
      → Option (StateRecord E.Wire)
      → E.World
      → WorkingMemoryRecord
      → Bool
      → Type 0
  LoadedFrom recover t a state none w m recovered = (recovered ≡ true) × ((recover t a w).0 ≡ ok m)
  LoadedFrom recover t a state (some r) w m recovered =
      ((recovered ≡ false)
        × (E.decode_memory r.value ≡ some m)
        × (m.version ≡ state.working_memory_version))
      ⊎ ((recovered ≡ true)
          × ((recover t a w).0 ≡ ok m)
          × ((stale : WorkingMemoryRecord) × (E.decode_memory r.value ≡ some stale)
              × (stale.version ≢ state.working_memory_version)))

  -- Where the result of a hydration from the world `w` comes from, and the tests it passed.
  pub record HydratedFrom (recover : Bytes → Bytes → Exec E.World WorkingMemoryRecord)
      (manager : AgentHydrationManager) (t a : Bytes) (w : E.World) (r : HydrationResult)
      : Type 0 where
    pub stored : StateRecord E.Wire
    pub after_state : E.World
    pub read_state : E.get_state (agent_state_key t a) w ≡ (ok (some stored), after_state)
    pub decoded : E.decode_state stored.value ≡ some r.state
    pub stale_if_active :
        eq_ℤ r.state.status (status_code active) ≡ true
        → manager.stale_active_threshold_secs
          ≤ age_of (or_default (E.now after_state).0).secs r.state
    pub after_memory : E.World
    pub held : Option (StateRecord E.Wire)
    pub read_memory :
        E.get_state
          (working_memory_key t a)
          (stale_active_guard E manager t a r.state after_state).1
        ≡ (ok held, after_memory)
    pub loaded :
        LoadedFrom recover t a r.state held after_memory r.working_memory
          r.recovered_from_checkpoint

  the_result :
      (s : AgentStateRecord) (m : WorkingMemoryRecord) (recovered : Bool) (w : E.World)
      {r : HydrationResult} {w' : E.World}
      → pure (record { state = s; working_memory = m; recovered_from_checkpoint = recovered }) w
        ≡ (ok r, w')
      → record { state = s; working_memory = m; recovered_from_checkpoint = recovered } ≡ r
  the_result s m recovered w h = cc

  pub decode_found_ok :
      (a : Bytes) (o : Option (StateRecord E.Wire)) {s : AgentStateRecord}
      → decode_found E a o ≡ ok s
      → (r : StateRecord E.Wire) × (o ≡ some r) × (E.decode_state r.value ≡ some s)
  unfolding decode_found
  decode_found_ok a none h = cc
  decode_found_ok a (some r) h = (r, refl, ground arith)

  stale_active_guard_ok :
      (m : AgentHydrationManager) (t a : Bytes) (s : AgentStateRecord) (w w' : E.World)
      → stale_active_guard E m t a s w ≡ (ok tt, w')
      → eq_ℤ s.status (status_code active) ≡ true
      → m.stale_active_threshold_secs ≤ age_of (or_default (E.now w).0).secs s
  unfolding stale_active_guard busy_unless_stale unix_secs
  stale_active_guard_ok m t a s w w' h e = ground arith

  pub load_working_memory_ok :
      (recover : Bytes → Bytes → Exec E.World WorkingMemoryRecord) (t a : Bytes)
      (s : AgentStateRecord) (held : Option (StateRecord E.Wire)) (w w' : E.World)
      (m : WorkingMemoryRecord) (recovered : Bool)
      → load_working_memory E recover t a s held w ≡ (ok (m, recovered), w')
      → LoadedFrom recover t a s held w m recovered
  unfolding load_working_memory
  load_working_memory_ok recover t a s none w w' m recovered h = ground arith
  load_working_memory_ok recover t a s (some r) w w' m recovered h = ground arith

  -- The end of a hydration, with the state and the two reads known.
  hydrated :
      (recover : Bytes → Bytes → Exec E.World WorkingMemoryRecord) (manager : AgentHydrationManager)
      (t a : Bytes) (w w1 w3 w4 w' : E.World) (o held : Option (StateRecord E.Wire))
      (s : AgentStateRecord) (m : WorkingMemoryRecord) (recovered : Bool)
      → E.get_state (agent_state_key t a) w ≡ (ok o, w1)
      → decode_found E a o ≡ ok s
      → stale_active_guard E manager t a s w1 ≡ (ok tt, w3)
      → E.get_state (working_memory_key t a) w3 ≡ (ok held, w4)
      → load_working_memory E recover t a s held w4 ≡ (ok (m, recovered), w')
      → HydratedFrom recover manager t a w
          (record { state = s; working_memory = m; recovered_from_checkpoint = recovered })
  hydrated recover manager t a w w1 w3 w4 w' o held s m recovered read dec guarded read' loaded =
      let (stored, is_stored, decoded) = decode_found_ok a o dec in
      record {
        stored = stored;
        after_state = w1;
        read_state = rw (← is_stored) read;
        decoded = decoded;
        stale_if_active = stale_active_guard_ok manager t a s w1 w3 guarded;
        after_memory = w4;
        held = held;
        read_memory = rw (ap (λ p. p.1) guarded) read';
        loaded = load_working_memory_ok recover t a s held w4 w' m recovered loaded;
      }

  -- A hydration that returns read the agent's two records and decoded them; it returns the state as
  -- stored, unchanged; an ACTIVE state was last hydrated at least the threshold ago; and the
  -- working memory is the stored one, at the state's version, or else, where that is missing or has
  -- another version, what recovery returned.
  pub hydrate_sound :
      (recover : Bytes → Bytes → Exec E.World WorkingMemoryRecord) (manager : AgentHydrationManager)
      (t a : Bytes) (w w' : E.World) (r : HydrationResult)
      → hydrate_with E recover manager t a w ≡ (ok r, w')
      → HydratedFrom recover manager t a w r
  unfolding hydrate_with
  hydrate_sound recover manager t a w w' r h =
      bind_ok (E.get_state (agent_state_key t a)) _ w h λ o w1 read h1.
        lift_ok (decode_found E a o) _ w1 h1 λ s dec h2.
          bind_ok (stale_active_guard E manager t a s) _ w1 h2 λ u w3 guarded h3.
            bind_ok (E.get_state (working_memory_key t a)) _ w3 h3 λ held w4 read' h4.
              bind_ok (load_working_memory E recover t a s held) _ w4 h4 λ p w5 loaded h5.
                rw (← (the_result s p.0 p.1 w5 h5)) (
                  hydrated recover manager t a w w1 w3 w4 w5 o held s p.0 p.1 read dec guarded read'
                    loaded)
