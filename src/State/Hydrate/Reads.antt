-- ===== src/State/Hydrate/Reads.antt =====
-- A hydration (crates/af-swarm-state/src/hydrate.rs) by what the store holds: which state it returns,
-- and whether its working memory is the stored one.
use swarm_runtime.Prelude.{
  Bytes, true, false, Option, none, some, ◌≡◌, ◌≢◌, ◌⊎◌, sym, ◌∙◌, ap, arith, inl, inr,
}
use swarm_runtime.State.Error.{ok}
use swarm_runtime.State.Exec.{Exec}
use swarm_runtime.State.Keys.{agent_state_key, working_memory_key}
use swarm_runtime.State.Proto.{AgentStateRecord, WorkingMemoryRecord}
use swarm_runtime.State.Store.{StateRecord, Platform}
use swarm_runtime.State.Store.Laws.{IsOcc}
use swarm_runtime.State.Freeze.{unix_secs}
use swarm_runtime.State.Hydrate.{
  HydrationResult, AgentHydrationManager, stale_active_guard, hydrate_with,
}
use swarm_runtime.State.Hydrate.Sound.{hydrate_sound, LoadedFrom}

-- Recovery returned the working memory `m` of the agent, in some world.
abbrev pub IsRecovered :
    (E : Platform)
    → (Bytes → Bytes → Exec E.World WorkingMemoryRecord)
    → Bytes
    → Bytes
    → WorkingMemoryRecord
    → Type 0
IsRecovered E recover t a m = (w : E.World) × ((recover t a w).0 ≡ ok m)

-- The working memory is the stored one where that has the version of the state, and otherwise the one
-- that recovery returned.
abbrev pub IsLoaded :
    (E : Platform)
    → (Bytes → Bytes → Exec E.World WorkingMemoryRecord)
    → Bytes
    → Bytes
    → AgentStateRecord
    → WorkingMemoryRecord
    → HydrationResult
    → Type 0
IsLoaded E recover t a s m r =
    ((m.version ≡ s.working_memory_version)
      × (r.working_memory ≡ m)
      × (r.recovered_from_checkpoint ≡ false))
    ⊎ ((m.version ≢ s.working_memory_version)
        × (r.recovered_from_checkpoint ≡ true)
        × IsRecovered E recover t a r.working_memory)

module _ (E : Platform) (occ : IsOcc E) where
  view-stale_active_guard :
      (manager : AgentHydrationManager) (t a : Bytes) (s : AgentStateRecord) (w : E.World)
      (j : Bytes)
      → occ.view (stale_active_guard E manager t a s w).1 j ≡ occ.view w j
  unfolding stale_active_guard unix_secs
  view-stale_active_guard manager t a s w j = ground (arith, occ.view-now w j)

  same_decoding :
      (r r' : StateRecord E.Wire) (s s' : AgentStateRecord)
      → E.decode_state r.value ≡ some s
      → E.decode_state r'.value ≡ some s'
      → some r ≡ some r'
      → s ≡ s'
  same_decoding r r' s s' d d' e = cc

  pub IsLoaded-cases :
      (recover : Bytes → Bytes → Exec E.World WorkingMemoryRecord) (t a : Bytes)
      (held : Option (StateRecord E.Wire)) (w : E.World) (r : HydrationResult)
      (mr : StateRecord E.Wire) (m : WorkingMemoryRecord)
      → held ≡ some mr
      → E.decode_memory mr.value ≡ some m
      → LoadedFrom E recover t a r.state held w r.working_memory r.recovered_from_checkpoint
      → IsLoaded E recover t a r.state m r
  IsLoaded-cases recover t a none w r mr m e d l = absurd (cc)
  IsLoaded-cases recover t a (some x) w r mr m e d (inl (kept, d', same)) = ground arith
  IsLoaded-cases recover t a (some x) w r mr m e d (inr (recovered, from, (stale, d', ne))) =
      let same : stale ≡ m = cc in inr (rw same at ne, recovered, (w, from))

  -- A hydration that returns, of an agent whose stored records decode to `s` and `m`.
  pub hydrate_reads :
      (recover : Bytes → Bytes → Exec E.World WorkingMemoryRecord) (manager : AgentHydrationManager)
      (t a : Bytes) (w w' : E.World) (r : HydrationResult) (sr mr : StateRecord E.Wire)
      (s : AgentStateRecord) (m : WorkingMemoryRecord)
      → occ.view w (agent_state_key t a) ≡ some sr
      → E.decode_state sr.value ≡ some s
      → occ.view w (working_memory_key t a) ≡ some mr
      → E.decode_memory mr.value ≡ some m
      → hydrate_with E recover manager t a w ≡ (ok r, w')
      → (r.state ≡ s) × IsLoaded E recover t a s m r
  hydrate_reads recover manager t a w w' r sr mr s m hs ds hm dm h =
      let f = hydrate_sound E recover manager t a w w' r h in
      let sk = agent_state_key t a in
      let mk = working_memory_key t a in
      let guarded = (stale_active_guard E manager t a r.state f.after_state).1 in
      let same_state = occ.get_ok sk w (some f.stored) (ap (λ p. p.0) f.read_state) in
      let same_memory = occ.get_ok mk guarded f.held (ap (λ p. p.0) f.read_memory) in
      let after : f.after_state ≡ (E.get_state sk w).1 = sym (ap (λ p. p.1) f.read_state) in
      let held : f.held ≡ some mr =
        same_memory
        ∙ view-stale_active_guard manager t a r.state f.after_state mk
        ∙ ap (λ v. occ.view v mk) after
        ∙ occ.view-get sk w mk
        ∙ hm in
      let same : r.state ≡ s = same_decoding f.stored sr r.state s f.decoded ds (same_state ∙ hs) in
      let loaded = IsLoaded-cases recover t a f.held f.after_memory r mr m held dm f.loaded in
      (same, rw same at loaded)
