-- ===== src/State/Race/Overlap.antt =====
-- A hydration (crates/af-swarm-state/src/hydrate.rs) call by call, while freezes of the same agent
-- (crates/af-swarm-state/src/freeze.rs) are under way: it reads the state first and the working memory
-- later, and the calls of the freezes come in between.
pub mod Phases
pub mod Reading
pub mod Seen
pub mod Loaded
pub mod Ended
pub mod Whole
pub mod Returns
use swarm_runtime.Prelude.{ℕ, Bytes, Bool, List, [], ◌∷◌, ◌≡◌, arith}
use swarm_runtime.State.Error.{StateResult, ok, err, panic}
use swarm_runtime.State.Exec.{Exec, lift, ◌>>=◌}
use swarm_runtime.State.Keys.{agent_state_key, working_memory_key}
use swarm_runtime.State.Proto.{AgentStateRecord, WorkingMemoryRecord}
use swarm_runtime.State.Store.{Platform}
use swarm_runtime.State.Freeze.{FreezeInput}
use swarm_runtime.State.Hydrate.{
  HydrationResult, AgentHydrationManager, decode_found, stale_active_guard, load_working_memory,
  hydrate_with,
}
use swarm_runtime.State.Race.{Freezers, Action, act}

-- Where a hydration is: it has read the state, and has seen that no other runtime has the agent.
pub data HydratePc : Type 0 where
  begun : HydratePc
  state_read state_free : AgentStateRecord → HydratePc
  returned : StateResult HydrationResult → HydratePc

abbrev pub after_part : {A : Type 0} → (A → HydratePc) → StateResult A → HydratePc
after_part next (ok x) = next x
after_part next (err e) = HydratePc.returned (err e)
after_part next panic = HydratePc.returned panic

abbrev pub result_of : AgentStateRecord → WorkingMemoryRecord × Bool → HydratePc
result_of s (m, recovered) =
    HydratePc.returned
      (ok (record { state = s; working_memory = m; recovered_from_checkpoint = recovered }))

-- A call of the freezes, or the next call of the hydration.
pub data Event : Type 0 where
  freezing : Action → Event
  hydrating : Event

-- Freezes and one hydration, at the world that they share.
pub record Overlap (E : Platform) : Type 0 where
  pub freezers : Freezers E
  pub hydration : HydratePc

module _ (E : Platform) (recover : Bytes → Bytes → Exec E.World WorkingMemoryRecord)
    (manager : AgentHydrationManager) (t a : Bytes) where
  -- The next call of a hydration, with what follows up to the next; the last takes the recovery along.
  unfoldable pub hydrate_advance : HydratePc → E.World → HydratePc × E.World
  hydrate_advance HydratePc.begun w =
      let (r, w') = (E.get_state (agent_state_key t a) >>= λ o. lift (decode_found E a o)) w in
      (after_part HydratePc.state_read r, w')
  hydrate_advance (HydratePc.state_read s) w =
      let (r, w') = stale_active_guard E manager t a s w in
      (after_part (λ u. HydratePc.state_free s) r, w')
  hydrate_advance (HydratePc.state_free s) w =
      let (r, w') =
        (E.get_state (working_memory_key t a) >>= λ o. load_working_memory E recover t a s o) w in
      (after_part (result_of s) r, w')
  hydrate_advance (HydratePc.returned r) w = (HydratePc.returned r, w)

  -- Three steps without a break are the hydration.
  pub hydrate_advance_alone :
      (w : E.World)
      → let one = hydrate_advance HydratePc.begun w in
        let two = hydrate_advance one.0 one.1 in
        hydrate_advance two.0 two.1 ≡ (
          HydratePc.returned (hydrate_with E recover manager t a w).0,
          (hydrate_with E recover manager t a w).1,
        )
  unfolding hydrate_advance hydrate_with
  hydrate_advance_alone w = ground arith

  unfoldable pub overlap_step : (ℕ → FreezeInput) → Overlap E → Event → Overlap E
  unfolding hydrate_advance
  overlap_step inputs o (Event.freezing x) = record o { freezers = act E inputs o.freezers x }
  overlap_step inputs o Event.hydrating =
      let (p, w) = hydrate_advance o.hydration o.freezers.world in
      record { freezers = record o.freezers { world = w }; hydration = p }

  unfoldable pub overlap : (ℕ → FreezeInput) → Overlap E → List Event → Overlap E
  unfolding overlap_step
  overlap inputs o [] = o
  overlap inputs o (x ∷ events) = overlap inputs (overlap_step inputs o x) events
