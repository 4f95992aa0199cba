-- ===== src/State/Race/Overlap/Returns.antt =====
-- When a hydration (crates/af-swarm-state/src/hydrate.rs) returns that overlaps with freezes of its agent
-- (crates/af-swarm-state/src/freeze.rs).
use swarm_runtime.Prelude.{
  ℕ, ◌≤◌, Bytes, Bool, true, false, Bool-cases, ◌==◌, List, [], ◌∷◌, some, ◌≡◌, refl, ◌∙◌, ap, inl,
  inr, eq_ℤ,
}
use swarm_runtime.State.Error.{StateResult, ok, err, panic}
use swarm_runtime.State.Exec.{Exec}
use swarm_runtime.State.Keys.{agent_state_key, working_memory_key}
use swarm_runtime.State.Proto.{AgentStateRecord, WorkingMemoryRecord, status_code, active}
use swarm_runtime.State.Store.{ETag, StateRecord, Platform}
use swarm_runtime.State.Store.Laws.{IsOcc, IsAvailable, IsLossless}
use swarm_runtime.State.Freeze.{FreezeInput, frozen_state}
use swarm_runtime.State.Hydrate.{
  HydrationResult, AgentHydrationManager, decode_found, stale_active_guard, load_working_memory,
}
use swarm_runtime.State.Race.{Freezers, init}
use swarm_runtime.State.Race.Winner.{IsRace}
use swarm_runtime.State.Race.Crash.{Answers}
use swarm_runtime.State.Race.Stopped.{IsWhole}
use swarm_runtime.State.Race.Overlap.{
  HydratePc, after_part, result_of, hydrate_advance, Overlap, Event, overlap_step, overlap,
}
use swarm_runtime.State.Race.Overlap.Ended.{hydrating_calls}
use swarm_runtime.State.Race.Overlap.Reading.{Phase}
use swarm_runtime.State.Race.Overlap.Seen.{state_of, memory_of}
use swarm_runtime.State.Race.Overlap.Loaded.{IsStored, IsSeen}
use swarm_runtime.State.Race.Overlap.Whole.{
  IsSound, act-IsSound, hydrate_advance-IsSound, overlap-IsWhole,
}

-- The hydration has not failed.
abbrev IsFine : HydratePc → Type 0
IsFine HydratePc.begun = Unit
IsFine (HydratePc.state_read s) = Unit
IsFine (HydratePc.state_free s) = Unit
IsFine (HydratePc.returned (ok r)) = Unit
IsFine (HydratePc.returned (err e)) = ⊥
IsFine (HydratePc.returned panic) = ⊥

returned-IsFine :
    (result : StateResult HydrationResult)
    → IsFine (HydratePc.returned result)
    → (r : HydrationResult) × (result ≡ ok r)
returned-IsFine (ok r) h = (r, refl)
returned-IsFine (err e) h = absurd h
returned-IsFine panic h = absurd h

result_of-IsFine :
    (s : AgentStateRecord) (r : StateResult (WorkingMemoryRecord × Bool))
    (p : WorkingMemoryRecord × Bool)
    → r ≡ ok p
    → IsFine (after_part (result_of s) r)
result_of-IsFine s r (m, recovered) e = rw e tt

-- A recovery that always has a working memory.
abbrev pub Recovers : (E : Platform) → (Bytes → Bytes → Exec E.World WorkingMemoryRecord) → Type 0
Recovers E recover =
    (t a : Bytes) (w : E.World) → (m : WorkingMemoryRecord) × ((recover t a w).0 ≡ ok m)

module _ (E : Platform) (occ : IsOcc E) (available : IsAvailable E occ) (answers : Answers E)
    (lossless : IsLossless E) (recover : Bytes → Bytes → Exec E.World WorkingMemoryRecord)
    (recovers : Recovers E recover) (manager : AgentHydrationManager) (w0 : E.World) {t a : Bytes}
    {e : ETag} (inputs : ℕ → FreezeInput) (race : IsRace t a e inputs) (sr mr : StateRecord E.Wire)
    (s : AgentStateRecord) (m : WorkingMemoryRecord)
    (stored : IsStored E occ w0 t a inputs sr mr s m)
    (idle : eq_ℤ s.status (status_code active) ≡ false) where
  -- Whatever the freezes have done, both records are there and can be decoded.
  state_there :
      (f : Freezers E)
      → Phase E occ answers w0 inputs race f
      → (r : StateRecord E.Wire) × (s' : AgentStateRecord) × (occ.view f.world (agent_state_key t a)
          ≡ some r)
        × (E.decode_state r.value ≡ some s')
  state_there f (inl (behind, (sm, ss))) = (sr, s, ss ∙ stored.state_stored, stored.state_decoded)
  state_there f (inr (i, led)) =
      elim (state_of E occ answers lossless w0 (inputs i) (f.pc i) f.world led.ahead led.at) [
        | inl kept ↦
            let same = rw (race.tenant i, race.agent i) at kept in
            (sr, s, same ∙ stored.state_stored, stored.state_decoded)
        | inr (closed, (m', new, hm, hs)) ↦ (
          record { value = E.encode_state new; etag = hs.state_tag },
          new,
          rw (race.tenant i, race.agent i) at hs.state_stored,
          lossless.state new,
        )
      ]

  memory_there :
      (f : Freezers E)
      → Phase E occ answers w0 inputs race f
      → (r : StateRecord E.Wire) × (m' : WorkingMemoryRecord) × (occ.view f.world
            (working_memory_key t a)
          ≡ some r)
        × (E.decode_memory r.value ≡ some m')
  memory_there f (inl (behind, (sm, ss))) =
      (mr, m, sm ∙ stored.memory_stored, stored.memory_decoded)
  memory_there f (inr (i, led)) =
      elim (memory_of E occ answers lossless w0 (inputs i) (f.pc i) f.world led.at) [
        | inl kept ↦
            let same = rw (race.tenant i, race.agent i) at kept in
            (mr, m, same ∙ stored.memory_stored, stored.memory_decoded)
        | inr (new, h) ↦ (
          record { value = E.encode_memory new; etag = h.memory_tag },
          new,
          rw (race.tenant i, race.agent i) at h.memory_stored,
          lossless.memory new,
        )
      ]

  -- The state that it reads is not ACTIVE.
  seen_idle :
      (f : Freezers E) (s' : AgentStateRecord)
      → IsSeen E occ answers lossless recover w0 inputs race sr mr s m f s'
      → eq_ℤ s'.status (status_code active) ≡ false
  unfolding frozen_state
  seen_idle f s' (inl old) = rw old idle
  seen_idle f s' (inr new) = rw new.has_state.is_state refl

  loads :
      (s' : AgentStateRecord) (r : StateRecord E.Wire) (m' : WorkingMemoryRecord) (w : E.World)
      → E.decode_memory r.value ≡ some m'
      → (p : WorkingMemoryRecord × Bool) × ((load_working_memory E recover t a s' (some r) w).0
          ≡ ok p)
  unfolding load_working_memory
  loads s' r m' w d =
      let (again, recovered) = recovers t a w in
      elim (Bool-cases (m'.version == s'.working_memory_version)) [
        | inl same ↦ ((m', false), rw (d, same) refl)
        | inr torn ↦ ((again, true), rw (d, torn, recovered) refl)
      ]

  hydrate_advance-IsFine :
      (f : Freezers E) (p : HydratePc)
      → IsSound E occ answers lossless recover manager w0 inputs race sr mr s m stored f p
      → IsFine p
      → IsFine (hydrate_advance E recover manager t a p f.world).0
  unfolding hydrate_advance decode_found stale_active_guard
  hydrate_advance-IsFine f HydratePc.begun phase h =
      let (r, s', there, decoded) = state_there f phase in
      rw (available.get_total (agent_state_key t a) f.world, there, decoded) tt
  hydrate_advance-IsFine f (HydratePc.state_read s') (phase, seen) h = rw (seen_idle f s' seen) tt
  hydrate_advance-IsFine f (HydratePc.state_free s') (phase, seen) h =
      let mk = working_memory_key t a in
      let (r, m', there, decoded) = memory_there f phase in
      let (p, loaded) = loads s' r m' (E.get_state mk f.world).1 decoded in
      result_of-IsFine s' _ p (rw (available.get_total mk f.world, there) loaded)
  hydrate_advance-IsFine f (HydratePc.returned r) sound h = h

  overlap-IsFine :
      (o : Overlap E) (events : List Event)
      → IsSound E occ answers lossless recover manager w0 inputs race sr mr s m stored o.freezers
          o.hydration
      → IsFine o.hydration
      → IsFine (overlap E recover manager t a inputs o events).hydration
  unfolding overlap overlap_step
  overlap-IsFine o [] sound h = h
  overlap-IsFine o (Event.freezing x ∷ events) sound h =
      overlap-IsFine (overlap_step E recover manager t a inputs o (Event.freezing x)) events
        (act-IsSound E occ answers lossless recover manager w0 inputs race sr mr s m stored
          o.freezers x o.hydration sound)
        h
  overlap-IsFine o (Event.hydrating ∷ events) sound h =
      overlap-IsFine (overlap_step E recover manager t a inputs o Event.hydrating) events
        (hydrate_advance-IsSound E occ answers lossless recover manager w0 inputs race sr mr s m
          stored o.freezers o.hydration sound)
        (hydrate_advance-IsFine o.freezers o.hydration sound h)

  -- While any number of freezes of an agent are under way whose records agree at a version that fits
  -- `u64` and whose state is not
  -- ACTIVE, each from the working memory that is stored and with the same ETag of it, over a store that
  -- answers and with a recovery that always has a working memory: a hydration whose calls come anywhere
  -- between theirs has returned the agent after three of its own, as before the freezes, or as one of
  -- them leaves it, or with the state from before and the working memory that recovery returned.
  pub overlap_returns :
      (events : List Event)
      → 3 ≤ hydrating_calls events
      → (r : HydrationResult) × ((overlap E recover manager t a inputs
            (record { freezers = init E w0; hydration = HydratePc.begun })
            events).hydration
          ≡ HydratePc.returned (ok r))
        × ((i : ℕ) × IsWhole E recover (inputs i) s m r)
  overlap_returns events enough =
      let o : Overlap E = record { freezers = init E w0; hydration = HydratePc.begun } in
      let (result, ended, whole) =
        overlap-IsWhole E occ answers lossless recover manager w0 inputs race sr mr s m stored
          events enough in
      let fine = overlap-IsFine o events (inl ((λ j. tt), (refl, refl))) tt in
      let (r, is_ok) = returned-IsFine result (rw ended at fine) in
      (r, ended ∙ ap HydratePc.returned is_ok, whole r is_ok)
