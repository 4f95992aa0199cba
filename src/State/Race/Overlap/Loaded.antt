-- ===== src/State/Race/Overlap/Loaded.antt =====
-- The end of a hydration (crates/af-swarm-state/src/hydrate.rs) with the working memory that it finds of an
-- agent that is being frozen (crates/af-swarm-state/src/freeze.rs).
use swarm_runtime.Prelude.{
  ℕ, ◌<◌, Bytes, Option, some, ◌≡◌, ◌⊎◌, refl, ◌∙◌, ap, arith, inl, inr, u64_mod,
}
use swarm_runtime.State.Exec.{Exec}
use swarm_runtime.State.Keys.{agent_state_key, working_memory_key}
use swarm_runtime.State.Proto.{AgentStateRecord, WorkingMemoryRecord}
use swarm_runtime.State.Store.{ETag, StateRecord, Platform}
use swarm_runtime.State.Store.Laws.{IsOcc, IsLossless}
use swarm_runtime.State.Freeze.{FreezeInput, frozen_memory, frozen_state}
use swarm_runtime.State.Hydrate.{HydrationResult}
use swarm_runtime.State.Hydrate.Sound.{LoadedFrom}
use swarm_runtime.State.Hydrate.Reads.{IsLoaded, IsLoaded-cases}
use swarm_runtime.State.Race.{Freezers}
use swarm_runtime.State.Race.Effects.{HasMemory}
use swarm_runtime.State.Race.Winner.{IsRace}
use swarm_runtime.State.Race.Crash.{Answers}
use swarm_runtime.State.Race.Stopped.{IsWhole, kept_result, torn_result}
use swarm_runtime.State.Race.Overlap.Reading.{Phase}
use swarm_runtime.State.Race.Overlap.Seen.{memory_of, IsNewPair}

-- The agent's records before the freezes are `s` and `m`, which agree, and the freezes start from `m`.
pub record IsStored (E : Platform) (occ : IsOcc E) (w0 : E.World) (t a : Bytes)
    (inputs : ℕ → FreezeInput) (sr mr : StateRecord E.Wire) (s : AgentStateRecord)
    (m : WorkingMemoryRecord) : Type 0 where
  pub state_stored : occ.view w0 (agent_state_key t a) ≡ some sr
  pub state_decoded : E.decode_state sr.value ≡ some s
  pub memory_stored : occ.view w0 (working_memory_key t a) ≡ some mr
  pub memory_decoded : E.decode_memory mr.value ≡ some m
  pub agree : m.version ≡ s.working_memory_version
  pub from_stored : (i : ℕ) → (inputs i).working_memory.version ≡ m.version
  pub fits : m.version < u64_mod

module _ (E : Platform) (occ : IsOcc E) (answers : Answers E) (lossless : IsLossless E)
    (recover : Bytes → Bytes → Exec E.World WorkingMemoryRecord) (w0 : E.World) {t a : Bytes}
    {e : ETag} (inputs : ℕ → FreezeInput) (race : IsRace t a e inputs) (sr mr : StateRecord E.Wire)
    (s : AgentStateRecord) (m : WorkingMemoryRecord) where
  -- Which state a hydration has read.
  abbrev pub IsSeen : Freezers E → AgentStateRecord → Type 0
  IsSeen f s' = (s' ≡ s) ⊎ IsNewPair E occ answers lossless w0 inputs race f s'

  abbrev pub IsWholeOfSome : HydrationResult → Type 0
  IsWholeOfSome r = (i : ℕ) × IsWhole E recover (inputs i) s m r

  module _ (stored : IsStored E occ w0 t a inputs sr mr s m) (f : Freezers E)
      (held : Option (StateRecord E.Wire)) (w : E.World) (r : HydrationResult)
      (found : held ≡ occ.view f.world (working_memory_key t a))
      (loaded : LoadedFrom E recover t a r.state held w r.working_memory
        r.recovered_from_checkpoint) where
    old_memory :
        r.state ≡ s
        → occ.view f.world (working_memory_key t a) ≡ occ.view w0 (working_memory_key t a)
        → IsWholeOfSome r
    old_memory es same =
        let is_held : held ≡ some mr = found ∙ same ∙ stored.memory_stored in
        let l =
          IsLoaded-cases E occ recover t a held w r mr m is_held stored.memory_decoded loaded in
        (0, inl (kept_result E recover t a s m r es stored.agree (rw es at l)))

    new_memory :
        (i : ℕ) (m' : WorkingMemoryRecord)
        → HasMemory E occ (inputs i) m' f.world
        → IsLoaded E recover t a r.state m' r
    new_memory i m' h =
        let mr' : StateRecord E.Wire = record { value = E.encode_memory m'; etag = h.memory_tag } in
        let there = rw (race.tenant i, race.agent i) at h.memory_stored in
        IsLoaded-cases E occ recover t a held w r mr' m' (found ∙ there) (lossless.memory m') loaded

    torn_pair :
        (i : ℕ) (m' : WorkingMemoryRecord)
        → r.state ≡ s
        → HasMemory E occ (inputs i) m' f.world
        → IsWholeOfSome r
    unfolding frozen_memory
    torn_pair i m' es h =
        let bumped = ap (λ (x : WorkingMemoryRecord). x.version) h.is_memory in
        let from = stored.from_stored i in
        let agree = stored.agree in
        let fits = stored.fits in
        let l : IsLoaded E recover t a s m' r = rw es at (new_memory i m' h) in
        let (flag, recovered) = torn_result E recover t a s m' r (λ same. absurd (omega arith)) l in
        (i, inr (inl (es, flag, rw (race.tenant i, race.agent i) recovered)))

    new_pair : IsNewPair E occ answers lossless w0 inputs race f r.state → IsWholeOfSome r
    unfolding frozen_state
    new_pair h =
        let i = h.writer in
        let l = new_memory i h.m h.has_memory in
        let m' = frozen_memory (inputs i).working_memory h.has_memory.memory_stamp in
        let s' = frozen_state (inputs i).state m'.version h.has_state.state_stamp in
        let same_memory : h.m ≡ m' = h.has_memory.is_memory in
        let same_state : r.state ≡ s' = rw same_memory at h.has_state.is_state in
        let l' : IsLoaded E recover t a s' m' r = rw same_state at rw same_memory at l in
        (
          i,
          inr (
              inr (
                h.has_memory.memory_stamp,
                h.has_state.state_stamp,
                kept_result E recover t a s' m' r same_state refl l',
              )),
        )

    pub loaded-IsWhole : Phase E occ answers w0 inputs race f → IsSeen f r.state → IsWholeOfSome r
    loaded-IsWhole phase (inr pair) = new_pair pair
    loaded-IsWhole (inl (behind, (sm, ss))) (inl es) = old_memory es sm
    loaded-IsWhole (inr (i, led)) (inl es) =
        elim (memory_of E occ answers lossless w0 (inputs i) (f.pc i) f.world led.at) [
          | inl kept ↦ old_memory es (rw (race.tenant i, race.agent i) at kept)
          | inr (m', h) ↦ torn_pair i m' es h
        ]
