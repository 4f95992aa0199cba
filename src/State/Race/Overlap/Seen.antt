-- ===== src/State/Race/Overlap/Seen.antt =====
-- What a hydration (crates/af-swarm-state/src/hydrate.rs) can have read of an agent that is being frozen
-- (crates/af-swarm-state/src/freeze.rs).
use swarm_runtime.Prelude.{ℕ, Bytes, some, ◌≡◌, ◌⊎◌, inl, inr, ◌∙◌, sym}
use swarm_runtime.State.Keys.{agent_state_key}
use swarm_runtime.State.Proto.{AgentStateRecord, WorkingMemoryRecord}
use swarm_runtime.State.Store.{ETag, StateRecord, Platform}
use swarm_runtime.State.Store.Laws.{IsOcc, IsLossless}
use swarm_runtime.State.Freeze.{FreezeInput}
use swarm_runtime.State.Freeze.Writes.{state_key, memory_key}
use swarm_runtime.State.Race.{FreezePc, Freezers, Action, act}
use swarm_runtime.State.Race.Effects.{HasMemory, HasState, both_kept}
use swarm_runtime.State.Race.Winner.{IsRace}
use swarm_runtime.State.Race.Crash.{Answers, IsAt}
use swarm_runtime.State.Race.Overlap.Phases.{IsAhead, IsClosed}
use swarm_runtime.State.Race.Overlap.Reading.{
  SamePair, Phase, IsSealed, records_of, look-IsSealed, freeze_step-IsSealed,
}

module _ (E : Platform) (occ : IsOcc E) (answers : Answers E) (lossless : IsLossless E)
    (w0 : E.World) where
  -- A freeze that is ahead has left the state as it was, or has written both records and writes no more.
  pub state_of :
      (input : FreezeInput) (p : FreezePc) (w : E.World)
      → IsAhead p
      → IsAt E occ answers w0 input p w
      → (occ.view w (state_key input) ≡ occ.view w0 (state_key input))
        ⊎ (IsClosed p
            × ((m : WorkingMemoryRecord) × (s : AgentStateRecord) × HasMemory E occ input m w
                × HasState E occ input m s w))
  state_of input FreezePc.starting w h at = absurd h
  state_of input (FreezePc.memory_stamped stamp) w h at = absurd h
  state_of input (FreezePc.memory_saved m) w h (hm, same) = inl same
  state_of input (FreezePc.state_stamped m stamp) w h (hm, same) = inl same
  state_of input (FreezePc.state_saved m s) w h (hm, hs) = inr (tt, (m, s, hm, hs))
  state_of input (FreezePc.sequenced m s seq) w h (hm, hs) = inr (tt, (m, s, hm, hs))
  state_of input (FreezePc.checkpoint_stamped m s seq stamp) w h (hm, hs) = inr (tt, (m, s, hm, hs))
  state_of input (FreezePc.finished r) w h (inl (sm, ss)) = inl ss
  state_of input (FreezePc.finished r) w h (inr (inl one)) = inl one.state_kept
  state_of input (FreezePc.finished r) w h (inr (inr two)) =
      inr (tt, (two.m, two.s, two.has_memory, two.has_state))

  pub memory_of :
      (input : FreezeInput) (p : FreezePc) (w : E.World)
      → IsAt E occ answers w0 input p w
      → (occ.view w (memory_key input) ≡ occ.view w0 (memory_key input))
        ⊎ ((m : WorkingMemoryRecord) × HasMemory E occ input m w)
  memory_of input FreezePc.starting w (sm, ss) = inl sm
  memory_of input (FreezePc.memory_stamped stamp) w (sm, ss) = inl sm
  memory_of input (FreezePc.memory_saved m) w (hm, same) = inr (m, hm)
  memory_of input (FreezePc.state_stamped m stamp) w (hm, same) = inr (m, hm)
  memory_of input (FreezePc.state_saved m s) w (hm, hs) = inr (m, hm)
  memory_of input (FreezePc.sequenced m s seq) w (hm, hs) = inr (m, hm)
  memory_of input (FreezePc.checkpoint_stamped m s seq stamp) w (hm, hs) = inr (m, hm)
  memory_of input (FreezePc.finished r) w (inl (sm, ss)) = inl sm
  memory_of input (FreezePc.finished r) w (inr (inl one)) = inr (one.m, one.has_memory)
  memory_of input (FreezePc.finished r) w (inr (inr two)) = inr (two.m, two.has_memory)

  module _ {t a : Bytes} {e : ETag} (inputs : ℕ → FreezeInput) (race : IsRace t a e inputs) where
    -- `s` is the state that a freeze wrote, with its working memory, and no freeze writes any more.
    pub record IsNewPair (f : Freezers E) (s : AgentStateRecord) : Type 0 where
      pub sealed : IsSealed E occ answers w0 inputs race f
      pub writer : ℕ
      pub m : WorkingMemoryRecord
      pub has_memory : HasMemory E occ (inputs writer) m f.world
      pub has_state : HasState E occ (inputs writer) m s f.world

    moved-IsNewPair :
        (f f' : Freezers E) (s : AgentStateRecord)
        → IsSealed E occ answers w0 inputs race f'
        → SamePair E occ answers w0 inputs race f'.world f.world
        → IsNewPair f s
        → IsNewPair f' s
    moved-IsNewPair f f' s sealed same h =
        let (sm, ss) = records_of E occ answers w0 inputs race h.writer f'.world f.world same in
        let (hm, hs) =
          both_kept E occ (inputs h.writer) h.m s f.world f'.world sm ss
            (h.has_memory, h.has_state) in
        record { sealed = sealed; writer = h.writer; m = h.m; has_memory = hm; has_state = hs }

    pub look-IsNewPair :
        (f : Freezers E) (w : E.World) (s : AgentStateRecord)
        → SamePair E occ answers w0 inputs race w f.world
        → IsNewPair f s
        → IsNewPair (record f { world = w }) s
    look-IsNewPair f w s same h =
        moved-IsNewPair f (record f { world = w }) s
          (look-IsSealed E occ answers w0 inputs race f w same h.sealed) same h

    pub freeze_step-IsNewPair :
        (f : Freezers E) (k : ℕ) (s : AgentStateRecord)
        → IsNewPair f s
        → IsNewPair (act E inputs f (Action.freeze_step k)) s
    freeze_step-IsNewPair f k s h =
        let (sealed, same) = freeze_step-IsSealed E occ answers w0 inputs race f k h.sealed in
        moved-IsNewPair f _ s sealed same h

    same_state_decoding :
        (r r' : StateRecord E.Wire) (s s' : AgentStateRecord)
        → some r ≡ some r'
        → E.decode_state r.value ≡ some s
        → E.decode_state r'.value ≡ some s'
        → s' ≡ s
    same_state_decoding r r' s s' e d d' = cc

    -- The state that a hydration reads in any phase.
    pub read_state :
        (f : Freezers E) (s s' : AgentStateRecord) (sr rec : StateRecord E.Wire)
        → Phase E occ answers w0 inputs race f
        → occ.view w0 (agent_state_key t a) ≡ some sr
        → E.decode_state sr.value ≡ some s
        → occ.view f.world (agent_state_key t a) ≡ some rec
        → E.decode_state rec.value ≡ some s'
        → (s' ≡ s) ⊎ IsNewPair f s'
    read_state f s s' sr rec (inl (behind, (sm, ss))) hs ds read dec =
        inl (same_state_decoding sr rec s s' (sym (ss ∙ hs) ∙ read) ds dec)
    read_state f s s' sr rec (inr (i, led)) hs ds read dec =
        elim (state_of (inputs i) (f.pc i) f.world led.ahead led.at) [
          | inl kept ↦
              let same = rw (race.tenant i, race.agent i) at kept in
              inl (same_state_decoding sr rec s s' (sym (same ∙ hs) ∙ read) ds dec)
          | inr (closed, (m, new, hm, hst)) ↦
              let stored = rw (race.tenant i, race.agent i) at hst.state_stored in
              let same : s' ≡ new =
                same_state_decoding (record { value = E.encode_state new; etag = hst.state_tag })
                  rec new s' (sym stored ∙ read) (lossless.state new) dec in
              inr (
                rw same (record {
                  sealed = record {
                    leader = i;
                    closed = closed;
                    stale = led.stale;
                    others = led.others;
                  };
                  writer = i;
                  m = m;
                  has_memory = hm;
                  has_state = hst;
                }))
        ]
