-- ===== src/State/Race/Winner.antt =====
-- The freeze of crates/af-swarm-state/src/freeze.rs that got its working memory written, and what the
-- steps of freezes do to its records.
use swarm_runtime.Prelude.{ℕ, Bytes, ◌≡◌, refl}
use swarm_runtime.State.Error.{StateResult, ok, err, panic}
use swarm_runtime.State.Proto.{Timestamp, AgentStateRecord, WorkingMemoryRecord}
use swarm_runtime.State.Store.{ETag, Platform}
use swarm_runtime.State.Store.Laws.{IsOcc}
use swarm_runtime.State.Freeze.{FreezeInput, frozen_state}
use swarm_runtime.State.Freeze.Writes.{state_key, memory_key}
use swarm_runtime.State.Race.{save_frozen_state, FreezePc, after_save, after_checkpoint, advance}
use swarm_runtime.State.Race.Effects.{
  HasMemory, HasState, memory_kept, both_kept, save_frozen_state_ok, save_frozen_state_keeps,
  save_checkpoint_keeps, now-both,
}

-- Freezes of one agent, that all read its working memory at the ETag `e`.
pub record IsRace (t a : Bytes) (e : ETag) (inputs : ℕ → FreezeInput) : Type 0 where
  pub tenant : (i : ℕ) → (inputs i).tenant_id ≡ t
  pub agent : (i : ℕ) → (inputs i).agent_id ≡ a
  pub etag : (i : ℕ) → (inputs i).memory_etag ≡ e

-- The freeze has written nothing, and has not returned.
abbrev pub IsBehind : FreezePc → Type 0
IsBehind FreezePc.starting = Unit
IsBehind (FreezePc.memory_stamped stamp) = Unit
IsBehind (FreezePc.finished (ok seq)) = ⊥
IsBehind (FreezePc.finished r) = Unit
IsBehind _ = ⊥

module _ (E : Platform) (occ : IsOcc E) where
  pub record HasBoth (input : FreezeInput) (w : E.World) : Type 0 where
    pub m : WorkingMemoryRecord
    pub s : AgentStateRecord
    pub has_memory : HasMemory E occ input m w
    pub has_state : HasState E occ input m s w

  -- What the store has of a freeze that got its working memory written.
  abbrev pub HasWritten : FreezeInput → FreezePc → E.World → Type 0
  HasWritten input FreezePc.starting w = ⊥
  HasWritten input (FreezePc.memory_stamped stamp) w = ⊥
  HasWritten input (FreezePc.memory_saved m) w = HasMemory E occ input m w
  HasWritten input (FreezePc.state_stamped m stamp) w = HasMemory E occ input m w
  HasWritten input (FreezePc.state_saved m s) w =
      HasMemory E occ input m w × HasState E occ input m s w
  HasWritten input (FreezePc.sequenced m s seq) w =
      HasMemory E occ input m w × HasState E occ input m s w
  HasWritten input (FreezePc.checkpoint_stamped m s seq stamp) w =
      HasMemory E occ input m w × HasState E occ input m s w
  HasWritten input (FreezePc.finished (ok seq)) w = HasBoth input w
  HasWritten input (FreezePc.finished (err e)) w = Unit
  HasWritten input (FreezePc.finished panic) w = Unit

  -- A world with the same two records serves as well.
  pub written_kept :
      (input : FreezeInput) (p : FreezePc) (w w' : E.World)
      → occ.view w' (memory_key input) ≡ occ.view w (memory_key input)
      → occ.view w' (state_key input) ≡ occ.view w (state_key input)
      → HasWritten input p w
      → HasWritten input p w'
  written_kept input FreezePc.starting w w' sm ss h = h
  written_kept input (FreezePc.memory_stamped stamp) w w' sm ss h = h
  written_kept input (FreezePc.memory_saved m) w w' sm ss h = memory_kept E occ input m w w' sm h
  written_kept input (FreezePc.state_stamped m stamp) w w' sm ss h =
      memory_kept E occ input m w w' sm h
  written_kept input (FreezePc.state_saved m s) w w' sm ss h =
      both_kept E occ input m s w w' sm ss h
  written_kept input (FreezePc.sequenced m s seq) w w' sm ss h =
      both_kept E occ input m s w w' sm ss h
  written_kept input (FreezePc.checkpoint_stamped m s seq stamp) w w' sm ss h =
      both_kept E occ input m s w w' sm ss h
  written_kept input (FreezePc.finished (ok seq)) w w' sm ss h =
      let (hm, hs) = both_kept E occ input h.m h.s w w' sm ss (h.has_memory, h.has_state) in
      record { m = h.m; s = h.s; has_memory = hm; has_state = hs }
  written_kept input (FreezePc.finished (err e)) w w' sm ss h = h
  written_kept input (FreezePc.finished panic) w w' sm ss h = h

  -- The state write of the freeze whose working memory is in the store, by its result.
  state_saved-HasWritten :
      (input : FreezeInput) (m : WorkingMemoryRecord) (stamp : Timestamp) (w : E.World)
      (r : StateResult ETag)
      → let s = frozen_state input.state m.version stamp in
        let p = save_frozen_state E input m stamp w in
        p.0 ≡ r
        → occ.view p.1 (memory_key input) ≡ occ.view w (memory_key input)
        → HasMemory E occ input m w
        → HasWritten input (after_save (FreezePc.state_saved m s) r) p.1
  state_saved-HasWritten input m stamp w (ok new) e same h =
      (memory_kept E occ input m w _ same h, save_frozen_state_ok E occ input m stamp w new e)
  state_saved-HasWritten input m stamp w (err x) e same h = tt
  state_saved-HasWritten input m stamp w panic e same h = tt

  checkpoint-HasWritten :
      (input : FreezeInput) (m : WorkingMemoryRecord) (s : AgentStateRecord) (seq : ℕ)
      (r : StateResult ETag) (w : E.World)
      → HasMemory E occ input m w × HasState E occ input m s w
      → HasWritten input (FreezePc.finished (after_checkpoint seq r)) w
  checkpoint-HasWritten input m s seq (ok new) w (hm, hs) = record {
    m = m;
    s = s;
    has_memory = hm;
    has_state = hs;
  }
  checkpoint-HasWritten input m s seq (err e) w (hm, hs) = record {
    m = m;
    s = s;
    has_memory = hm;
    has_state = hs;
  }
  checkpoint-HasWritten input m s seq panic w h = tt

  -- The next call of such a freeze leaves its working memory in the store.
  pub winner_advances :
      (input : FreezeInput) (p : FreezePc) (w : E.World)
      → HasWritten input p w
      → (occ.view (advance E input p w).1 (memory_key input) ≡ occ.view w (memory_key input))
        × HasWritten input (advance E input p w).0 (advance E input p w).1
  unfolding advance
  winner_advances input FreezePc.starting w h = absurd h
  winner_advances input (FreezePc.memory_stamped stamp) w h = absurd h
  winner_advances input (FreezePc.memory_saved m) w h =
      let same = occ.view-now w (memory_key input) in (same, memory_kept E occ input m w _ same h)
  winner_advances input (FreezePc.state_stamped m stamp) w h =
      let same = save_frozen_state_keeps E occ input m stamp w in
      (same, state_saved-HasWritten input m stamp w _ refl same h)
  winner_advances input (FreezePc.state_saved m s) w h =
      (occ.view-now w (memory_key input), now-both E occ input m s w h)
  winner_advances input (FreezePc.sequenced m s seq) w h =
      (occ.view-now w (memory_key input), now-both E occ input m s w h)
  winner_advances input (FreezePc.checkpoint_stamped m s seq stamp) w h =
      let (sm, ss) = save_checkpoint_keeps E occ input m s seq stamp w in
      (sm, checkpoint-HasWritten input m s seq _ _ (both_kept E occ input m s w _ sm ss h))
  winner_advances input (FreezePc.finished r) w h = (refl, h)
