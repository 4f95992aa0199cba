-- ===== src/State/Race/Crash.antt =====
-- A freeze (crates/af-swarm-state/src/freeze.rs) that stops for good after any number of its calls, and
-- the hydration (crates/af-swarm-state/src/hydrate.rs) that follows.
use swarm_runtime.Prelude.{ℕ, zero, suc, Bytes, Option, some, ◌≡◌, ◌≢◌, ◌⊎◌, refl, ◌∙◌, inl, inr}
use swarm_runtime.State.Error.{StateResult, ok, err, panic}
use swarm_runtime.State.Proto.{Timestamp, AgentStateRecord, WorkingMemoryRecord}
use swarm_runtime.State.Store.{ETag, TtlPolicy, no_ttl, seconds, Platform}
use swarm_runtime.State.Store.Laws.{IsOcc}
use swarm_runtime.State.Freeze.{FreezeInput, frozen_memory, frozen_state}
use swarm_runtime.State.Freeze.Writes.{state_key, memory_key}
use swarm_runtime.State.Race.{save_memory, save_frozen_state, FreezePc, after_save, advance}
use swarm_runtime.State.Race.Alone.{advances}
use swarm_runtime.State.Race.Effects.{
  HasMemory, HasState, memory_kept, both_kept, save_memory_ok, save_memory_keeps,
  save_frozen_state_ok, save_frozen_state_keeps, save_checkpoint_keeps, now-both,
}

-- The Dapr client answers every write, with a result or an error.
abbrev pub Answers : Platform → Type 0
Answers E =
    (k : Bytes) (v : E.Wire) (tag : Option ETag) (ttl : TtlPolicy) (w : E.World)
    → (E.save_state k v tag ttl w).0 ≢ panic

module _ (E : Platform) (occ : IsOcc E) (answers : Answers E) (w0 : E.World) where
  -- What the store has of a freeze since `w0`: nothing, its working memory, or both of its records.
  abbrev pub HasNothing : FreezeInput → E.World → Type 0
  HasNothing input w =
      (occ.view w (memory_key input) ≡ occ.view w0 (memory_key input))
      × (occ.view w (state_key input) ≡ occ.view w0 (state_key input))

  pub record HasOne (input : FreezeInput) (w : E.World) : Type 0 where
    pub m : WorkingMemoryRecord
    pub has_memory : HasMemory E occ input m w
    pub state_kept : occ.view w (state_key input) ≡ occ.view w0 (state_key input)

  pub record HasTwo (input : FreezeInput) (w : E.World) : Type 0 where
    pub m : WorkingMemoryRecord
    pub s : AgentStateRecord
    pub has_memory : HasMemory E occ input m w
    pub has_state : HasState E occ input m s w

  abbrev pub HasSome : FreezeInput → E.World → Type 0
  HasSome input w = HasNothing input w ⊎ (HasOne input w ⊎ HasTwo input w)

  -- The same, with what the freeze knows of it where it stands.
  abbrev pub IsAt : FreezeInput → FreezePc → E.World → Type 0
  IsAt input FreezePc.starting w = HasNothing input w
  IsAt input (FreezePc.memory_stamped stamp) w = HasNothing input w
  IsAt input (FreezePc.memory_saved m) w =
      HasMemory E occ input m w × (occ.view w (state_key input) ≡ occ.view w0 (state_key input))
  IsAt input (FreezePc.state_stamped m stamp) w =
      HasMemory E occ input m w × (occ.view w (state_key input) ≡ occ.view w0 (state_key input))
  IsAt input (FreezePc.state_saved m s) w = HasMemory E occ input m w × HasState E occ input m s w
  IsAt input (FreezePc.sequenced m s seq) w = HasMemory E occ input m w × HasState E occ input m s w
  IsAt input (FreezePc.checkpoint_stamped m s seq stamp) w =
      HasMemory E occ input m w × HasState E occ input m s w
  IsAt input (FreezePc.finished r) w = HasSome input w

  pub IsAt-HasSome :
      (input : FreezeInput) (p : FreezePc) (w : E.World) → IsAt input p w → HasSome input w
  IsAt-HasSome input FreezePc.starting w h = inl h
  IsAt-HasSome input (FreezePc.memory_stamped stamp) w h = inl h
  IsAt-HasSome input (FreezePc.memory_saved m) w (hm, same) =
      inr (inl (record { m = m; has_memory = hm; state_kept = same }))
  IsAt-HasSome input (FreezePc.state_stamped m stamp) w (hm, same) =
      inr (inl (record { m = m; has_memory = hm; state_kept = same }))
  IsAt-HasSome input (FreezePc.state_saved m s) w (hm, hs) =
      inr (inr (record { m = m; s = s; has_memory = hm; has_state = hs }))
  IsAt-HasSome input (FreezePc.sequenced m s seq) w (hm, hs) =
      inr (inr (record { m = m; s = s; has_memory = hm; has_state = hs }))
  IsAt-HasSome input (FreezePc.checkpoint_stamped m s seq stamp) w (hm, hs) =
      inr (inr (record { m = m; s = s; has_memory = hm; has_state = hs }))
  IsAt-HasSome input (FreezePc.finished r) w h = h

  memory_saved-IsAt :
      (input : FreezeInput) (stamp : Timestamp) (w : E.World) (r : StateResult ETag)
      → let m = frozen_memory input.working_memory stamp in
        let p = save_memory E input stamp w in
        p.0 ≡ r → HasNothing input w → IsAt input (after_save (FreezePc.memory_saved m) r) p.1
  memory_saved-IsAt input stamp w (ok new) e (sm, ss) =
      (save_memory_ok E occ input stamp w new e, save_memory_keeps E occ input stamp w ∙ ss)
  memory_saved-IsAt input stamp w (err x) e (sm, ss) =
      let v = E.encode_memory (frozen_memory input.working_memory stamp) in
      inl (
        occ.save_err (memory_key input) v (some input.memory_etag) (seconds 86400) w x e ∙ sm,
        save_memory_keeps E occ input stamp w ∙ ss,
      )
  memory_saved-IsAt input stamp w panic e h = absurd (answers _ _ _ _ w e)

  state_saved-IsAt :
      (input : FreezeInput) (m : WorkingMemoryRecord) (stamp : Timestamp) (w : E.World)
      (r : StateResult ETag)
      → let s = frozen_state input.state m.version stamp in
        let p = save_frozen_state E input m stamp w in
        p.0 ≡ r
        → HasMemory E occ input m p.1
        → occ.view w (state_key input) ≡ occ.view w0 (state_key input)
        → IsAt input (after_save (FreezePc.state_saved m s) r) p.1
  state_saved-IsAt input m stamp w (ok new) e hm ss =
      (hm, save_frozen_state_ok E occ input m stamp w new e)
  state_saved-IsAt input m stamp w (err x) e hm ss =
      let s = frozen_state input.state m.version stamp in
      let kept =
        occ.save_err (state_key input) (E.encode_state s) (some input.state_etag) no_ttl w x e in
      inr (inl (record { m = m; has_memory = hm; state_kept = kept ∙ ss }))
  state_saved-IsAt input m stamp w panic e hm ss = absurd (answers _ _ _ _ w e)

  pub advance-IsAt :
      (input : FreezeInput) (p : FreezePc) (w : E.World)
      → IsAt input p w
      → IsAt input (advance E input p w).0 (advance E input p w).1
  unfolding advance
  advance-IsAt input FreezePc.starting w (sm, ss) =
      (occ.view-now w (memory_key input) ∙ sm, occ.view-now w (state_key input) ∙ ss)
  advance-IsAt input (FreezePc.memory_stamped stamp) w h = memory_saved-IsAt input stamp w _ refl h
  advance-IsAt input (FreezePc.memory_saved m) w (hm, ss) = (
    memory_kept E occ input m w _ (occ.view-now w (memory_key input)) hm,
    occ.view-now w (state_key input) ∙ ss,
  )
  advance-IsAt input (FreezePc.state_stamped m stamp) w (hm, ss) =
      let same = save_frozen_state_keeps E occ input m stamp w in
      state_saved-IsAt input m stamp w _ refl (memory_kept E occ input m w _ same hm) ss
  advance-IsAt input (FreezePc.state_saved m s) w h = now-both E occ input m s w h
  advance-IsAt input (FreezePc.sequenced m s seq) w h = now-both E occ input m s w h
  advance-IsAt input (FreezePc.checkpoint_stamped m s seq stamp) w h =
      let (sm, ss) = save_checkpoint_keeps E occ input m s seq stamp w in
      let (hm, hs) = both_kept E occ input m s w _ sm ss h in
      inr (inr (record { m = m; s = s; has_memory = hm; has_state = hs }))
  advance-IsAt input (FreezePc.finished r) w h = h

  advances-IsAt :
      (k : ℕ) (input : FreezeInput) (p : FreezePc) (w : E.World)
      → IsAt input p w
      → IsAt input (advances E k input (p, w)).0 (advances E k input (p, w)).1
  unfolding advances
  advances-IsAt zero input p w h = h
  advances-IsAt (suc k) input p w h = advances-IsAt k input _ _ (advance-IsAt input p w h)

  -- What the store has of a freeze after `k` calls.
  pub stopped-HasSome :
      (k : ℕ) (input : FreezeInput) → HasSome input (advances E k input (FreezePc.starting, w0)).1
  stopped-HasSome k input =
      IsAt-HasSome input _ _ (advances-IsAt k input FreezePc.starting w0 (refl, refl))
