-- ===== src/State/Race/Overlap/Phases.antt =====
-- What freezes of one agent (crates/af-swarm-state/src/freeze.rs) have made of its two records at any time:
-- nothing, or the first of them some of its own.
use swarm_runtime.Prelude.{◌≡◌, ◌⊎◌, refl, sym, inl, inr, ◌∙◌, some, ap}
use swarm_runtime.State.Error.{StateResult, ok, err, panic}
use swarm_runtime.State.Proto.{Timestamp}
use swarm_runtime.State.Store.{ETag, Platform, seconds}
use swarm_runtime.State.Store.Laws.{IsOcc, etag_of}
use swarm_runtime.State.Freeze.{FreezeInput, frozen_memory, frozen_state}
use swarm_runtime.State.Freeze.Writes.{state_key, memory_key}
use swarm_runtime.State.Race.{save_memory, FreezePc, after_save, advance}
use swarm_runtime.State.Race.Effects.{
  memory_kept, both_kept, save_memory_ok, save_memory_keeps, save_frozen_state_keeps,
  save_checkpoint_keeps,
}
use swarm_runtime.State.Race.Winner.{IsBehind}
use swarm_runtime.State.Race.Loser.{IsStale}
use swarm_runtime.State.Race.Crash.{Answers, HasNothing, HasSome, IsAt}

-- The freeze has its working memory written; and it writes no record of the agent any more.
abbrev pub IsAhead : FreezePc → Type 0
IsAhead FreezePc.starting = ⊥
IsAhead (FreezePc.memory_stamped stamp) = ⊥
IsAhead _ = Unit

abbrev pub IsClosed : FreezePc → Type 0
IsClosed FreezePc.starting = ⊥
IsClosed (FreezePc.memory_stamped stamp) = ⊥
IsClosed (FreezePc.memory_saved m) = ⊥
IsClosed (FreezePc.state_stamped m stamp) = ⊥
IsClosed _ = Unit

after_save-IsAhead : (p : FreezePc) (r : StateResult ETag) → IsAhead p → IsAhead (after_save p r)
after_save-IsAhead p (ok tag) h = h
after_save-IsAhead p (err e) h = tt
after_save-IsAhead p panic h = tt

module _ (E : Platform) (occ : IsOcc E) (answers : Answers E) (w0 : E.World) where
  -- The records of the agent of `input`, in two worlds.
  abbrev pub SameRecords : FreezeInput → E.World → E.World → Type 0
  SameRecords input w' w =
      (occ.view w' (memory_key input) ≡ occ.view w (memory_key input))
      × (occ.view w' (state_key input) ≡ occ.view w (state_key input))

  HasSome-kept :
      (input : FreezeInput) (w w' : E.World)
      → SameRecords input w' w
      → HasSome E occ answers w0 input w
      → HasSome E occ answers w0 input w'
  HasSome-kept input w w' (sm, ss) (inl (a, b)) = inl (sm ∙ a, ss ∙ b)
  HasSome-kept input w w' (sm, ss) (inr (inl h)) = inr (
      inl (record {
        m = h.m;
        has_memory = memory_kept E occ input h.m w w' sm h.has_memory;
        state_kept = ss ∙ h.state_kept;
      }))
  HasSome-kept input w w' (sm, ss) (inr (inr h)) =
      let (hm, hs) = both_kept E occ input h.m h.s w w' sm ss (h.has_memory, h.has_state) in
      inr (inr (record { m = h.m; s = h.s; has_memory = hm; has_state = hs }))

  pub IsAt-kept :
      (input : FreezeInput) (p : FreezePc) (w w' : E.World)
      → SameRecords input w' w
      → IsAt E occ answers w0 input p w
      → IsAt E occ answers w0 input p w'
  IsAt-kept input FreezePc.starting w w' (sm, ss) (a, b) = (sm ∙ a, ss ∙ b)
  IsAt-kept input (FreezePc.memory_stamped stamp) w w' (sm, ss) (a, b) = (sm ∙ a, ss ∙ b)
  IsAt-kept input (FreezePc.memory_saved m) w w' (sm, ss) (h, b) =
      (memory_kept E occ input m w w' sm h, ss ∙ b)
  IsAt-kept input (FreezePc.state_stamped m stamp) w w' (sm, ss) (h, b) =
      (memory_kept E occ input m w w' sm h, ss ∙ b)
  IsAt-kept input (FreezePc.state_saved m s) w w' (sm, ss) h =
      both_kept E occ input m s w w' sm ss h
  IsAt-kept input (FreezePc.sequenced m s seq) w w' (sm, ss) h =
      both_kept E occ input m s w w' sm ss h
  IsAt-kept input (FreezePc.checkpoint_stamped m s seq stamp) w w' (sm, ss) h =
      both_kept E occ input m s w w' sm ss h
  IsAt-kept input (FreezePc.finished r) w w' same h = HasSome-kept input w w' same h

  -- A step of a freeze that is ahead, of one that writes no more, and of one that is behind while
  -- nothing is written.
  pub advance-IsAhead :
      (input : FreezeInput) (p : FreezePc) (w : E.World)
      → IsAhead p
      → IsAhead (advance E input p w).0
        × (occ.view (advance E input p w).1 (memory_key input) ≡ occ.view w (memory_key input))
  unfolding advance
  advance-IsAhead input FreezePc.starting w h = absurd h
  advance-IsAhead input (FreezePc.memory_stamped stamp) w h = absurd h
  advance-IsAhead input (FreezePc.memory_saved m) w h = (tt, occ.view-now w (memory_key input))
  advance-IsAhead input (FreezePc.state_stamped m stamp) w h = (
    after_save-IsAhead (FreezePc.state_saved m (frozen_state input.state m.version stamp)) _ tt,
    save_frozen_state_keeps E occ input m stamp w,
  )
  advance-IsAhead input (FreezePc.state_saved m s) w h = (tt, occ.view-now w (memory_key input))
  advance-IsAhead input (FreezePc.sequenced m s seq) w h = (tt, occ.view-now w (memory_key input))
  advance-IsAhead input (FreezePc.checkpoint_stamped m s seq stamp) w h =
      (tt, (save_checkpoint_keeps E occ input m s seq stamp w).0)
  advance-IsAhead input (FreezePc.finished r) w h = (tt, refl)

  pub advance-IsClosed :
      (input : FreezeInput) (p : FreezePc) (w : E.World)
      → IsClosed p
      → IsClosed (advance E input p w).0 × SameRecords input (advance E input p w).1 w
  unfolding advance
  advance-IsClosed input FreezePc.starting w h = absurd h
  advance-IsClosed input (FreezePc.memory_stamped stamp) w h = absurd h
  advance-IsClosed input (FreezePc.memory_saved m) w h = absurd h
  advance-IsClosed input (FreezePc.state_stamped m stamp) w h = absurd h
  advance-IsClosed input (FreezePc.state_saved m s) w h =
      (tt, (occ.view-now w (memory_key input), occ.view-now w (state_key input)))
  advance-IsClosed input (FreezePc.sequenced m s seq) w h =
      (tt, (occ.view-now w (memory_key input), occ.view-now w (state_key input)))
  advance-IsClosed input (FreezePc.checkpoint_stamped m s seq stamp) w h =
      (tt, save_checkpoint_keeps E occ input m s seq stamp w)
  advance-IsClosed input (FreezePc.finished r) w h = (tt, (refl, refl))

  -- Where a step of a freeze that is behind leads.
  abbrev pub BehindOrAhead : FreezeInput → FreezePc → E.World → Type 0
  BehindOrAhead input p w =
      (IsBehind p × HasNothing E occ answers w0 input w)
      ⊎ (IsAhead p × IsAt E occ answers w0 input p w × IsStale E occ input w)

  saved-BehindOrAhead :
      (input : FreezeInput) (stamp : Timestamp) (w : E.World) (r : StateResult ETag)
      → (save_memory E input stamp w).0 ≡ r
      → HasNothing E occ answers w0 input w
      → BehindOrAhead input
          (after_save (FreezePc.memory_saved (frozen_memory input.working_memory stamp)) r)
          (save_memory E input stamp w).1
  saved-BehindOrAhead input stamp w (ok new) e (sm, ss) =
      let mk = memory_key input in
      let v = E.encode_memory (frozen_memory input.working_memory stamp) in
      let (guarded, stored, fresh) =
        occ.save_ok mk v (some input.memory_etag) (seconds 86400) w new e in
      inr (
        tt,
        (save_memory_ok E occ input stamp w new e, save_memory_keeps E occ input stamp w ∙ ss),
        λ same. fresh (guarded ∙ sym same ∙ ap etag_of stored),
      )
  saved-BehindOrAhead input stamp w (err x) e (sm, ss) =
      let v = E.encode_memory (frozen_memory input.working_memory stamp) in
      inl (
        tt,
        (
          occ.save_err (memory_key input) v (some input.memory_etag) (seconds 86400) w x e ∙ sm,
          save_memory_keeps E occ input stamp w ∙ ss,
        ),
      )
  saved-BehindOrAhead input stamp w panic e h = absurd (answers _ _ _ _ w e)

  pub advance-BehindOrAhead :
      (input : FreezeInput) (p : FreezePc) (w : E.World)
      → IsBehind p
      → HasNothing E occ answers w0 input w
      → BehindOrAhead input (advance E input p w).0 (advance E input p w).1
  unfolding advance
  advance-BehindOrAhead input FreezePc.starting w behind (sm, ss) =
      inl (tt, (occ.view-now w (memory_key input) ∙ sm, occ.view-now w (state_key input) ∙ ss))
  advance-BehindOrAhead input (FreezePc.memory_stamped stamp) w behind h =
      saved-BehindOrAhead input stamp w _ refl h
  advance-BehindOrAhead input (FreezePc.finished (ok seq)) w behind h = absurd behind
  advance-BehindOrAhead input (FreezePc.finished (err e)) w behind h = inl (tt, h)
  advance-BehindOrAhead input (FreezePc.finished panic) w behind h = inl (tt, h)
  advance-BehindOrAhead input _ w behind h = absurd behind
