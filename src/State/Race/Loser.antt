-- ===== src/State/Race/Loser.antt =====
-- The freezes of crates/af-swarm-state/src/freeze.rs that have written nothing: which of them may
-- write next, and which are refused.
use swarm_runtime.Prelude.{some, ◌≡◌, ◌≢◌, ◌⊎◌, refl, sym, ap, inl, inr, ◌∙◌}
use swarm_runtime.State.Error.{StateResult, ok, err, panic, etag_conflict}
use swarm_runtime.State.Proto.{Timestamp}
use swarm_runtime.State.Store.{ETag, seconds, Platform}
use swarm_runtime.State.Store.Laws.{etag_of, IsOcc}
use swarm_runtime.State.Freeze.{FreezeInput, frozen_memory}
use swarm_runtime.State.Freeze.Writes.{state_key, memory_key}
use swarm_runtime.State.Race.{save_memory, FreezePc, after_save, advance}
use swarm_runtime.State.Race.Effects.{save_memory_ok, save_memory_keeps}
use swarm_runtime.State.Race.Winner.{IsBehind, HasWritten}

-- The ETag of the working memory that the freeze read is not the stored one.
abbrev pub IsStale : (E : Platform) (occ : IsOcc E) → FreezeInput → E.World → Type 0
IsStale E occ input w = etag_of (occ.view w (memory_key input)) ≢ some input.memory_etag

module _ (E : Platform) (occ : IsOcc E) where
  -- Such a freeze stays behind, and its call changes neither record.
  pub loser_advances :
      (input : FreezeInput) (p : FreezePc) (w : E.World)
      → IsBehind p
      → IsStale E occ input w
      → IsBehind (advance E input p w).0
        × (occ.view (advance E input p w).1 (memory_key input) ≡ occ.view w (memory_key input))
        × (occ.view (advance E input p w).1 (state_key input) ≡ occ.view w (state_key input))
  unfolding advance
  loser_advances input FreezePc.starting w behind stale =
      (tt, occ.view-now w (memory_key input), occ.view-now w (state_key input))
  loser_advances input (FreezePc.memory_stamped stamp) w behind stale =
      let mk = memory_key input in
      let v = E.encode_memory (frozen_memory input.working_memory stamp) in
      let refused = occ.save_conflict mk v (some input.memory_etag) (seconds 86400) w stale in
      (
        rw refused tt,
        occ.save_err mk v (some input.memory_etag) (seconds 86400) w (etag_conflict mk) refused,
        save_memory_keeps E occ input stamp w,
      )
  loser_advances input (FreezePc.finished (ok seq)) w behind stale = absurd behind
  loser_advances input (FreezePc.finished (err e)) w behind stale = (tt, refl, refl)
  loser_advances input (FreezePc.finished panic) w behind stale = (tt, refl, refl)
  loser_advances input _ w behind stale = absurd behind

  memory_saved-HasWritten :
      (input : FreezeInput) (stamp : Timestamp) (w : E.World) (r : StateResult ETag)
      → let m = frozen_memory input.working_memory stamp in
        let p = save_memory E input stamp w in
        p.0 ≡ r
        → IsBehind (after_save (FreezePc.memory_saved m) r)
          ⊎ (HasWritten E occ input (after_save (FreezePc.memory_saved m) r) p.1
              × IsStale E occ input p.1)
  memory_saved-HasWritten input stamp w (ok new) e =
      let mk = memory_key input in
      let m = frozen_memory input.working_memory stamp in
      let (guarded, stored, fresh) =
        occ.save_ok mk (E.encode_memory m) (some input.memory_etag) (seconds 86400) w new e in
      inr (
        save_memory_ok E occ input stamp w new e,
        λ same. fresh (guarded ∙ sym same ∙ ap etag_of stored),
      )
  memory_saved-HasWritten input stamp w (err x) e = inl tt
  memory_saved-HasWritten input stamp w panic e = inl tt

  -- A freeze that has written nothing stays behind, or gets its working memory written, after which the
  -- ETag it read is not the stored one.
  pub IsBehind-advances :
      (input : FreezeInput) (p : FreezePc) (w : E.World)
      → IsBehind p
      → IsBehind (advance E input p w).0
        ⊎ (HasWritten E occ input (advance E input p w).0 (advance E input p w).1
            × IsStale E occ input (advance E input p w).1)
  unfolding advance
  IsBehind-advances input FreezePc.starting w behind = inl tt
  IsBehind-advances input (FreezePc.memory_stamped stamp) w behind =
      memory_saved-HasWritten input stamp w _ refl
  IsBehind-advances input (FreezePc.finished (ok seq)) w behind = absurd behind
  IsBehind-advances input (FreezePc.finished (err e)) w behind = inl tt
  IsBehind-advances input (FreezePc.finished panic) w behind = inl tt
  IsBehind-advances input _ w behind = absurd behind
