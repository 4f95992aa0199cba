-- ===== src/State/Freeze/Outcomes.antt =====
-- How a freeze ends (crates/af-swarm-state/src/freeze.rs): what an error leaves behind, when a freeze
-- succeeds, and what becomes of a second freeze from the same hydration.
use swarm_runtime.Prelude.{some, ◌≡◌, ◌≢◌, ◌⊎◌, inl, inr, sym, ◌∙◌, ap}
use swarm_runtime.State.Error.{StateError, StateResult, ok, err, panic}
use swarm_runtime.State.Exec.{unwrap_or_result, bind_err}
use swarm_runtime.State.Keys.Families.{state-ne-memory}
use swarm_runtime.State.Store.{ETag, no_ttl, seconds, Platform}
use swarm_runtime.State.Store.Laws.{IsOcc, save-Saved}
use swarm_runtime.State.Freeze.{FreezeInput, frozen_memory, current_timestamp, freeze_state, freeze}
use swarm_runtime.State.Freeze.Writes.{stamp_at, state_key, memory_key}

unwrap_or_result-ne-err :
    {A : Type 0} (a : A) (r : StateResult A) (e : StateError) → unwrap_or_result a r ≢ err e
unwrap_or_result-ne-err a (ok b) e h = cc
unwrap_or_result-ne-err a (err d) e h = cc
unwrap_or_result-ne-err a panic e h = cc

module _ (E : Platform) (occ : IsOcc E) where
  -- Only the state write can fail a freeze whose working memory is written.
  freeze_state_err :
      (input : FreezeInput) (mb : E.Wire) (w : E.World) {e : StateError} {w' : E.World}
      → freeze_state E input mb w ≡ (err e, w')
      → (occ.view w' (state_key input) ≡ occ.view w (state_key input))
        × (occ.view w' (memory_key input) ≡ occ.view w (memory_key input))
  unfolding freeze_state current_timestamp
  freeze_state_err input mb w {e = e} {w' = w'} h =
      let sk = state_key input in
      let mk = memory_key input in
      let apart = state-ne-memory input.tenant_id input.agent_id in
      let w1 = (E.now w).1 in
      bind_err (E.save_state sk _ (some input.state_etag) no_ttl) _ w1 h
        (λ failed.
          let same = ap (λ p. p.1) failed in
          let why = ap (λ p. p.0) failed in
          (
            rw (← same) (occ.save_err sk _ _ no_ttl w1 e why ∙ occ.view-now w sk),
            rw (← same)
                (occ.save_other sk _ _ no_ttl w1 mk (λ q. apart (sym q)) ∙ occ.view-now w mk),
          ))
        (λ tag w2 saved rest. absurd (unwrap_or_result-ne-err 0 _ e (ap (λ p. p.0) rest)))

  -- A freeze that fails has not touched the agent's state record. Its working memory is as it was,
  -- or is the new one.
  pub freeze_err :
      (input : FreezeInput) (w : E.World) {e : StateError} {w' : E.World}
      → freeze E input w ≡ (err e, w')
      → (occ.view w' (state_key input) ≡ occ.view w (state_key input))
        × ((occ.view w' (memory_key input) ≡ occ.view w (memory_key input))
            ⊎ ((tag : ETag) × (occ.view w' (memory_key input)
                  ≡ some (record {
                    value = E.encode_memory (frozen_memory input.working_memory (stamp_at E w));
                    etag = tag;
                  }))))
  unfolding freeze current_timestamp
  freeze_err input w {e = e} {w' = w'} h =
      let sk = state_key input in
      let mk = memory_key input in
      let apart = state-ne-memory input.tenant_id input.agent_id in
      let w1 = (E.now w).1 in
      bind_err (E.save_state mk _ (some input.memory_etag) (seconds 86400)) _ w1 h
        (λ failed.
          let same = ap (λ p. p.1) failed in
          let why = ap (λ p. p.0) failed in
          (
            rw (← same) (occ.save_other mk _ _ (seconds 86400) w1 sk apart ∙ occ.view-now w sk),
            inl (rw (← same) (occ.save_err mk _ _ (seconds 86400) w1 e why ∙ occ.view-now w mk)),
          ))
        (λ tag w2 saved rest.
          let s = save-Saved E occ mk _ (some input.memory_etag) (seconds 86400) w1 tag w2 saved in
          let (state_kept, memory_kept) = freeze_state_err _ _ w2 rest in
          (state_kept ∙ s.others sk apart ∙ occ.view-now w sk, inr (tag, memory_kept ∙ s.stored)))
