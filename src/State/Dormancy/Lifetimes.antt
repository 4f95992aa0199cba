-- ===== src/State/Dormancy/Lifetimes.antt =====
-- How long the store keeps what crates/af-swarm-state/src/freeze.rs writes.
use swarm_runtime.Prelude.{ℕ, Bytes, none, some, ◌≡◌, ◌≢◌, sym, ◌∙◌, ap}
use swarm_runtime.State.Error.{ok}
use swarm_runtime.State.Exec.{unwrap_or_else, bind_ok}
use swarm_runtime.State.Keys.{checkpoint_key}
use swarm_runtime.State.Keys.Families.{state-ne-memory, state-ne-checkpoint, memory-ne-checkpoint}
use swarm_runtime.State.Store.{no_ttl, seconds, Platform}
use swarm_runtime.State.Store.Laws.{IsOcc}
use swarm_runtime.State.Store.Ttl.{IsTtl}
use swarm_runtime.State.Keeps.{left-IsLook, checkpoint_step-Keeps}
use swarm_runtime.State.Freeze.{
  FreezeInput, frozen_memory, current_timestamp, write_checkpoint, freeze_state, freeze,
}
use swarm_runtime.State.Freeze.Writes.{stamp_at, state_key, memory_key}

module _ (E : Platform) (occ : IsOcc E) (ttl : IsTtl E occ) where
  checkpoint_step_left :
      (input : FreezeInput) (sb mb : E.Wire) (w : E.World) (j : Bytes) {seq : ℕ} {w' : E.World}
      → ((n : ℕ) → j ≢ checkpoint_key input.tenant_id input.agent_id n)
      → unwrap_or_else 0 (write_checkpoint E input sb mb) w ≡ (ok seq, w')
      → ttl.left w' j ≡ ttl.left w j
  checkpoint_step_left input sb mb w j other h =
      rw (← (ap (λ p. p.1) h))
        (checkpoint_step-Keeps E j _ (left-IsLook E occ ttl j) input sb mb other w)

  freeze_state_left :
      (input : FreezeInput) (mb : E.Wire) (w : E.World) {seq : ℕ} {w' : E.World}
      → freeze_state E input mb w ≡ (ok seq, w')
      → (ttl.left w' (state_key input) ≡ none)
        × (ttl.left w' (memory_key input) ≡ ttl.left w (memory_key input))
  unfolding freeze_state current_timestamp
  freeze_state_left input mb w h =
      let sk = state_key input in
      let mk = memory_key input in
      let apart = state-ne-memory input.tenant_id input.agent_id in
      let w1 = (E.now w).1 in
      bind_ok (E.save_state sk _ (some input.state_etag) no_ttl) _ w1 h λ tag w2 saved rest.
        let done = ap (λ p. p.0) saved in
        let same = ap (λ p. p.1) saved in
        let ne = state-ne-checkpoint input.tenant_id input.agent_id in
        let ne' = memory-ne-checkpoint input.tenant_id input.agent_id in
        (
          checkpoint_step_left _ _ mb w2 sk ne rest
              ∙ rw (← same) (ttl.left-save sk _ _ no_ttl w1 tag done),
          checkpoint_step_left _ _ mb w2 mk ne' rest
              ∙ rw (← same) (ttl.left-other sk _ _ no_ttl w1 mk (λ e. apart (sym e)))
              ∙ ttl.left-now w mk,
        )

  -- The state stays, and the working memory has a day.
  pub left-freeze :
      (input : FreezeInput) (w : E.World) {seq : ℕ} {w' : E.World}
      → freeze E input w ≡ (ok seq, w')
      → (ttl.left w' (state_key input) ≡ none) × (ttl.left w' (memory_key input) ≡ some 86400)
  unfolding freeze current_timestamp
  left-freeze input w h =
      let mk = memory_key input in
      let w1 = (E.now w).1 in
      let memory = frozen_memory input.working_memory (stamp_at E w) in
      bind_ok (E.save_state mk _ (some input.memory_etag) (seconds 86400)) _ w1 h
        λ tag w2 saved rest.
          let done = ap (λ p. p.0) saved in
          let same = ap (λ p. p.1) saved in
          let (state_left, memory_left) =
            freeze_state_left (record input { working_memory = memory }) _ w2 rest in
          (state_left, memory_left ∙ rw (← same) (ttl.left-save mk _ _ (seconds 86400) w1 tag done))
