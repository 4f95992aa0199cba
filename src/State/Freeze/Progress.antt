-- ===== src/State/Freeze/Progress.antt =====
-- When a freeze succeeds, and which of two freezes does (crates/af-swarm-state/src/freeze.rs).
use swarm_runtime.Prelude.{ℕ, none, some, ◌≡◌, sym, ◌∙◌, ap, ◌∷◌, []}
use swarm_runtime.State.Error.{ok, err, etag_conflict}
use swarm_runtime.State.Keys.{checkpoint_key}
use swarm_runtime.State.Keys.Families.{state-ne-memory}
use swarm_runtime.State.Store.{ETag, no_ttl, seconds, Platform}
use swarm_runtime.State.Store.Laws.{Guard, etag_of, IsOcc, IsAvailable}
use swarm_runtime.State.Freeze.{
  FreezeInput, frozen_memory, frozen_state, current_timestamp, unix_secs, write_checkpoint,
  freeze_state, freeze, or_default, checkpoint_of,
}
use swarm_runtime.State.Freeze.Writes.{stamp_at, state_key, memory_key, freeze_ok}

tag_eq : (a b : ETag) → some a ≡ some b → a ≡ b
tag_eq a b h = cc

module _ (E : Platform) (occ : IsOcc E) where
  -- A freeze whose memory ETag is not the stored one fails before it writes anything.
  pub freeze_conflict :
      (input : FreezeInput) (w : E.World)
      → ¬ Guard (some input.memory_etag) (occ.view w (memory_key input))
      → (freeze E input w).0 ≡ err (etag_conflict (memory_key input))
  unfolding freeze current_timestamp
  freeze_conflict input w stale =
      let conflict =
        occ.save_conflict (memory_key input)
          (E.encode_memory (frozen_memory input.working_memory (stamp_at E w)))
          (some input.memory_etag) (seconds 86400) (E.now w).1
          (rw (occ.view-now w (memory_key input)) stale) in
      rw conflict

  pub freeze_conflict_keeps :
      (input : FreezeInput) (w : E.World)
      → ¬ Guard (some input.memory_etag) (occ.view w (memory_key input))
      → occ.view (freeze E input w).1 (memory_key input) ≡ occ.view w (memory_key input)
  unfolding freeze current_timestamp
  freeze_conflict_keeps input w stale =
      let mk = memory_key input in
      let v = E.encode_memory (frozen_memory input.working_memory (stamp_at E w)) in
      let w1 = (E.now w).1 in
      let conflict =
        occ.save_conflict mk v (some input.memory_etag) (seconds 86400) w1
          (rw (occ.view-now w mk) stale) in
      let kept = occ.save_err mk v (some input.memory_etag) (seconds 86400) w1 _ conflict in
      rw conflict (kept ∙ occ.view-now w mk)

  -- Of two freezes that carry the memory ETag of one hydration, the second fails with a conflict.
  pub second_freeze_conflict :
      (first second : FreezeInput) (w w' : E.World) (seq : ℕ)
      → memory_key second ≡ memory_key first
      → second.memory_etag ≡ first.memory_etag
      → freeze E first w ≡ (ok seq, w')
      → (freeze E second w').0 ≡ err (etag_conflict (memory_key second))
  second_freeze_conflict first second w w' seq same_key same_tag done =
      let f = freeze_ok E occ first w done in
      freeze_conflict second w' (
        rw (same_key, same_tag)
          (λ g. f.memory_fresh (tag_eq _ _ (sym g ∙ ap etag_of f.memory_stored))))

module _ (E : Platform) (occ : IsOcc E) (avail : IsAvailable E occ) where
  write_checkpoint_total :
      (input : FreezeInput) (sb mb : E.Wire) (w : E.World)
      → (write_checkpoint E input sb mb w).0 ≡ ok (or_default (E.now w).0).secs
  unfolding write_checkpoint current_timestamp unix_secs
  write_checkpoint_total input sb mb w =
      let (tag, saved) =
        avail.save_total
          (checkpoint_key input.tenant_id input.agent_id (or_default (E.now w).0).secs)
          (E.encode_checkpoint (
            checkpoint_of E input (or_default (E.now w).0).secs (E.sha256 (sb ∷ mb ∷ []))
              (stamp_at E (E.now w).1)))
          none no_ttl (E.now (E.now w).1).1 tt in
      rw saved

  freeze_state_total :
      (input : FreezeInput) (mb : E.Wire) (w : E.World)
      → Guard (some input.state_etag) (occ.view w (state_key input))
      → (seq : ℕ) × ((freeze_state E input mb w).0 ≡ ok seq)
  unfolding freeze_state current_timestamp
  freeze_state_total input mb w guarded =
      let state = frozen_state input.state input.working_memory.version (stamp_at E w) in
      let (tag, saved) =
        avail.save_total (state_key input) (E.encode_state state) (some input.state_etag) no_ttl
          (E.now w).1 (rw (occ.view-now w (state_key input)) guarded) in
      let v =
        (E.save_state (state_key input) (E.encode_state state) (some input.state_etag) no_ttl
          (E.now w).1).1 in
      (
        (or_default (E.now v).0).secs,
        rw (
          saved,
          write_checkpoint_total (record input { state = state }) (E.encode_state state) mb,
        ),
      )

  -- Against a store that answers, a freeze that carries the stored ETags of both records returns.
  pub freeze_total :
      (input : FreezeInput) (w : E.World)
      → Guard (some input.memory_etag) (occ.view w (memory_key input))
      → Guard (some input.state_etag) (occ.view w (state_key input))
      → (seq : ℕ) × ((freeze E input w).0 ≡ ok seq)
  unfolding freeze current_timestamp
  freeze_total input w memory_guarded state_guarded =
      let mk = memory_key input in
      let sk = state_key input in
      let memory = frozen_memory input.working_memory (stamp_at E w) in
      let (tag, saved) =
        avail.save_total mk (E.encode_memory memory) (some input.memory_etag) (seconds 86400)
          (E.now w).1 (rw (occ.view-now w mk) memory_guarded) in
      let kept =
        occ.save_other mk (E.encode_memory memory) (some input.memory_etag) (seconds 86400)
          (E.now w).1 sk (state-ne-memory input.tenant_id input.agent_id)
        ∙ occ.view-now w sk in
      rw saved
        (freeze_state_total (record input { working_memory = memory }) _ _ (rw kept state_guarded))
