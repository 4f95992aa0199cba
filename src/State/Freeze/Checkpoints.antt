-- ===== src/State/Freeze/Checkpoints.antt =====
-- The checkpoints that freezes write (crates/af-swarm-state/src/freeze.rs, `write_checkpoint`).
use swarm_runtime.Prelude.{ℕ, none, some, ◌≡◌, ◌∷◌, [], ◌∙◌, sym}
use swarm_runtime.State.Error.{ok}
use swarm_runtime.State.Exec.{pure, bind_ok}
use swarm_runtime.State.Keys.{checkpoint_key}
use swarm_runtime.State.Proto.{Timestamp}
use swarm_runtime.State.Store.{ETag, no_ttl, Platform}
use swarm_runtime.State.Store.Laws.{IsOcc, save-Saved}
use swarm_runtime.State.Freeze.{
  FreezeInput, current_timestamp, unix_secs, write_checkpoint, or_default, checkpoint_of,
}
use swarm_runtime.State.Freeze.Writes.{stamp_at}

pure_ok : {W : Type 0} (a b : ℕ) (w w' : W) → pure a w ≡ (ok b, w') → (a ≡ b) × (w ≡ w')
pure_ok a b w w' h = (cc, cc)

module _ (E : Platform) (occ : IsOcc E) where
  -- The checkpoint that a write stores: both snapshots under their digest, at the key of its number.
  abbrev pub IsStored : FreezeInput → E.Wire → E.Wire → ℕ → E.World → Type 0
  IsStored input sb mb seq w =
      (stamp : Timestamp) × (tag : ETag) × (occ.view w
          (checkpoint_key input.tenant_id input.agent_id seq)
        ≡ some (record {
          value = E.encode_checkpoint (checkpoint_of E input seq (E.sha256 (sb ∷ mb ∷ [])) stamp);
          etag = tag;
        }))

  -- A checkpoint write that returns has stored the input's two snapshots with the digest of their
  -- encodings, under the second that the clock showed.
  pub write_checkpoint_ok :
      (input : FreezeInput) (sb mb : E.Wire) (w w' : E.World) (seq : ℕ)
      → write_checkpoint E input sb mb w ≡ (ok seq, w')
      → (seq ≡ (or_default (E.now w).0).secs) × IsStored input sb mb seq w'
  unfolding write_checkpoint current_timestamp unix_secs
  write_checkpoint_ok input sb mb w w' seq h =
      let now = (or_default (E.now w).0).secs in
      bind_ok (E.save_state (checkpoint_key input.tenant_id input.agent_id now) _ none no_ttl) _
        (E.now (E.now w).1).1 h
        λ tag w2 saved rest.
          let s = save-Saved E occ _ _ none no_ttl (E.now (E.now w).1).1 tag w2 saved in
          let (is_seq, is_world) = pure_ok now seq w2 w' rest in
          (sym is_seq, (stamp_at E (E.now w).1, tag, rw (← is_seq, ← is_world) s.stored))

  -- Two checkpoints of one agent in one second share a key: the second takes the place of the first.
  pub checkpoints_collide :
      (first second : FreezeInput) (sb mb sb' mb' : E.Wire) (w w' v v' : E.World) (m n : ℕ)
      → second.tenant_id ≡ first.tenant_id
      → second.agent_id ≡ first.agent_id
      → write_checkpoint E first sb mb w ≡ (ok m, w')
      → write_checkpoint E second sb' mb' v ≡ (ok n, v')
      → (or_default (E.now v).0).secs ≡ (or_default (E.now w).0).secs
      → (checkpoint_key second.tenant_id second.agent_id n
          ≡ checkpoint_key first.tenant_id first.agent_id m)
        × IsStored second sb' mb' m v'
  checkpoints_collide first second sb mb sb' mb' w w' v v' m n same_t same_a one two same_second =
      let (is_m, _) = write_checkpoint_ok first sb mb w w' m one in
      let (is_n, stored) = write_checkpoint_ok second sb' mb' v v' n two in
      let same : n ≡ m = is_n ∙ same_second ∙ sym is_m in
      (rw (same_t, same_a, same), rw same at stored)
