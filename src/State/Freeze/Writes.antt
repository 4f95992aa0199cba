-- ===== src/State/Freeze/Writes.antt =====
-- What the actions of crates/af-swarm-state/src/freeze.rs leave in the store.
use swarm_runtime.Prelude.{ℕ, Bytes, Option, some, ◌≡◌, ◌≢◌, refl, sym, ◌∙◌, ap}
use swarm_runtime.State.Error.{ok}
use swarm_runtime.State.Exec.{unwrap_or_else, bind_ok}
use swarm_runtime.State.Keys.{agent_state_key, working_memory_key, checkpoint_key}
use swarm_runtime.State.Keys.Families.{state-ne-memory, state-ne-checkpoint, memory-ne-checkpoint}
use swarm_runtime.State.Proto.{Timestamp, WorkingMemoryRecord}
use swarm_runtime.State.Store.{ETag, StateRecord, no_ttl, seconds, Platform}
use swarm_runtime.State.Store.Laws.{Guard, etag_of, IsOcc, save-Saved}
use swarm_runtime.State.Keeps.{view-IsLook, checkpoint_step-Keeps}
use swarm_runtime.State.Freeze.{
  FreezeInput, frozen_memory, frozen_state, current_timestamp, write_checkpoint, freeze_state,
  freeze, timestamp_of, or_default,
}

abbrev pub state_key : FreezeInput → Bytes
state_key input = agent_state_key input.tenant_id input.agent_id

abbrev pub memory_key : FreezeInput → Bytes
memory_key input = working_memory_key input.tenant_id input.agent_id

abbrev pub stamp_at : (E : Platform) → E.World → Timestamp
stamp_at E w = timestamp_of (or_default (E.now w).0)

module _ (E : Platform) (occ : IsOcc E) where
  -- Step 6 leaves the two records of steps 2 and 5 alone.
  checkpoint_step_other :
      (input : FreezeInput) (sb mb : E.Wire) (w : E.World) (j : Bytes) {seq : ℕ} {w' : E.World}
      → ((n : ℕ) → j ≢ checkpoint_key input.tenant_id input.agent_id n)
      → unwrap_or_else 0 (write_checkpoint E input sb mb) w ≡ (ok seq, w')
      → occ.view w' j ≡ occ.view w j
  checkpoint_step_other input sb mb w j other h =
      rw (← (ap (λ p. p.1) h))
        (checkpoint_step-Keeps E j _ (view-IsLook E occ j) input sb mb other w)

  -- The store after the state write of a freeze: the state of the input, frozen and pointing at the
  -- version `version`, in place of one with the input's ETag, and the working memory as it was.
  pub record StateWritten (input : FreezeInput) (version : ℕ) (w w' : E.World) : Type 0 where
    pub stamp : Timestamp
    pub tag : ETag
    pub guarded : Guard (some input.state_etag) (occ.view w (state_key input))
    pub stored :
        occ.view w' (state_key input)
        ≡ some
            (record { value = E.encode_state (frozen_state input.state version stamp); etag = tag })
    pub fresh : input.state_etag ≢ tag
    pub memory_kept : occ.view w' (memory_key input) ≡ occ.view w (memory_key input)

  fresh_tag :
      (held : Option (StateRecord E.Wire)) (old new : ETag)
      → etag_of held ≡ some old
      → etag_of held ≢ some new
      → old ≢ new
  fresh_tag held old new is_old not_new same = not_new (rw (← same) is_old)

  pub freeze_state_ok :
      (input : FreezeInput) (mb : E.Wire) (w : E.World) {seq : ℕ} {w' : E.World}
      → freeze_state E input mb w ≡ (ok seq, w')
      → StateWritten input input.working_memory.version w w'
  unfolding freeze_state current_timestamp
  freeze_state_ok input mb w {w' = w'} h =
      let sk = state_key input in
      let ne = state-ne-checkpoint input.tenant_id input.agent_id in
      let ne' = memory-ne-checkpoint input.tenant_id input.agent_id in
      let apart = state-ne-memory input.tenant_id input.agent_id in
      let w1 = (E.now w).1 in
      bind_ok (E.save_state sk _ (some input.state_etag) no_ttl) _ w1 h λ tag w2 saved rest.
        let s = save-Saved E occ sk _ (some input.state_etag) no_ttl w1 tag w2 saved in
        let held : Guard (some input.state_etag) (occ.view w sk) =
          rw (← (occ.view-now w sk)) s.guarded in
        record {
          stamp = stamp_at E w;
          tag = tag;
          guarded = held;
          stored = checkpoint_step_other _ _ mb w2 sk ne rest ∙ s.stored;
          fresh = fresh_tag (occ.view w1 sk) input.state_etag tag s.guarded s.fresh;
          memory_kept =
              checkpoint_step_other _ _ mb w2 (memory_key input) ne' rest
              ∙ s.others (memory_key input) (λ e. apart (sym e))
              ∙ occ.view-now w (memory_key input);
        }

  -- The store after a freeze that returned: both records written, each in place of one with the
  -- input's ETag, and the state pointing at the version of the working memory.
  pub record FreezeWritten (input : FreezeInput) (w w' : E.World) : Type 0 where
    pub memory : WorkingMemoryRecord
    pub memory_stamp : Timestamp
    pub is_memory : memory ≡ frozen_memory input.working_memory memory_stamp
    pub memory_tag : ETag
    pub memory_guarded : Guard (some input.memory_etag) (occ.view w (memory_key input))
    pub memory_stored :
        occ.view w' (memory_key input)
        ≡ some (record { value = E.encode_memory memory; etag = memory_tag })
    pub memory_fresh : input.memory_etag ≢ memory_tag
    pub state_stamp : Timestamp
    pub state_tag : ETag
    pub state_stored :
        occ.view w' (state_key input)
        ≡ some (record {
          value = E.encode_state (frozen_state input.state memory.version state_stamp);
          etag = state_tag;
        })
    pub state_fresh : input.state_etag ≢ state_tag
    pub state_guarded : Guard (some input.state_etag) (occ.view w (state_key input))

  pub freeze_ok :
      (input : FreezeInput) (w : E.World) {seq : ℕ} {w' : E.World}
      → freeze E input w ≡ (ok seq, w')
      → FreezeWritten input w w'
  unfolding freeze current_timestamp
  freeze_ok input w {w' = w'} h =
      let mk = memory_key input in
      let apart = state-ne-memory input.tenant_id input.agent_id in
      let w1 = (E.now w).1 in
      let memory = frozen_memory input.working_memory (stamp_at E w) in
      bind_ok (E.save_state mk _ (some input.memory_etag) (seconds 86400)) _ w1 h
        λ tag w2 saved rest.
          let s = save-Saved E occ mk _ (some input.memory_etag) (seconds 86400) w1 tag w2 saved in
          let st = freeze_state_ok (record input { working_memory = memory }) _ w2 rest in
          record {
            memory = memory;
            memory_stamp = stamp_at E w;
            is_memory = refl;
            memory_tag = tag;
            memory_guarded = rw (← (occ.view-now w mk)) s.guarded;
            memory_stored = st.memory_kept ∙ s.stored;
            memory_fresh = fresh_tag (occ.view w1 mk) input.memory_etag tag s.guarded s.fresh;
            state_stamp = st.stamp;
            state_tag = st.tag;
            state_stored = st.stored;
            state_fresh = st.fresh;
            state_guarded =
                rw (← (occ.view-now w (state_key input)), ← (s.others (state_key input) apart))
                  st.guarded;
          }
