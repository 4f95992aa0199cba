-- ===== src/State/Keeps.antt =====
-- Actions that leave alone whatever one looks at at one key: what freeze and hydration
-- (crates/af-swarm-state/src/freeze.rs, hydrate.rs) do to other keys than their own.
use swarm_runtime.Prelude.{
  ℕ, Bytes, Option, none, some, ◌≡◌, ◌≢◌, refl, ◌∙◌, true, false, Bool, eq_ℤ, ◌==◌, if◌then◌else◌,
  arith,
}
use swarm_runtime.State.Error.{StateResult, ok, err, panic, torn_write}
use swarm_runtime.State.Exec.{Exec, continue, lift, map_err, unwrap_or_else, pure, ◌>>=◌, ◌>>◌}
use swarm_runtime.State.Keys.{agent_state_key, working_memory_key, checkpoint_key}
use swarm_runtime.State.Proto.{AgentStateRecord, WorkingMemoryRecord, status_code, active}
use swarm_runtime.State.Store.{StateRecord, Platform, TtlPolicy, ETag, no_ttl, seconds}
use swarm_runtime.State.Store.Laws.{IsOcc}
use swarm_runtime.State.Store.Ttl.{IsTtl}
use swarm_runtime.State.Freeze.{
  FreezeInput, freeze, freeze_state, write_checkpoint, current_timestamp, unix_secs,
}
use swarm_runtime.State.Hydrate.{
  AgentHydrationManager, hydrate_with, stale_active_guard, load_working_memory, decode_found,
  or_proto_error,
}

-- Something about a world that only a write at the key `j` can change.
pub record IsLook (E : Platform) (j : Bytes) {B : Type 0} (look : E.World → B) : Type 0 where
  pub look-now : (w : E.World) → look (E.now w).1 ≡ look w
  pub look-get : (k : Bytes) (w : E.World) → look (E.get_state k w).1 ≡ look w
  pub look-save :
      (k : Bytes) (v : E.Wire) (tag : Option ETag) (ttl : TtlPolicy) (w : E.World)
      → j ≢ k
      → look (E.save_state k v tag ttl w).1 ≡ look w

-- The record at the key, and the time that it has left.
pub view-IsLook : (E : Platform) (occ : IsOcc E) (j : Bytes) → IsLook E j (λ w. occ.view w j)
view-IsLook E occ j = record {
  look-now = λ w. occ.view-now w j;
  look-get = λ k w. occ.view-get k w j;
  look-save = λ k v tag ttl w ne. occ.save_other k v tag ttl w j ne;
}

pub left-IsLook :
    (E : Platform) (occ : IsOcc E) (ttl : IsTtl E occ) (j : Bytes) → IsLook E j (λ w. ttl.left w j)
left-IsLook E occ ttl j = record {
  look-now = λ w. ttl.left-now w j;
  look-get = λ k w. ttl.left-get k w j;
  look-save = λ k v tag t w ne. ttl.left-other k v tag t w j ne;
}

module _ (E : Platform) (j : Bytes) {B : Type 0} (look : E.World → B)
    (is_look : IsLook E j look) where
  -- An action leaves it as it was.
  abbrev pub Keeps : {A : Type 0} → Exec E.World A → Type 0
  Keeps m = (w : E.World) → look (m w).1 ≡ look w

  module _ {A A' : Type 0} where
    continue-Keeps :
        (r : StateResult A) (f : A → Exec E.World A') (v w : E.World)
        → look v ≡ look w
        → ((a : A) → Keeps (f a))
        → look (continue r f v).1 ≡ look w
    continue-Keeps (ok a) f v w h k = k a v ∙ h
    continue-Keeps (err e) f v w h k = h
    continue-Keeps panic f v w h k = h

    bind-Keeps :
        (m : Exec E.World A) (f : A → Exec E.World A')
        → Keeps m
        → ((a : A) → Keeps (f a))
        → Keeps (m >>= f)
    bind-Keeps m f h k w = continue-Keeps (m w).0 f (m w).1 w (h w) k

  if-Keeps :
      {A : Type 0} (b : Bool) (m n : Exec E.World A)
      → Keeps m
      → Keeps n
      → Keeps (if b then m else n)
  if-Keeps true m n h k = h
  if-Keeps false m n h k = k

  current_timestamp-Keeps : Keeps (current_timestamp E)
  unfolding current_timestamp
  current_timestamp-Keeps w = is_look.look-now w

  save-Keeps :
      (k : Bytes) (v : E.Wire) (tag : Option ETag) (ttl : TtlPolicy)
      → j ≢ k
      → Keeps (E.save_state k v tag ttl)
  save-Keeps k v tag ttl other w = is_look.look-save k v tag ttl w other

  save_checkpoint-Keeps :
      (t a : Bytes) (n : ℕ) (v : E.Wire)
      → ((n : ℕ) → j ≢ checkpoint_key t a n)
      → Keeps (E.save_state (checkpoint_key t a n) v none no_ttl >> pure n)
  save_checkpoint-Keeps t a n v other w =
      ground (arith, is_look.look-save (checkpoint_key t a n) v none no_ttl w (other n))

  write_checkpoint-Keeps :
      (input : FreezeInput) (sb mb : E.Wire)
      → ((n : ℕ) → j ≢ checkpoint_key input.tenant_id input.agent_id n)
      → Keeps (write_checkpoint E input sb mb)
  unfolding write_checkpoint current_timestamp unix_secs
  write_checkpoint-Keeps input sb mb other w =
      save_checkpoint-Keeps input.tenant_id input.agent_id _ _ other (E.now (E.now w).1).1
      ∙ is_look.look-now (E.now w).1
      ∙ is_look.look-now w

  -- Step 6, whether it succeeds or not.
  pub checkpoint_step-Keeps :
      (input : FreezeInput) (sb mb : E.Wire)
      → ((n : ℕ) → j ≢ checkpoint_key input.tenant_id input.agent_id n)
      → Keeps (unwrap_or_else 0 (write_checkpoint E input sb mb))
  checkpoint_step-Keeps input sb mb other w = write_checkpoint-Keeps input sb mb other w

  pub freeze_state-Keeps :
      (input : FreezeInput) (mb : E.Wire)
      → j ≢ agent_state_key input.tenant_id input.agent_id
      → ((n : ℕ) → j ≢ checkpoint_key input.tenant_id input.agent_id n)
      → Keeps (freeze_state E input mb)
  unfolding freeze_state
  freeze_state-Keeps input mb not_state not_checkpoint =
      bind-Keeps (current_timestamp E) _ current_timestamp-Keeps λ stamp.
        bind-Keeps
          (E.save_state (agent_state_key input.tenant_id input.agent_id) _ (some input.state_etag)
            no_ttl)
          _
          (save-Keeps (agent_state_key input.tenant_id input.agent_id) _ (some input.state_etag)
            no_ttl not_state)
          λ tag. checkpoint_step-Keeps _ _ mb not_checkpoint

  pub freeze-Keeps :
      (input : FreezeInput)
      → j ≢ agent_state_key input.tenant_id input.agent_id
      → j ≢ working_memory_key input.tenant_id input.agent_id
      → ((n : ℕ) → j ≢ checkpoint_key input.tenant_id input.agent_id n)
      → Keeps (freeze E input)
  unfolding freeze
  freeze-Keeps input not_state not_memory not_checkpoint =
      bind-Keeps (current_timestamp E) _ current_timestamp-Keeps λ stamp.
        bind-Keeps
          (E.save_state (working_memory_key input.tenant_id input.agent_id) _
            (some input.memory_etag) (seconds 86400))
          _
          (save-Keeps (working_memory_key input.tenant_id input.agent_id) _ (some input.memory_etag)
            (seconds 86400) not_memory)
          λ tag. freeze_state-Keeps _ _ not_state not_checkpoint

  pub stale_active_guard-Keeps :
      (manager : AgentHydrationManager) (t a : Bytes) (s : AgentStateRecord)
      → Keeps (stale_active_guard E manager t a s)
  unfolding stale_active_guard unix_secs
  stale_active_guard-Keeps manager t a s =
      if-Keeps (eq_ℤ s.status (status_code active)) _ _ (λ w. is_look.look-now w) (λ w. refl)

  load-Keeps :
      (recover : Bytes → Bytes → Exec E.World WorkingMemoryRecord) (t a : Bytes)
      (s : AgentStateRecord) (held : Option (StateRecord E.Wire))
      → Keeps (recover t a)
      → Keeps (load_working_memory E recover t a s held)
  unfolding load_working_memory
  load-Keeps recover t a s none h = bind-Keeps (recover t a) _ h λ m w. refl
  load-Keeps recover t a s (some r) h =
      bind-Keeps (lift (or_proto_error (E.decode_memory r.value))) _ (λ w. refl)
        λ mem.
          if-Keeps (mem.version == s.working_memory_version) _ _ (λ w. refl)
            (bind-Keeps
              (map_err (λ _. torn_write a s.working_memory_version mem.version) (recover t a)) _ h
              λ m w. refl)

  pub hydrate-Keeps :
      (recover : Bytes → Bytes → Exec E.World WorkingMemoryRecord) (manager : AgentHydrationManager)
      (t a : Bytes)
      → Keeps (recover t a)
      → Keeps (hydrate_with E recover manager t a)
  unfolding hydrate_with
  hydrate-Keeps recover manager t a h =
      bind-Keeps (E.get_state (agent_state_key t a)) _ (λ w. is_look.look-get _ w)
        λ o.
          bind-Keeps (lift (decode_found E a o)) _ (λ w. refl)
            λ s.
              bind-Keeps (stale_active_guard E manager t a s) _
                (stale_active_guard-Keeps manager t a s)
                λ u.
                  bind-Keeps (E.get_state (working_memory_key t a)) _ (λ w. is_look.look-get _ w)
                    λ held.
                      bind-Keeps (load_working_memory E recover t a s held) _
                        (load-Keeps recover t a s held h) λ p w. refl
