-- ===== src/State/Hydrate/Errors.antt =====
-- The refusals of a hydration before it reads the working memory (crates/af-swarm-state/src/hydrate.rs).
use swarm_runtime.Prelude.{ℕ, ◌<◌, ◌^◌, Bytes, Option, none, some, ◌≡◌, arith, negsuc, lt→ltb}
use swarm_runtime.State.Error.{ok, err, invalid_input, no_state_record, proto_error, agent_busy}
use swarm_runtime.State.Exec.{Exec}
use swarm_runtime.State.Freeze.{or_default, unix_secs}
use swarm_runtime.State.Keys.{agent_state_key}
use swarm_runtime.State.Proto.{
  Timestamp, AgentStateRecord, WorkingMemoryRecord, status_code, active,
}
use swarm_runtime.State.Store.{StateRecord, Platform}
use swarm_runtime.State.Hydrate.{
  AgentHydrationManager, age_of, decode_found, busy_unless_stale, stale_active_guard, hydrate_with,
}

module _ (E : Platform) (recover : Bytes → Bytes → Exec E.World WorkingMemoryRecord)
    (manager : AgentHydrationManager) (t a : Bytes) (w w1 : E.World) where
  -- An agent with no state record is refused, and so is one whose record does not decode.
  pub hydrate_unreadable :
      (found : Option (StateRecord E.Wire))
      → E.get_state (agent_state_key t a) w ≡ (ok found, w1)
      → (found ≡ none
          → hydrate_with E recover manager t a w ≡ (err (invalid_input (no_state_record a)), w1))
        × ((r : StateRecord E.Wire)
            → found ≡ some r
            → E.decode_state r.value ≡ none
            → hydrate_with E recover manager t a w ≡ (err proto_error, w1))
  unfolding hydrate_with decode_found
  hydrate_unreadable found read =
      ((λ missing. rw (read, missing)), (λ r is_found bad. rw (read, is_found, bad)))

  -- An ACTIVE agent hydrated less than the threshold ago is busy; the error tells its age, which is
  -- 0 where the clock is behind the stored time.
  hydrate_busy :
      (r : StateRecord E.Wire) (s : AgentStateRecord)
      → E.get_state (agent_state_key t a) w ≡ (ok (some r), w1)
      → E.decode_state r.value ≡ some s
      → s.status ≡ status_code active
      → age_of (or_default (E.now w1).0).secs s < manager.stale_active_threshold_secs
      → (hydrate_with E recover manager t a w).0
        ≡ err (agent_busy t a (age_of (or_default (E.now w1).0).secs s))
  unfolding hydrate_with decode_found stale_active_guard busy_unless_stale unix_secs age_of
  hydrate_busy r s read decoded is_active fresh = rw (read, decoded, is_active, lt→ltb _ _ fresh)

  -- A stored hydration time before 1970 makes an ACTIVE agent busy at every clock below 2^63 seconds,
  -- with the age 0, for every threshold but 0.
  pub hydrate_busy_before_epoch :
      (r : StateRecord E.Wire) (s : AgentStateRecord) (last : Timestamp) (n : ℕ)
      → E.get_state (agent_state_key t a) w ≡ (ok (some r), w1)
      → E.decode_state r.value ≡ some s
      → s.status ≡ status_code active
      → s.last_hydrated_at ≡ some last
      → last.seconds ≡ negsuc n
      → n < 2 ^ 63
      → (or_default (E.now w1).0).secs < 2 ^ 63
      → 0 < manager.stale_active_threshold_secs
      → (hydrate_with E recover manager t a w).0 ≡ err (agent_busy t a 0)
  unfolding age_of
  hydrate_busy_before_epoch r s last n read decoded is_active is_last negative small clock
        positive =
      let age : age_of (or_default (E.now w1).0).secs s ≡ 0 =
        rw (is_last, negative) (omega arith) in
      rw age at (hydrate_busy r s read decoded is_active (rw age positive))
