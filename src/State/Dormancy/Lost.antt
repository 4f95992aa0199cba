-- ===== src/State/Dormancy/Lost.antt =====
-- An agent without a stored working memory, new or left alone for too long: `FreezeInput` of
-- crates/af-swarm-state/src/freeze.rs has an ETag of the working memory, and no way to say that there is
-- none.
use swarm_runtime.Prelude.{
  ℕ, Bytes, false, none, some, ◌≡◌, ◌≢◌, ◌∙◌, sym, refl, arith, inl, inr, Bool-cases, eq_bytes,
  eq_bytes→eq, eq_bytes_refl,
}
use swarm_runtime.State.Error.{err, etag_conflict}
use swarm_runtime.State.Exec.{Exec}
use swarm_runtime.State.Keys.{working_memory_key}
use swarm_runtime.State.Keys.Families.{IsCleanId, RecordKey}
use swarm_runtime.State.Proto.{WorkingMemoryRecord}
use swarm_runtime.State.Store.{Platform}
use swarm_runtime.State.Store.Laws.{Guard, IsOcc}
use swarm_runtime.State.Store.Ttl.{IsTtl}
use swarm_runtime.State.Freeze.{FreezeInput, freeze}
use swarm_runtime.State.Freeze.Writes.{memory_key}
use swarm_runtime.State.Freeze.Progress.{freeze_conflict, freeze_conflict_keeps}
use swarm_runtime.State.Hydrate.{AgentHydrationManager, hydrate_with}
use swarm_runtime.State.Isolation.{freeze_isolated, hydrate_reads_only}

differ : (s t : Bytes) → eq_bytes s t ≡ false → s ≢ t
differ s t other same = let here = eq_bytes_refl s in let there = rw (← same) at other in cc

module _ (E : Platform) (occ : IsOcc E) (ttl : IsTtl E occ)
    (recover : Bytes → Bytes → Exec E.World WorkingMemoryRecord)
    (manager : AgentHydrationManager) where
  -- What may follow `w0`: freezes and hydrations of any agent, whatever their outcome, and waiting.
  pub data IsLater (w0 : E.World) : E.World → Type 0 where
    begun : IsLater w0 w0
    waited : {w : E.World} → IsLater w0 w → (n : ℕ) → IsLater w0 (ttl.idle n w)
    hydrated :
        {w : E.World}
        → IsLater w0 w
        → (t a : Bytes) → IsLater w0 (hydrate_with E recover manager t a w).1
    frozen :
        {w : E.World}
        → IsLater w0 w
        → (input : FreezeInput) → IsCleanId input.tenant_id
        → IsCleanId input.agent_id
        → IsLater w0 (freeze E input w).1

  module _ (t a : Bytes) (clean_tenant : IsCleanId t) (clean_agent : IsCleanId a)
      (quiet : (t' a' : Bytes) (w : E.World) (j : Bytes)
        → occ.view (recover t' a' w).1 j ≡ occ.view w j) where
    -- A freeze of this agent fails at its first write.
    refused :
        (input : FreezeInput) (w : E.World)
        → input.tenant_id ≡ t
        → input.agent_id ≡ a
        → occ.view w (working_memory_key t a) ≡ none
        → ((freeze E input w).0 ≡ err (etag_conflict (working_memory_key t a)))
          × (occ.view (freeze E input w).1 (working_memory_key t a) ≡ none)
    refused input w et ea gone =
        let same_key : memory_key input ≡ working_memory_key t a = rw (et, ea) refl in
        let none_stored : occ.view w (memory_key input) ≡ none = rw same_key gone in
        let stale : ¬ Guard (some input.memory_etag) (occ.view w (memory_key input)) =
          rw none_stored (λ e. cc) in
        (
          rw same_key at (freeze_conflict E occ input w stale),
          rw same_key at (freeze_conflict_keeps E occ input w stale ∙ none_stored),
        )

    freeze-gone :
        (input : FreezeInput) (w : E.World)
        → IsCleanId input.tenant_id
        → IsCleanId input.agent_id
        → occ.view w (working_memory_key t a) ≡ none
        → occ.view (freeze E input w).1 (working_memory_key t a) ≡ none
    freeze-gone input w ct ca gone =
        let isolated = λ (others : ¬ ((t ≡ input.tenant_id) × (a ≡ input.agent_id))).
          freeze_isolated E occ input (RecordKey.memory t a) w ct ca clean_tenant clean_agent others
          ∙ gone in
        elim (Bool-cases (eq_bytes t input.tenant_id)) [
          | inl st ↦ elim (Bool-cases (eq_bytes a input.agent_id)) [
            | inl sa ↦
                (refused input w (sym (eq_bytes→eq t input.tenant_id st))
                  (sym (eq_bytes→eq a input.agent_id sa)) gone).1
            | inr other ↦ isolated (λ p. differ a input.agent_id other p.1)
          ]
          | inr other ↦ isolated (λ p. differ t input.tenant_id other p.0)
        ]

    idle-gone :
        (n : ℕ) (w : E.World) (j : Bytes) → occ.view w j ≡ none → occ.view (ttl.idle n w) j ≡ none
    idle-gone n w j gone = ground (arith, ttl.view-idle n w j)

    IsLater-gone :
        (w0 w : E.World)
        → occ.view w0 (working_memory_key t a) ≡ none
        → IsLater w0 w
        → occ.view w (working_memory_key t a) ≡ none
    IsLater-gone w0 _ gone IsLater.begun = gone
    IsLater-gone w0 _ gone (IsLater.waited {w = w} before n) =
        idle-gone n w (working_memory_key t a) (IsLater-gone w0 w gone before)
    IsLater-gone w0 _ gone (IsLater.hydrated {w = w} before t' a') =
        hydrate_reads_only E occ recover manager t' a' w (quiet t' a') (working_memory_key t a)
        ∙ IsLater-gone w0 w gone before
    IsLater-gone w0 _ gone (IsLater.frozen {w = w} before input ct ca) =
        freeze-gone input w ct ca (IsLater-gone w0 w gone before)

    -- An agent that has no working memory in the store is never frozen: whatever freezes and
    -- hydrations of whatever agents follow, at whatever times, every freeze of it fails with the
    -- conflict of the working memory's key, whichever ETag it carries. So for a store that drops
    -- records only by their TTL and refuses an ETag where it holds none, a recovery that writes
    -- nothing, and tenants and agents with no separator in their names and no bar at the end.
    pub lost_memory_locks :
        (w0 w : E.World) (input : FreezeInput)
        → occ.view w0 (working_memory_key t a) ≡ none
        → IsLater w0 w
        → input.tenant_id ≡ t
        → input.agent_id ≡ a
        → (freeze E input w).0 ≡ err (etag_conflict (working_memory_key t a))
    lost_memory_locks w0 w input gone later et ea =
        (refused input w et ea (IsLater-gone w0 w gone later)).0
