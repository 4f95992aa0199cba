-- ===== src/State/Isolation.antt =====
-- What freeze and hydration (crates/af-swarm-state/src/freeze.rs, hydrate.rs) leave alone, whatever
-- their outcome: an error or a panic half-way included.
use swarm_runtime.Prelude.{Bytes, ◌≡◌, ◌≢◌, refl, ◌∙◌}
use swarm_runtime.State.Exec.{Exec}
use swarm_runtime.State.Keys.Families.{
  RecordKey, state, memory, checkpoint, tenant, agent, built, IsCleanId, built_owner,
}
use swarm_runtime.State.Proto.{WorkingMemoryRecord}
use swarm_runtime.State.Store.{Platform}
use swarm_runtime.State.Store.Laws.{IsOcc}
use swarm_runtime.State.Freeze.{FreezeInput, freeze}
use swarm_runtime.State.Keeps.{IsLook, view-IsLook, freeze-Keeps, hydrate-Keeps}
use swarm_runtime.State.Hydrate.{AgentHydrationManager, hydrate_with}

-- The agent whose record it is, is not the agent of the freeze.
abbrev pub IsOthers : FreezeInput → RecordKey → Type 0
IsOthers input k = ¬ ((tenant k ≡ input.tenant_id) × (agent k ≡ input.agent_id))

-- Whatever one looks at at the key of another agent.
pub freeze_isolated_look :
    (E : Platform) {B : Type 0} (input : FreezeInput) (k : RecordKey) (look : E.World → B)
    (w : E.World)
    → IsLook E (built k) look
    → IsCleanId input.tenant_id
    → IsCleanId input.agent_id
    → IsCleanId (tenant k)
    → IsCleanId (agent k)
    → IsOthers input k
    → look (freeze E input w).1 ≡ look w
freeze_isolated_look E input k look w is_look ct ca kt ka others =
    freeze-Keeps E (built k) look is_look input
      (apart (state input.tenant_id input.agent_id) refl refl)
      (apart (memory input.tenant_id input.agent_id) refl refl)
      (λ n. apart (checkpoint input.tenant_id input.agent_id n) refl refl) w
  where
    apart :
        (l : RecordKey) → tenant l ≡ input.tenant_id → agent l ≡ input.agent_id → built k ≢ built l
    apart l et ea e =
        let (same_tenant, same_agent, rest) = built_owner k l kt ka (rw et ct) (rw ea ca) e in
        others (same_tenant ∙ et, same_agent ∙ ea)

module _ (E : Platform) (occ : IsOcc E) where
  -- A freeze of one agent changes no record of another, in any family, whatever the freeze's outcome:
  -- while tenants and agents have no separator in them and no bar at their end.
  pub freeze_isolated :
      (input : FreezeInput) (k : RecordKey) (w : E.World)
      → IsCleanId input.tenant_id
      → IsCleanId input.agent_id
      → IsCleanId (tenant k)
      → IsCleanId (agent k)
      → IsOthers input k
      → occ.view (freeze E input w).1 (built k) ≡ occ.view w (built k)
  freeze_isolated input k w =
      freeze_isolated_look E input k (λ v. occ.view v (built k)) w (view-IsLook E occ (built k))

  -- A hydration changes no record, whatever its outcome, if recovery changes none.
  pub hydrate_reads_only :
      (recover : Bytes → Bytes → Exec E.World WorkingMemoryRecord) (manager : AgentHydrationManager)
      (t a : Bytes) (w : E.World)
      → ((v : E.World) (j : Bytes) → occ.view (recover t a v).1 j ≡ occ.view v j)
      → (j : Bytes) → occ.view (hydrate_with E recover manager t a w).1 j ≡ occ.view w j
  hydrate_reads_only recover manager t a w h j =
      hydrate-Keeps E j _ (view-IsLook E occ j) recover manager t a (λ v. h v j) w
