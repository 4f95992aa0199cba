-- ===== src/State/Life/Refine.antt =====
-- The life of one agent (crates/af-swarm-state/src/freeze.rs and hydrate.rs) and a cell that holds what
-- was frozen last, and counts the freezes.
use swarm_runtime.Prelude.{
  ℕ, suc, ◌+◌, ◌%◌, ◌<◌, Bytes, false, Option, ◌≡◌, ◌∙◌, ap, arith, inl, inr, u64_mod, none, some,
  ◌≢◌, leb, Bool-cases, if◌then◌else◌,
}
use swarm_runtime.State.Error.{ok}
use swarm_runtime.State.Exec.{Exec}
use swarm_runtime.State.Keys.{agent_state_key, working_memory_key}
use swarm_runtime.State.Keys.Families.{IsCleanId, RecordKey, tenant, agent, built}
use swarm_runtime.State.Proto.{AgentStateRecord, WorkingMemoryRecord}
use swarm_runtime.State.Store.{Platform, ETag}
use swarm_runtime.State.Store.Laws.{IsOcc, IsAvailable, IsLossless}
use swarm_runtime.State.Freeze.{FreezeInput, freeze}
use swarm_runtime.State.Freeze.Outcomes.{freeze_err}
use swarm_runtime.State.Hydrate.{HydrationResult, AgentHydrationManager, hydrate_with}
use swarm_runtime.State.Hydrate.Reads.{IsLoaded, hydrate_reads}
use swarm_runtime.State.Lifecycle.{hydrate_consistent}
use swarm_runtime.State.Isolation.{IsOthers, freeze_isolated_look, hydrate_reads_only}
use swarm_runtime.State.Life.{
  IsLast, IsSettled, Life, IsAged, IsAged-kept, IsAged-idle, frozen-IsSettled,
}
use swarm_runtime.State.Dormancy.Lifetimes.{left-freeze}
use swarm_runtime.State.Dormancy.Woken.{recovered, hydrate_missing}
use swarm_runtime.State.Keeps.{view-IsLook, left-IsLook, hydrate-Keeps}
use swarm_runtime.State.Store.Ttl.{IsTtl}
use swarm_runtime.State.Freeze.Writes.{freeze_ok}

none-ne-some : (tag : ETag) → ◌≢◌ {A = Option ETag} none (some tag)
none-ne-some tag h = cc

module _ (E : Platform) (occ : IsOcc E) (ttl : IsTtl E occ) (lossless : IsLossless E)
    (recover : Bytes → Bytes → Exec E.World WorkingMemoryRecord) (manager : AgentHydrationManager)
    (t a : Bytes) (clean_tenant : IsCleanId t) (clean_agent : IsCleanId a)
    (quiet : (w : E.World) (j : Bytes) → occ.view (recover t a w).1 j ≡ occ.view w j)
    (quiet_left : (w : E.World) (j : Bytes) → ttl.left (recover t a w).1 j ≡ ttl.left w j) where
  -- What a hydration of a settled agent returns, as to its version.
  version-hydrate :
      (last : Option FreezeInput) (version : ℕ) (w w' : E.World) (r : HydrationResult)
      → IsSettled E occ ttl lossless recover manager t a last version false w
      → hydrate_with E recover manager t a w ≡ (ok r, w')
      → r.working_memory.version ≡ version
  version-hydrate last version w w' r h done =
      go
        (hydrate_reads E occ recover manager t a w w' r h.sr h.mr h.s h.m h.state_stored
          h.state_decoded h.memory_stored h.memory_decoded done).1
    where
      go : IsLoaded E recover t a h.s h.m r → r.working_memory.version ≡ version
      go (inl (_, same, _)) = ap (λ (m : WorkingMemoryRecord). m.version) same ∙ h.counted
      go (inr (torn, _, _)) = absurd (torn h.agree)

  -- A freeze that succeeds after a hydration finds a working memory, so it is less than a day old.
  young-freeze :
      (last : Option FreezeInput) (version age seq : ℕ) (w w1 w2 : E.World) (input : FreezeInput)
      → IsAged E occ ttl lossless recover manager t a last version age w
      → occ.view w1 (working_memory_key t a) ≡ occ.view w (working_memory_key t a)
      → input.tenant_id ≡ t
      → input.agent_id ≡ a
      → freeze E input w1 ≡ (ok seq, w2)
      → leb 86400 age ≡ false
  young-freeze last version age seq w w1 w2 input h kept et ea done =
      elim (Bool-cases (leb 86400 age)) [
        | inl over ↦
            let gone = rw over at h.settled.memory_stored in
            let guarded = rw (et, ea) at (freeze_ok E occ input w1 done).memory_guarded in
            absurd (none-ne-some _ (rw (kept ∙ gone) at guarded))
        | inr young ↦ young
      ]

  other_records :
      (k : RecordKey)
      → IsCleanId (tenant k)
      → IsCleanId (agent k)
      → (input : FreezeInput) (w : E.World) → IsCleanId input.tenant_id
      → IsCleanId input.agent_id
      → IsOthers input k
      → (occ.view (freeze E input w).1 (built k) ≡ occ.view w (built k))
        × (ttl.left (freeze E input w).1 (built k) ≡ ttl.left w (built k))
  other_records k kt ka input w ct ca other = (
    freeze_isolated_look E input k _ w (view-IsLook E occ (built k)) ct ca kt ka other,
    freeze_isolated_look E input k _ w (left-IsLook E occ ttl (built k)) ct ca kt ka other,
  )

  Life-IsAged :
      (start n age : ℕ) (last : Option FreezeInput) (w : E.World)
      → start < u64_mod
      → Life E occ ttl lossless recover manager t a start n last age w
      → IsAged E occ ttl lossless recover manager t a last ((start + n) % u64_mod) age w
  Life-IsAged start _ _ _ w fits (Life.created h sl ml) =
      let e : (start + 0) % u64_mod ≡ start = omega arith in
      rw e (record { settled = h; state_left = sl; memory_left = λ early. ml })
  Life-IsAged start n _ last _ fits (Life.idled {age = age} {w = w} before k) =
      IsAged-idle E occ ttl lossless recover manager t a w k
        (Life-IsAged start n age last w fits before)
  Life-IsAged start n age last _ fits (Life.hydrated {w = w} before) =
      IsAged-kept E occ ttl lossless recover manager t a w _
        (λ j own. (
          hydrate_reads_only E occ recover manager t a w quiet j,
          hydrate-Keeps E j _ (left-IsLook E occ ttl j) recover manager t a (λ v. quiet_left v j) w,
        ))
        (Life-IsAged start n age last w fits before)
  Life-IsAged start _ _ _ _ fits
        (Life.frozen {n} {last} {age} {w} {w1} {w2} {seq} before r input read et ea ev done) =
      let h = Life-IsAged start n age last w fits before in
      let mk = working_memory_key t a in
      let kept : occ.view w1 mk ≡ occ.view w mk =
        rw (ap (λ p. p.1) read) at (hydrate_reads_only E occ recover manager t a w quiet mk) in
      let young = young-freeze last _ age seq w w1 w2 input h kept et ea done in
      let version = version-hydrate last _ w w1 r (rw young at h.settled) read in
      let f =
        frozen-IsSettled E occ ttl lossless recover manager t a ((start + n) % u64_mod) input w1 w2
          seq et ea (ev ∙ version) done in
      let (sl, ml) = left-freeze E occ ttl input w1 done in
      let e : (start + suc n) % u64_mod ≡ ((start + n) % u64_mod + 1) % u64_mod = omega arith in
      rw e (record {
        settled = f;
        state_left = rw (et, ea) at sl;
        memory_left = λ early. rw (et, ea) at ml;
      })
  Life-IsAged start n age last _ fits
        (Life.refused {w = w} {w' = w'} before input et ea failed kept sl ml) =
      let same_state = rw (et, ea) at (freeze_err E occ input w failed).0 in
      IsAged-kept E occ ttl lossless recover manager t a w w'
        (λ j own. elim own [ inl e ↦ rw e (same_state, sl) | inr e ↦ rw e (kept, ml) ])
        (Life-IsAged start n age last w fits before)
  Life-IsAged start n age last _ fits (Life.elsewhere {w = w} before input ct ca other) =
      IsAged-kept E occ ttl lossless recover manager t a w _
        (λ j own. elim own [
          | inl e ↦
              rw e
                (other_records (RecordKey.state t a) clean_tenant clean_agent input w ct ca other)
          | inr e ↦
              rw e
                (other_records (RecordKey.memory t a) clean_tenant clean_agent input w ct ca other)
        ])
        (Life-IsAged start n age last w fits before)

  -- What a hydration returns in the life of an agent, over a store that answers, drops a record only
  -- when its TTL is over, and encodes without loss. Less than a day after the last successful freeze it
  -- returns the state and working memory that this freeze left; from then on the state with what
  -- recovery makes of the same records, or the error of recovery. The state points at the version that
  -- the working memory had: the first one and the number of successful freezes, modulo 2^64. So for
  -- tenants and agents with no separator in their names and no bar at the end, if recovery writes
  -- nothing, and whatever hydrations, freezes that wrote nothing and freezes of other agents came
  -- between.
  pub Life-refines_cell :
      (start n age : ℕ) (last : Option FreezeInput) (w : E.World)
      → IsAvailable E occ
      → start < u64_mod
      → Life E occ ttl lossless recover manager t a start n last age w
      → (s : AgentStateRecord) × (m : WorkingMemoryRecord) × (v : E.World) × ((j : Bytes)
          → occ.view v j ≡ occ.view w j)
        × ((hydrate_with E recover manager t a w).0 ≡ (
            if leb 86400 age
            then recovered s (recover t a v).0
            else ok (record { state = s; working_memory = m; recovered_from_checkpoint = false })))
        × IsLast last s m
        × (m.version ≡ s.working_memory_version)
        × (m.version ≡ (start + n) % u64_mod)
  Life-refines_cell start n age last w avail fits life =
      let h = (Life-IsAged start n age last w fits life).settled in
      let sk = agent_state_key t a in
      let mk = working_memory_key t a in
      let v1 = (E.get_state sk w).1 in
      let v2 = (E.get_state mk v1).1 in
      let hydrated : (hydrate_with E recover manager t a w).0 ≡ (
          if leb 86400 age
          then recovered h.s (recover t a v2).0
          else ok
              (record { state = h.s; working_memory = h.m; recovered_from_checkpoint = false })) =
        elim (Bool-cases (leb 86400 age)) [
          | inl over ↦ rw over (
              hydrate_missing E occ avail recover manager t a w h.s h.sr h.state_stored
                h.state_decoded h.is_idle (rw over at h.memory_stored))
          | inr young ↦ rw young (
              hydrate_consistent E occ avail recover manager t a w h.s h.m h.sr h.mr h.state_stored
                h.state_decoded h.is_idle (rw young at h.memory_stored) h.memory_decoded h.agree)
        ] in
      (
        h.s,
        h.m,
        v2,
        (λ j. occ.view-get mk v1 j ∙ occ.view-get sk w j),
        hydrated,
        h.is_last,
        h.agree,
        h.counted,
      )
