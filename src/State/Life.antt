-- ===== src/State/Life.antt =====
-- The life of one agent (crates/af-swarm-state/src/freeze.rs and hydrate.rs): hydrations, freezes of
-- what they returned, freezes that write nothing, freezes of other agents, and the time between them,
-- in any order and number.
pub mod Refine
use swarm_runtime.Prelude.{
  ℕ, suc, ◌+◌, ◌%◌, ◌<◌, Bytes, false, Option, none, some, ◌≡◌, ◌≢◌, refl, sym, ◌∙◌, ap, arith, inl,
  inr, u64_mod, eq_ℤ, ◌⊎◌, Bool, true, leb, ◌-◌, if◌then◌else◌, Bool-cases,
}
use swarm_runtime.State.Error.{StateError, ok, err}
use swarm_runtime.State.Exec.{Exec}
use swarm_runtime.State.Keys.{agent_state_key, working_memory_key}
use swarm_runtime.State.Keys.Families.{IsCleanId}
use swarm_runtime.State.Proto.{
  Timestamp, AgentStateRecord, WorkingMemoryRecord, status_code, active,
}
use swarm_runtime.State.Store.{StateRecord, Platform}
use swarm_runtime.State.Store.Laws.{IsOcc, IsAvailable, IsLossless}
use swarm_runtime.State.Store.Ttl.{IsTtl, is_over, lessen}
use swarm_runtime.State.Freeze.{FreezeInput, frozen_memory, frozen_state, freeze}
use swarm_runtime.State.Freeze.Writes.{state_key, memory_key, freeze_ok}
use swarm_runtime.State.Freeze.Outcomes.{freeze_err}
use swarm_runtime.State.Hydrate.{HydrationResult, AgentHydrationManager, hydrate_with}
use swarm_runtime.State.Hydrate.Reads.{hydrate_reads}
use swarm_runtime.State.Lifecycle.{hydrate_consistent}
use swarm_runtime.State.Isolation.{freeze_isolated, hydrate_reads_only, IsOthers}

-- What the last successful freeze left: its input's state and working memory, frozen.
abbrev pub IsLast : Option FreezeInput → AgentStateRecord → WorkingMemoryRecord → Type 0
IsLast none s m = Unit
IsLast (some input) s m =
    (memory_stamp : Timestamp) × (state_stamp : Timestamp) × (m
      ≡ frozen_memory input.working_memory memory_stamp)
    × (s ≡ frozen_state input.state m.version state_stamp)

module _ (E : Platform) (occ : IsOcc E) (ttl : IsTtl E occ) (lossless : IsLossless E)
    (recover : Bytes → Bytes → Exec E.World WorkingMemoryRecord) (manager : AgentHydrationManager)
    (t a : Bytes) where
  -- The two stored records agree, at the version `version`; or the working memory is gone, and agreed.
  pub record IsSettled (last : Option FreezeInput) (version : ℕ) (gone : Bool) (w : E.World)
      : Type 0 where
    pub s : AgentStateRecord
    pub m : WorkingMemoryRecord
    pub sr : StateRecord E.Wire
    pub mr : StateRecord E.Wire
    pub state_stored : occ.view w (agent_state_key t a) ≡ some sr
    pub state_decoded : E.decode_state sr.value ≡ some s
    pub memory_stored : occ.view w (working_memory_key t a) ≡ (if gone then none else some mr)
    pub memory_decoded : E.decode_memory mr.value ≡ some m
    pub is_idle : eq_ℤ s.status (status_code active) ≡ false
    pub agree : m.version ≡ s.working_memory_version
    pub counted : m.version ≡ version
    pub is_last : IsLast last s m

  -- The worlds that a life leads to, with the number of its freezes that succeeded, the input of the
  -- last, and the seconds since. A freeze follows a hydration, and freezes a working memory of the
  -- version that it returned; a freeze that fails may be one that wrote nothing.
  pub data Life (start : ℕ) : ℕ → Option FreezeInput → ℕ → E.World → Type 0 where
    created :
        {w : E.World}
        → IsSettled none start false w
        → ttl.left w (agent_state_key t a) ≡ none
        → ttl.left w (working_memory_key t a) ≡ some 86400
        → Life start 0 none 0 w
    idled :
        {n : ℕ} {last : Option FreezeInput} {age : ℕ} {w : E.World}
        → Life start n last age w
        → (k : ℕ) → Life start n last (age + k) (ttl.idle k w)
    hydrated :
        {n : ℕ} {last : Option FreezeInput} {age : ℕ} {w : E.World}
        → Life start n last age w
        → Life start n last age (hydrate_with E recover manager t a w).1
    frozen :
        {n : ℕ} {last : Option FreezeInput} {age : ℕ} {w w1 w2 : E.World} {seq : ℕ}
        → Life start n last age w
        → (r : HydrationResult) (input : FreezeInput)
        → hydrate_with E recover manager t a w ≡ (ok r, w1)
        → input.tenant_id ≡ t
        → input.agent_id ≡ a
        → input.working_memory.version ≡ r.working_memory.version
        → freeze E input w1 ≡ (ok seq, w2)
        → Life start (suc n) (some input) 0 w2
    refused :
        {n : ℕ} {last : Option FreezeInput} {age : ℕ} {w w' : E.World} {e : StateError}
        → Life start n last age w
        → (input : FreezeInput) → input.tenant_id ≡ t
        → input.agent_id ≡ a
        → freeze E input w ≡ (err e, w')
        → occ.view w' (working_memory_key t a) ≡ occ.view w (working_memory_key t a)
        → ttl.left w' (agent_state_key t a) ≡ ttl.left w (agent_state_key t a)
        → ttl.left w' (working_memory_key t a) ≡ ttl.left w (working_memory_key t a)
        → Life start n last age w'
    elsewhere :
        {n : ℕ} {last : Option FreezeInput} {age : ℕ} {w : E.World}
        → Life start n last age w
        → (input : FreezeInput) → IsCleanId input.tenant_id
        → IsCleanId input.agent_id
        → ¬ ((t ≡ input.tenant_id) × (a ≡ input.agent_id))
        → Life start n last age (freeze E input w).1

  -- The same of a world after `age` seconds, with the time that the records have left.
  pub record IsAged (last : Option FreezeInput) (version age : ℕ) (w : E.World) : Type 0 where
    pub settled : IsSettled last version (leb 86400 age) w
    pub state_left : ttl.left w (agent_state_key t a) ≡ none
    pub memory_left :
        leb 86400 age ≡ false → ttl.left w (working_memory_key t a) ≡ some (86400 - age)

  -- The keys of the agent's two records.
  abbrev pub IsOwn : Bytes → Type 0
  IsOwn j = (j ≡ agent_state_key t a) ⊎ (j ≡ working_memory_key t a)

  pub IsSettled-kept :
      {last : Option FreezeInput} {version : ℕ} {gone : Bool} (w w' : E.World)
      → occ.view w' (agent_state_key t a) ≡ occ.view w (agent_state_key t a)
      → occ.view w' (working_memory_key t a) ≡ occ.view w (working_memory_key t a)
      → IsSettled last version gone w
      → IsSettled last version gone w'
  IsSettled-kept w w' ss sm h = record {
    s = h.s;
    m = h.m;
    sr = h.sr;
    mr = h.mr;
    state_stored = ss ∙ h.state_stored;
    state_decoded = h.state_decoded;
    memory_stored = sm ∙ h.memory_stored;
    memory_decoded = h.memory_decoded;
    is_idle = h.is_idle;
    agree = h.agree;
    counted = h.counted;
    is_last = h.is_last;
  }

  -- A world with the same records, that stay as long.
  pub IsAged-kept :
      {last : Option FreezeInput} {version age : ℕ} (w w' : E.World)
      → ((j : Bytes) → IsOwn j → (occ.view w' j ≡ occ.view w j) × (ttl.left w' j ≡ ttl.left w j))
      → IsAged last version age w
      → IsAged last version age w'
  IsAged-kept w w' same h =
      let (ss, sl) = same (agent_state_key t a) (inl refl) in
      let (ms, ml) = same (working_memory_key t a) (inr refl) in
      record {
        settled = IsSettled-kept w w' ss ms h.settled;
        state_left = sl ∙ h.state_left;
        memory_left = λ early. ml ∙ h.memory_left early;
      }

  memory-idle :
      {last : Option FreezeInput} {version age : ℕ} (w : E.World) (k : ℕ)
      → (h : IsAged last version age w)
      → occ.view (ttl.idle k w) (working_memory_key t a)
        ≡ (if leb 86400 (age + k) then none else some h.settled.mr)
  memory-idle {age = age} w k h =
      let mk = working_memory_key t a in
      let passed = ttl.view-idle k w mk in
      elim (Bool-cases (leb 86400 age)) [
        | inl over ↦
            let gone : occ.view w mk ≡ none = rw over at h.settled.memory_stored in
            let still : leb 86400 (age + k) ≡ true = ground arith in
            rw (passed, gone, still) (ground arith)
        | inr young ↦
            let stored : occ.view w mk ≡ some h.settled.mr = rw young at h.settled.memory_stored in
            let same : leb (86400 - age) k ≡ leb 86400 (age + k) = ground arith in
            rw (passed, h.memory_left young, stored, same) refl
      ]

  -- Time passes.
  pub IsAged-idle :
      {last : Option FreezeInput} {version age : ℕ} (w : E.World) (k : ℕ)
      → IsAged last version age w
      → IsAged last version (age + k) (ttl.idle k w)
  IsAged-idle {age = age} w k h = record {
    settled = record {
      s = h.settled.s;
      m = h.settled.m;
      sr = h.settled.sr;
      mr = h.settled.mr;
      state_stored =
          rw (ttl.view-idle k w (agent_state_key t a), h.state_left) h.settled.state_stored;
      state_decoded = h.settled.state_decoded;
      memory_stored = memory-idle w k h;
      memory_decoded = h.settled.memory_decoded;
      is_idle = h.settled.is_idle;
      agree = h.settled.agree;
      counted = h.settled.counted;
      is_last = h.settled.is_last;
    };
    state_left = rw (ttl.left-idle k w (agent_state_key t a), h.state_left) refl;
    memory_left = λ early.
        let young : leb 86400 age ≡ false = ground arith in
        rw (ttl.left-idle k w (working_memory_key t a), h.memory_left young)
          (ap some (omega arith));
  }

  -- A successful freeze of a working memory of version `version`.
  pub frozen-IsSettled :
      (version : ℕ) (input : FreezeInput) (w w' : E.World) (seq : ℕ)
      → input.tenant_id ≡ t
      → input.agent_id ≡ a
      → input.working_memory.version ≡ version
      → freeze E input w ≡ (ok seq, w')
      → IsSettled (some input) ((version + 1) % u64_mod) false w'
  unfolding frozen_memory frozen_state
  frozen-IsSettled version input w w' seq et ea ev done =
      let f = freeze_ok E occ input w done in
      let m = frozen_memory input.working_memory f.memory_stamp in
      let s = frozen_state input.state m.version f.state_stamp in
      let is_memory : f.memory ≡ m = f.is_memory in
      record {
        s = s;
        m = m;
        sr = record { value = E.encode_state s; etag = f.state_tag };
        mr = record { value = E.encode_memory m; etag = f.memory_tag };
        state_stored = rw (← et, ← ea) (rw is_memory at f.state_stored);
        state_decoded = lossless.state s;
        memory_stored = rw (← et, ← ea) (rw is_memory at f.memory_stored);
        memory_decoded = lossless.memory m;
        is_idle = refl;
        agree = refl;
        counted = omega arith;
        is_last = (f.memory_stamp, f.state_stamp, refl, refl);
      }
