-- ===== src/State/Keys/Scans.antt =====
-- Scans of the store by a prefix of the keys of crates/af-swarm-state/src/lib.rs: those that
-- `list_keys_with_prefix` (crates/af-swarm-state/src/store.rs) is for.
use mathlib.Core.List.{append_assoc, head-eq_of_cons-eq, tail-eq_of_cons-eq}
use swarm_runtime.Prelude.{
  ℕ, Bytes, ◌++◌, true, ◌≡◌, refl, ap, sym, ◌∙◌, ◌↔◌, arith, codes, starts_with, starts_with-append,
  after_prefix,
}
use swarm_runtime.State.Keys.{key_sep, zero_padded, checkpoint_key}
use swarm_runtime.State.Keys.Families.{
  RecordKey, checkpoint, state, memory, conversation, tool_log, tenant, agent, built, IsCleanId,
  rest_of, built_parts, clean_split,
}

-- The prefixes of the keys of a tenant, and of the checkpoints of an agent.
abbrev pub tenant_prefix : Bytes → Bytes
tenant_prefix t = t ++ key_sep

abbrev pub checkpoint_prefix : Bytes → Bytes → Bytes
checkpoint_prefix t a = t ++ (key_sep ++ (a ++ (key_sep ++ (codes "checkpoint" ++ key_sep))))

tenant_scan :
    (t : Bytes) (k : RecordKey)
    → IsCleanId t
    → IsCleanId (tenant k)
    → starts_with (tenant_prefix t) (built k) ≡ true
    → tenant k ≡ t
tenant_scan t k ct ck h =
    let (u, e) = after_prefix (tenant_prefix t) (built k) h in
    let whole = sym (built_parts k) ∙ e ∙ append_assoc t key_sep u in
    (clean_split (tenant k) _ t u ck ct whole).0

is_checkpoint :
    (k : RecordKey) (u : Bytes)
    → rest_of k ≡ codes "checkpoint" ++ (key_sep ++ u)
    → (n : ℕ) × (k ≡ checkpoint (tenant k) (agent k) n)
unfolding rest_of
is_checkpoint (checkpoint t a n) u e = (n, refl)
is_checkpoint (state t a) u e = let f = head-eq_of_cons-eq e in absurd (omega arith)
is_checkpoint (memory t a) u e = let f = head-eq_of_cons-eq e in absurd (omega arith)
is_checkpoint (conversation t a turn) u e =
    let f = head-eq_of_cons-eq (tail-eq_of_cons-eq e) in absurd (omega arith)
is_checkpoint (tool_log t a log) u e = let f = head-eq_of_cons-eq e in absurd (omega arith)

regroup :
    (t a u : Bytes)
    → checkpoint_prefix t a ++ u
      ≡ t ++ (key_sep ++ (a ++ (key_sep ++ (codes "checkpoint" ++ (key_sep ++ u)))))
regroup t a u =
    let last = key_sep ++ (codes "checkpoint" ++ key_sep) in
    append_assoc t (key_sep ++ (a ++ last)) u
    ∙ ap (λ x. t ++ (key_sep ++ x)) (append_assoc a last u)

checkpoint_scan :
    (t a : Bytes) (k : RecordKey)
    → IsCleanId t
    → IsCleanId a
    → IsCleanId (tenant k)
    → IsCleanId (agent k)
    → starts_with (checkpoint_prefix t a) (built k) ≡ true
    → (n : ℕ) × (k ≡ checkpoint t a n)
checkpoint_scan t a k ct ca kt ka h =
    let (u, e) = after_prefix (checkpoint_prefix t a) (built k) h in
    let whole = sym (built_parts k) ∙ e ∙ regroup t a u in
    let (same_tenant, left) = clean_split (tenant k) _ t _ kt ct whole in
    let (same_agent, rest) = clean_split (agent k) _ a _ ka ca left in
    let (n, is_k) = is_checkpoint k u rest in
    (
      n,
      is_k ∙ ap (λ x. checkpoint x (agent k) n) same_tenant ∙ ap (λ x. checkpoint t x n) same_agent,
    )

built-tenant : (k : RecordKey) → starts_with (tenant_prefix (tenant k)) (built k) ≡ true
built-tenant k =
    let u = agent k ++ (key_sep ++ rest_of k) in
    rw (built_parts k, ← (append_assoc (tenant k) key_sep u))
      (starts_with-append (tenant_prefix (tenant k)) u)

built-checkpoint :
    (t a : Bytes) (n : ℕ) → starts_with (checkpoint_prefix t a) (checkpoint_key t a n) ≡ true
unfolding checkpoint_key
built-checkpoint t a n =
    rw (← (regroup t a (zero_padded 20 n)))
      (starts_with-append (checkpoint_prefix t a) (zero_padded 20 n))

-- For identifiers with no separator in them and no bar at their end, a scan of the keys by a tenant and
-- the separator finds exactly the tenant's records, of any family; and a scan by a tenant, an agent
-- and the word for checkpoints exactly that agent's checkpoints.
pub scans_exact :
    (t a : Bytes) (k : RecordKey)
    → IsCleanId t
    → IsCleanId a
    → IsCleanId (tenant k)
    → IsCleanId (agent k)
    → ((starts_with (tenant_prefix t) (built k) ≡ true) ↔ (tenant k ≡ t))
      × ((starts_with (checkpoint_prefix t a) (built k) ≡ true)
          ↔ ((n : ℕ) × (k ≡ checkpoint t a n)))
scans_exact t a k ct ca kt ka = (
  (tenant_scan t k ct kt, λ same. rw (← same) (built-tenant k)),
  (checkpoint_scan t a k ct ca kt ka, λ found. rw found.1 (built-checkpoint t a found.0)),
)
