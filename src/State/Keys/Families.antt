-- ===== src/State/Keys/Families.antt =====
-- The five key families of crates/af-swarm-state/src/lib.rs together: which keys can collide, and
-- which identifiers rule that out.
use mathlib.Core.List.{append_cancel_left, append_cancel_right}
use swarm_runtime.Prelude.{
  ℕ, ◌<◌, Bytes, [], ◌∷◌, ◌++◌, Bool, true, false, ◌≡◌, ◌≢◌, refl, ap, sym, inl, inr, ◌↔◌, contains,
  arith, codes, u64_mod, ◌==◌, ◌∙◌,
}
use swarm_runtime.State.Keys.{
  key_sep, zero_padded, agent_state_key, working_memory_key, checkpoint_key, conversation_turn_key,
  tool_log_key,
}
use swarm_runtime.State.Keys.Segments.{bar, SameOrShifted, split_unique}
use swarm_runtime.State.Keys.Order.{zero_padded_injective}
use swarm_runtime.State.Validate.{IsValidId}

append_bar : (s u : Bytes) → (s ++ bar) ++ u ≡ s ++ (bar ++ u)
append_bar [] u = refl
append_bar (c ∷ s) u = ap (λ t. c ∷ t) (append_bar s u)

abbrev state_rest : Bytes
state_rest = key_sep ++ codes "state"

SameOrShifted-rest :
    (t a t' a' : Bytes)
    → SameOrShifted t (a ++ state_rest) t' (a' ++ state_rest)
    → SameOrShifted t a t' a'
SameOrShifted-rest t a t' a' (inl (p, q)) = inl (p, append_cancel_right a a' state_rest q)
SameOrShifted-rest t a t' a' (inr (inl (p, q))) =
    inr (inl (p, append_cancel_right a (bar ++ a') state_rest q))
SameOrShifted-rest t a t' a' (inr (inr (p, q))) =
    inr (inr (p, append_cancel_right a' (bar ++ a) state_rest q))

shifted_state_key : (t a : Bytes) → agent_state_key (t ++ bar) a ≡ agent_state_key t (bar ++ a)
unfolding agent_state_key
shifted_state_key t a = append_bar t (key_sep ++ (a ++ state_rest))

SameOrShifted-state_key :
    (t a t' a' : Bytes) → SameOrShifted t a t' a' → agent_state_key t a ≡ agent_state_key t' a'
SameOrShifted-state_key t a t' a' (inl (p, q)) = cc
SameOrShifted-state_key t a t' a' (inr (inl (p, q))) = rw (p, q) (sym (shifted_state_key t a'))
SameOrShifted-state_key t a t' a' (inr (inr (p, q))) = rw (p, q) (shifted_state_key t' a)

-- Two pairs of identifiers that `validate_id` accepts have the same state key exactly when they are
-- the same pair, or differ by one bar that ends one tenant and begins the other's agent.
pub agent_state_key_collision :
    (t a t' a' : Bytes)
    → IsValidId t
    → IsValidId t'
    → (agent_state_key t a ≡ agent_state_key t' a') ↔ SameOrShifted t a t' a'
unfolding agent_state_key
agent_state_key_collision t a t' a' ht ht' = (
  λ e.
      SameOrShifted-rest t a t' a'
        (split_unique t (a ++ state_rest) t' (a' ++ state_rest) ht.0 ht'.0 e),
  SameOrShifted-state_key t a t' a',
)

-- A key of any family, by what it is built from.
pub data RecordKey : Type 0 where
  state : Bytes → Bytes → RecordKey
  memory : Bytes → Bytes → RecordKey
  checkpoint : Bytes → Bytes → ℕ → RecordKey
  conversation : Bytes → Bytes → Bytes → RecordKey
  tool_log : Bytes → Bytes → Bytes → RecordKey

abbrev pub tenant : RecordKey → Bytes
tenant (state t a) = t
tenant (memory t a) = t
tenant (checkpoint t a seq) = t
tenant (conversation t a turn) = t
tenant (tool_log t a log) = t

abbrev pub agent : RecordKey → Bytes
agent (state t a) = a
agent (memory t a) = a
agent (checkpoint t a seq) = a
agent (conversation t a turn) = a
agent (tool_log t a log) = a

abbrev pub seq_of : RecordKey → ℕ
seq_of (checkpoint t a seq) = seq
seq_of _ = 0

abbrev pub built : RecordKey → Bytes
built (state t a) = agent_state_key t a
built (memory t a) = working_memory_key t a
built (checkpoint t a seq) = checkpoint_key t a seq
built (conversation t a turn) = conversation_turn_key t a turn
built (tool_log t a log) = tool_log_key t a log

abbrev pub ends_with_bar : Bytes → Bool
ends_with_bar [] = false
ends_with_bar (c ∷ []) = c == b'|'
ends_with_bar (c ∷ d ∷ s) = ends_with_bar (d ∷ s)

-- An identifier with no separator in it and no bar at its end.
abbrev pub IsCleanId : Bytes → Type 0
IsCleanId s = (contains key_sep s ≡ false) × (ends_with_bar s ≡ false)

abbrev pub IsCleanKey : RecordKey → Type 0
IsCleanKey k = IsCleanId (tenant k) × IsCleanId (agent k) × (seq_of k < u64_mod)

-- What follows the agent in a key.
unfoldable pub rest_of : RecordKey → Bytes
rest_of (state t a) = codes "state"
rest_of (memory t a) = codes "working_memory"
rest_of (checkpoint t a seq) = codes "checkpoint" ++ (key_sep ++ zero_padded 20 seq)
rest_of (conversation t a turn) = codes "conv" ++ (key_sep ++ turn)
rest_of (tool_log t a log) = codes "tool_log" ++ (key_sep ++ log)

pub built_parts :
    (k : RecordKey) → built k ≡ tenant k ++ (key_sep ++ (agent k ++ (key_sep ++ rest_of k)))
unfolding rest_of agent_state_key working_memory_key checkpoint_key conversation_turn_key
    tool_log_key
built_parts (state t a) = refl
built_parts _ = refl

ends_with_bar-append : (s : Bytes) → ends_with_bar (s ++ bar) ≡ true
ends_with_bar-append [] = refl
ends_with_bar-append (c ∷ []) = refl
ends_with_bar-append (c ∷ d ∷ s) = ends_with_bar-append (d ∷ s)

pub clean_split :
    (x u y v : Bytes)
    → IsCleanId x
    → IsCleanId y
    → x ++ (key_sep ++ u) ≡ y ++ (key_sep ++ v)
    → (x ≡ y) × (u ≡ v)
clean_split x u y v hx hy e = elim (split_unique x u y v hx.0 hy.0 e) [
  | inl same ↦ same
  | inr (inl (p, q)) ↦ cc (ends_with_bar-append x)
  | inr (inr (p, q)) ↦ cc (ends_with_bar-append y)
]

-- With the tenant and the agent known, what follows them tells the family and its last part.
rest_of_injective :
    (k j : RecordKey)
    → tenant k ≡ tenant j
    → agent k ≡ agent j
    → seq_of k < u64_mod
    → seq_of j < u64_mod
    → rest_of k ≡ rest_of j
    → k ≡ j
unfolding rest_of
rest_of_injective (checkpoint t a m) (checkpoint t' a' n) p q hm hn e =
    cc (zero_padded_injective m n hm hn (append_cancel_left (codes "checkpoint||") _ _ e))
rest_of_injective (state t a) (state t' a') p q hm hn e = cc
rest_of_injective (memory t a) (memory t' a') p q hm hn e = cc
rest_of_injective _ _ p q hm hn e = ground arith

-- A key tells the tenant and the agent whose record it is.
pub built_owner :
    (k j : RecordKey)
    → IsCleanId (tenant k)
    → IsCleanId (agent k)
    → IsCleanId (tenant j)
    → IsCleanId (agent j)
    → built k ≡ built j
    → (tenant k ≡ tenant j) × (agent k ≡ agent j) × (rest_of k ≡ rest_of j)
built_owner k j tk ak tj aj e =
    let whole = sym (built_parts k) ∙ e ∙ built_parts j in
    let (same_tenant, left) = clean_split (tenant k) _ (tenant j) _ tk tj whole in
    let (same_agent, rest) = clean_split (agent k) _ (agent j) _ ak aj left in
    (same_tenant, same_agent, rest)

-- No two records share a key, within a family or across families, while tenants and agents have no
-- separator in them and no bar at their end, and sequence numbers fit `u64`.
pub built_injective : (k j : RecordKey) → IsCleanKey k → IsCleanKey j → built k ≡ built j → k ≡ j
built_injective k j (tk, ak, sk) (tj, aj, sj) e =
    let (same_tenant, same_agent, rest) = built_owner k j tk ak tj aj e in
    rest_of_injective k j same_tenant same_agent sk sj rest

-- The three records of one agent that a freeze writes have three keys, whatever the identifiers.
after_agent :
    (t a s u : Bytes)
    → t ++ (key_sep ++ (a ++ (key_sep ++ s))) ≡ t ++ (key_sep ++ (a ++ (key_sep ++ u)))
    → s ≡ u
after_agent t a s u e =
    append_cancel_left key_sep s u
      (append_cancel_left a _ _ (append_cancel_left key_sep _ _ (append_cancel_left t _ _ e)))

pub state-ne-memory : (t a : Bytes) → agent_state_key t a ≢ working_memory_key t a
unfolding agent_state_key working_memory_key
state-ne-memory t a e = ground (arith, after_agent t a _ _ e)

pub state-ne-checkpoint : (t a : Bytes) (n : ℕ) → agent_state_key t a ≢ checkpoint_key t a n
unfolding agent_state_key checkpoint_key
state-ne-checkpoint t a n e = ground (arith, after_agent t a _ _ e)

pub memory-ne-checkpoint : (t a : Bytes) (n : ℕ) → working_memory_key t a ≢ checkpoint_key t a n
unfolding working_memory_key checkpoint_key
memory-ne-checkpoint t a n e = ground (arith, after_agent t a _ _ e)
