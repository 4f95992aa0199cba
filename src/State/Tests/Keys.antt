-- ===== src/State/Tests/Keys.antt =====
-- The keys of crates/af-swarm-state/src/lib.rs at concrete identifiers.
use swarm_runtime.Prelude.{
  codes, ℕ, starts_with, true, ◌≡◌, ◌↔◌, refl, lt_bytes, HasPart, ◌≢◌, arith, [],
}
use swarm_runtime.State.Error.{ok, err, invalid_input, contains_key_sep, is_empty}
use swarm_runtime.State.Keys.{key_sep, agent_state_key, checkpoint_key, zero_padded}
use swarm_runtime.State.Keys.Order.{checkpoint_key_order}
use swarm_runtime.State.Keys.Segments.{SameOrShifted}
use swarm_runtime.State.Keys.Scans.{tenant_prefix, checkpoint_prefix, scans_exact}
use swarm_runtime.State.Keys.Families.{
  checkpoint, built, agent_state_key_collision, built_injective,
}
use swarm_runtime.State.Validate.{validate_id, validate_id_iff}

-- The tests of lib.rs.
state_key_test : agent_state_key (codes "t1") (codes "a1") ≡ codes "t1||a1||state"
unfolding agent_state_key
state_key_test = refl

checkpoint_key_test :
    checkpoint_key (codes "t1") (codes "a1") 100 ≡ codes "t1||a1||checkpoint||00000000000000000100"
unfolding checkpoint_key zero_padded
checkpoint_key_test = refl

widest_seq_test : zero_padded 20 18446744073709551615 ≡ codes "18446744073709551615"
unfolding zero_padded
widest_seq_test = refl

-- `validate_id` accepts both pairs, and they share a key.
shared_key_test :
    (validate_id (codes "a|") (codes "tenant_id") ≡ ok tt)
    × (validate_id (codes "a") (codes "tenant_id") ≡ ok tt)
    × (validate_id (codes "|b") (codes "agent_id") ≡ ok tt)
    × (agent_state_key (codes "a|") (codes "b") ≡ agent_state_key (codes "a") (codes "|b"))
unfolding validate_id agent_state_key
shared_key_test = (refl, refl, refl, refl)

checkpoint_key_order_example :
    lt_bytes
      (checkpoint_key (codes "t1") (codes "a1") 2)
      (checkpoint_key (codes "t1") (codes "a1") 100)
    ≡ true
checkpoint_key_order_example =
    checkpoint_key_order (codes "t1") (codes "a1") 2 100 (omega arith) (omega arith)

agent_state_key_collision_example :
    (agent_state_key (codes "a|") (codes "b") ≡ agent_state_key (codes "a") (codes "|b"))
    ↔ SameOrShifted (codes "a|") (codes "b") (codes "a") (codes "|b")
agent_state_key_collision_example =
    agent_state_key_collision (codes "a|") (codes "b") (codes "a") (codes "|b") (refl, cc)
      (refl, cc)

validate_id_iff_example :
    ((validate_id (codes "a||b") (codes "tenant_id") ≡ ok tt)
      ↔ ((codes "a||b" ≢ []) × ¬ HasPart key_sep (codes "a||b")))
    × ((validate_id (codes "a||b") (codes "tenant_id")
          ≡ err (invalid_input (contains_key_sep (codes "tenant_id") (codes "a||b"))))
        ↔ HasPart key_sep (codes "a||b"))
    × ((validate_id (codes "a||b") (codes "tenant_id")
          ≡ err (invalid_input (is_empty (codes "tenant_id"))))
        ↔ (codes "a||b" ≡ []))
validate_id_iff_example = validate_id_iff (codes "a||b") (codes "tenant_id")

built_injective_example :
    checkpoint (codes "t") (codes "a") 7 ≡ checkpoint (codes "t") (codes "a") 7
built_injective_example =
    built_injective (checkpoint (codes "t") (codes "a") 7) (checkpoint (codes "t") (codes "a") 7)
      ((refl, refl), (refl, refl), omega arith) ((refl, refl), (refl, refl), omega arith) refl

scans_exact_example :
    ((starts_with (tenant_prefix (codes "t1")) (built (checkpoint (codes "t1") (codes "a1") 7))
        ≡ true)
      ↔ (codes "t1" ≡ codes "t1"))
    × ((starts_with
            (checkpoint_prefix (codes "t1") (codes "a1"))
            (built (checkpoint (codes "t1") (codes "a1") 7))
          ≡ true)
        ↔ ((n : ℕ) × (checkpoint (codes "t1") (codes "a1") 7
              ≡ checkpoint (codes "t1") (codes "a1") n)))
scans_exact_example =
    scans_exact (codes "t1") (codes "a1") (checkpoint (codes "t1") (codes "a1") 7) (refl, refl)
      (refl, refl) (refl, refl) (refl, refl)
