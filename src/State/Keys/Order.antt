-- ===== src/State/Keys/Order.antt =====
-- crates/af-swarm-state/src/lib.rs, `checkpoint_key`: the order of checkpoint keys.
use swarm_runtime.Prelude.{ℕ, ◌<◌, ◌≡◌, Bytes, arith, ltb, lt_bytes, lt_bytes-append, u64_mod, []}
use swarm_runtime.State.Keys.{zero_padded, checkpoint_key}
use swarm_runtime.State.Keys.Decimal.{zero_padded-eq-digits, lt_bytes-digits}

lt_bytes-zero_padded :
    (m n : ℕ) → m < u64_mod → n < u64_mod → lt_bytes (zero_padded 20 m) (zero_padded 20 n) ≡ ltb m n
lt_bytes-zero_padded m n hm hn =
    rw
      (
        zero_padded-eq-digits 19 m (omega arith),
        zero_padded-eq-digits 19 n (omega arith),
        lt_bytes-digits 20 m n [] [] (omega arith) (omega arith),
      )
      (ground arith)

-- The checkpoint keys of one agent sort bytewise as their sequence numbers do, over all of `u64`.
pub checkpoint_key_order :
    (tenant_id agent_id : Bytes) (m n : ℕ)
    → m < u64_mod
    → n < u64_mod
    → lt_bytes (checkpoint_key tenant_id agent_id m) (checkpoint_key tenant_id agent_id n) ≡ ltb m n
unfolding checkpoint_key
checkpoint_key_order t a m n hm hn = simp lt_bytes-append (lt_bytes-zero_padded m n hm hn)

pub zero_padded_injective :
    (m n : ℕ) → m < u64_mod → n < u64_mod → zero_padded 20 m ≡ zero_padded 20 n → m ≡ n
zero_padded_injective m n hm hn e = ground (
  arith,
  lt_bytes-zero_padded m n hm hn,
  lt_bytes-zero_padded n m hn hm,
  lt_bytes-zero_padded m m hm hm,
)
