-- ===== src/State/Error.antt =====
-- crates/af-swarm-state/src/error.rs: the errors of the state layer, and the result of its
-- operations. A call may also panic (`todo!()`, an assertion of a library), so `StateResult` has a
-- third case beside the two of `Result`.
use swarm_runtime.Prelude.{ℕ, Bytes}

-- The text of `InvalidInput`, by the place that builds it and the values that it quotes.
pub data Message : Type 0 where
  contains_key_sep : Bytes → Bytes → Message
  is_empty : Bytes → Message
  no_state_record : Bytes → Message
  no_key_rotation fhe_encryption_missing fhe_decryption_missing scheme_key_mismatch : Message

pub data StateError : Type 0 where
  etag_conflict : Bytes → StateError
  agent_busy : Bytes → Bytes → ℕ → StateError
  torn_write : Bytes → ℕ → ℕ → StateError
  no_checkpoint_available : Bytes → Bytes → StateError
  checkpoint_corrupted : Bytes → ℕ → StateError
  encryption_key_unavailable : Bytes → Bytes → Bytes → StateError
  lance_db_migration_gap : Bytes → ℕ → StateError
  unsupported_schema_version : Bytes → ℕ → ℕ → StateError
  invalid_input : Message → StateError
  dapr_error : Bytes → StateError
  proto_error : StateError
  aes_gcm_error : StateError
  storage : Bytes → StateError

pub data StateResult {ℓ} (A : Type ℓ) : Type ℓ where
  ok : A → StateResult A
  err : StateError → StateResult A
  panic : StateResult A

infixl 10 ◌>>=◌ ◌>>◌
-- The operator `?`.
abbrev pub ◌>>=◌ {ℓ κ} :
    {A : Type ℓ} {B : Type κ} → StateResult A → (A → StateResult B) → StateResult B
ok a >>= f = f a
err e >>= f = err e
panic >>= f = panic

abbrev pub ◌>>◌ {ℓ} : {B : Type ℓ} → StateResult (Unit {0}) → StateResult B → StateResult B
m >> k = m >>= λ _. k
