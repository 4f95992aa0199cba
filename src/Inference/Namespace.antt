-- ===== src/Inference/Namespace.antt =====
-- crates/af-inference-client/src/namespace.rs: the namespace of a cached prefix. SHA-256 and the
-- hexadecimal encoding are those of the crates sha2 and hex, and are parameters.
pub mod Isolation
use swarm_runtime.Prelude.{ℕ, Bytes, [], ◌∷◌, ◌++◌, Option, none, some, codes, ◌≡◌, All, ◌≢◌}
use swarm_runtime.Inference.Proto.{
  SensitivityLevel, unspecified, public, internal, sensitive, restricted, sensitivity_code,
  sensitivity_of, KvNamespaceKey,
}

unfoldable pub sensitivity_label : SensitivityLevel → Bytes
sensitivity_label public = codes "PUBLIC"
sensitivity_label internal = codes "INTERNAL"
sensitivity_label sensitive = codes "SENSITIVE"
sensitivity_label restricted = codes "RESTRICTED"
sensitivity_label unspecified = codes "UNSPECIFIED"

abbrev pub unwrap_or_unspecified : Option SensitivityLevel → SensitivityLevel
unwrap_or_unspecified none = unspecified
unwrap_or_unspecified (some s) = s

-- `SensitivityLevel::try_from(key.sensitivity).unwrap_or(SensitivityLevel::Unspecified)`
abbrev pub level_of : KvNamespaceKey → SensitivityLevel
level_of key = unwrap_or_unspecified (sensitivity_of key.sensitivity)

abbrev pub colon : ℕ
colon = 58

-- `sha256` is `finalize().to_vec()` after one `update`; `hex_encode` is `hex::encode`.
module _ (sha256 hex_encode : Bytes → Bytes) where
  unfoldable pub build_namespace_key : Bytes → SensitivityLevel → Bytes → Bytes → KvNamespaceKey
  unfolding sensitivity_code
  build_namespace_key tenant_id sensitivity agent_type system_prompt_prefix = record {
    tenant_id = tenant_id;
    sensitivity = sensitivity_code sensitivity;
    agent_type = agent_type;
    prefix_hash = sha256 system_prompt_prefix;
  }

  unfoldable pub namespace_key_to_prefix : KvNamespaceKey → Bytes
  unfolding sensitivity_of sensitivity_label
  namespace_key_to_prefix key =
      key.tenant_id
      ++ (colon ∷ sensitivity_label (level_of key)
          ++ (colon ∷ key.agent_type ++ (colon ∷ hex_encode key.prefix_hash)))

-- No byte of the text is a colon.
abbrev pub HasNoColon : Bytes → Type 0
HasNoColon = All (λ c. c ≢ colon)

-- What hex documents: hexadecimal digits only, and one encoding for each byte string.
pub record IsHex (hex_encode : Bytes → Bytes) : Type 0 where
  pub digits : (s : Bytes) → HasNoColon (hex_encode s)
  pub injective : (s t : Bytes) → hex_encode s ≡ hex_encode t → s ≡ t
