-- ===== src/Inference/Tests/Namespace.antt =====
-- Namespaces (crates/af-inference-client/src/namespace.rs) with lower-case hexadecimal digits, and the
-- text itself in place of its hash.
use swarm_runtime.Prelude.{
  ℕ, Bytes, [], ◌∷◌, ◌≡◌, ◌≢◌, ◌+◌, ◌/◌, ◌%◌, refl, arith, codes, ltb, if◌then◌else◌, pos,
}
use swarm_runtime.Inference.Proto.{KvNamespaceKey, public, restricted}
use swarm_runtime.Inference.Namespace.{
  colon, build_namespace_key, namespace_key_to_prefix, HasNoColon, IsHex,
}
use swarm_runtime.Inference.Namespace.Isolation.{tenants_isolated}

abbrev digit : ℕ → ℕ
digit d = if ltb d 10 then 48 + d else 87 + d

abbrev hex : Bytes → Bytes
hex [] = []
hex (c ∷ s) = digit (c / 16) ∷ digit (c % 16) ∷ hex s

abbrev same : Bytes → Bytes
same s = s

digit-ne-colon : (d : ℕ) → digit d ≢ colon
digit-ne-colon d h = ground arith

digit_injective : (c d : ℕ) → digit c ≡ digit d → c ≡ d
digit_injective c d h = ground arith

hex-HasNoColon : (s : Bytes) → HasNoColon (hex s)
hex-HasNoColon [] = tt
hex-HasNoColon (c ∷ s) = (digit-ne-colon (c / 16), (digit-ne-colon (c % 16), hex-HasNoColon s))

hex_head : (c d e f : ℕ) (s t : Bytes) → c ∷ d ∷ s ≡ e ∷ f ∷ t → (c ≡ e) × (d ≡ f) × (s ≡ t)
hex_head c d e f s t h = (cc, cc, cc)

byte_injective : (c d : ℕ) → c / 16 ≡ d / 16 → c % 16 ≡ d % 16 → c ≡ d
byte_injective c d h l = omega arith

hex_injective : (s t : Bytes) → hex s ≡ hex t → s ≡ t
hex_injective [] [] h = refl
hex_injective [] (d ∷ t) h = cc
hex_injective (c ∷ s) [] h = cc
hex_injective (c ∷ s) (d ∷ t) h =
    let (high, low, rest) = hex_head _ _ _ _ _ _ h in
    let e = byte_injective c d (digit_injective _ _ high) (digit_injective _ _ low) in
    let r = hex_injective s t rest in cc

hex-IsHex : IsHex hex
hex-IsHex = record { digits = hex-HasNoColon; injective = hex_injective }

restricted_prefix :
    namespace_key_to_prefix same hex
      (build_namespace_key same hex (codes "acme") restricted (codes "orchestrator") (codes "hi"))
    ≡ codes "acme:RESTRICTED:orchestrator:6869"
unfolding namespace_key_to_prefix build_namespace_key
restricted_prefix = refl

abbrev acme_key : KvNamespaceKey
acme_key = record {
  tenant_id = codes "acme";
  sensitivity = pos 9;
  agent_type = codes "x";
  prefix_hash = 1 ∷ [];
}

abbrev unknown_key : KvNamespaceKey
unknown_key = record acme_key { sensitivity = pos 0 }

-- A level that the enumeration lacks is read as UNSPECIFIED.
same_prefix :
    namespace_key_to_prefix same hex acme_key ≡ namespace_key_to_prefix same hex unknown_key
unfolding namespace_key_to_prefix
same_prefix = refl

acme_has_no_colon : HasNoColon (codes "acme")
acme_has_no_colon = search arith

tenants_isolated_example :
    (codes "acme" ≡ codes "acme")
    × (public ≡ public)
    × (codes "a:b" ≡ codes "a:b")
    × (codes "p" ≡ codes "p")
tenants_isolated_example =
    tenants_isolated same hex hex-IsHex (codes "acme") (codes "acme") public public (codes "a:b")
      (codes "a:b") (codes "p") (codes "p") acme_has_no_colon acme_has_no_colon refl
