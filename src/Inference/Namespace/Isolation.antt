-- ===== src/Inference/Namespace/Isolation.antt =====
-- Whether two namespaces of crates/af-inference-client/src/namespace.rs can be the same text.
use mathlib.Core.List.{head-eq_of_cons-eq, tail-eq_of_cons-eq, append_assoc}
use swarm_runtime.Prelude.{
  Bytes, [], ◌∷◌, ◌++◌, codes, ◌≡◌, refl, sym, ◌∙◌, ap, arith, if◌then◌else◌, ◌==◌,
}
use swarm_runtime.Inference.Proto.{
  SensitivityLevel, unspecified, public, internal, sensitive, restricted, sensitivity_code,
  sensitivity_of, KvNamespaceKey,
}
use swarm_runtime.Inference.Namespace.{
  sensitivity_label, level_of, colon, build_namespace_key, namespace_key_to_prefix, HasNoColon,
  IsHex,
}

-- The first colon of a text splits it in one way.
first_colon :
    (x u y v : Bytes)
    → HasNoColon x
    → HasNoColon y
    → x ++ (colon ∷ u) ≡ y ++ (colon ∷ v)
    → (x ≡ y) × (u ≡ v)
first_colon [] u [] v hx hy e = (refl, tail-eq_of_cons-eq e)
first_colon [] u (d ∷ y) v hx (hd, hy) e = absurd (hd (sym (head-eq_of_cons-eq e)))
first_colon (c ∷ x) u [] v (hc, hx) hy e = absurd (hc (head-eq_of_cons-eq e))
first_colon (c ∷ x) u (d ∷ y) v (hc, hx) (hd, hy) e =
    let (p, q) = first_colon x u y v hx hy (tail-eq_of_cons-eq e) in
    let h = head-eq_of_cons-eq e in (cc, q)

no_colon_after : (x u : Bytes) → ¬ HasNoColon (x ++ (colon ∷ u))
no_colon_after [] u h = h.0 refl
no_colon_after (c ∷ x) u h = no_colon_after x u h.1

-- So does the last one.
last_colon :
    (x u y v : Bytes)
    → HasNoColon u
    → HasNoColon v
    → x ++ (colon ∷ u) ≡ y ++ (colon ∷ v)
    → (x ≡ y) × (u ≡ v)
last_colon [] u [] v hu hv e = (refl, tail-eq_of_cons-eq e)
last_colon [] u (d ∷ y) v hu hv e = absurd (no_colon_after y v (rw (tail-eq_of_cons-eq e) at hu))
last_colon (c ∷ x) u [] v hu hv e = absurd (no_colon_after x u (rw (← tail-eq_of_cons-eq e) at hv))
last_colon (c ∷ x) u (d ∷ y) v hu hv e =
    let (p, q) = last_colon x u y v hu hv (tail-eq_of_cons-eq e) in
    let h = head-eq_of_cons-eq e in (cc, q)

label-HasNoColon : (s : SensitivityLevel) → HasNoColon (sensitivity_label s)
unfolding sensitivity_label
label-HasNoColon unspecified = search arith
label-HasNoColon public = search arith
label-HasNoColon internal = search arith
label-HasNoColon sensitive = search arith
label-HasNoColon restricted = search arith

-- The labels begin with different letters.
by_initial : Bytes → SensitivityLevel
by_initial [] = unspecified
by_initial (c ∷ s) =
    if c == 80
    then public
    else if c == 73
    then internal
    else if c == 83
    then sensitive
    else if c == 82
    then restricted
    else unspecified

by_initial-label : (s : SensitivityLevel) → by_initial (sensitivity_label s) ≡ s
unfolding by_initial sensitivity_label
by_initial-label unspecified = refl
by_initial-label public = refl
by_initial-label internal = refl
by_initial-label sensitive = refl
by_initial-label restricted = refl

label_injective : (s t : SensitivityLevel) → sensitivity_label s ≡ sensitivity_label t → s ≡ t
label_injective s t e = sym (by_initial-label s) ∙ ap by_initial e ∙ by_initial-label t

module _ (sha256 hex_encode : Bytes → Bytes) where
  -- Keys whose tenants have no colon in their names have the same prefix only if they agree in
  -- everything: the tenant, the level that the code reads from them, the agent type and the hash.
  pub prefix_injective :
      (hex : IsHex hex_encode) (k l : KvNamespaceKey)
      → HasNoColon k.tenant_id
      → HasNoColon l.tenant_id
      → namespace_key_to_prefix sha256 hex_encode k ≡ namespace_key_to_prefix sha256 hex_encode l
      → (k.tenant_id ≡ l.tenant_id)
        × (level_of k ≡ level_of l)
        × (k.agent_type ≡ l.agent_type)
        × (k.prefix_hash ≡ l.prefix_hash)
  unfolding namespace_key_to_prefix
  prefix_injective hex k l hk hl e =
      let (tenant, rest) = first_colon k.tenant_id _ l.tenant_id _ hk hl e in
      let (label, rest2) =
        first_colon (sensitivity_label (level_of k)) _ (sensitivity_label (level_of l)) _
          (label-HasNoColon (level_of k)) (label-HasNoColon (level_of l)) rest in
      let (agent, hash) =
        last_colon k.agent_type (hex_encode k.prefix_hash) l.agent_type (hex_encode l.prefix_hash)
          (hex.digits k.prefix_hash) (hex.digits l.prefix_hash) rest2 in
      (
        tenant,
        label_injective (level_of k) (level_of l) label,
        agent,
        hex.injective k.prefix_hash l.prefix_hash hash,
      )

  level-build :
      (tenant : Bytes) (s : SensitivityLevel) (agent_type prompt : Bytes)
      → level_of (build_namespace_key sha256 hex_encode tenant s agent_type prompt) ≡ s
  unfolding build_namespace_key sensitivity_of sensitivity_code
  level-build tenant unspecified agent_type prompt = refl
  level-build tenant public agent_type prompt = refl
  level-build tenant internal agent_type prompt = refl
  level-build tenant sensitive agent_type prompt = refl
  level-build tenant restricted agent_type prompt = refl

  -- Two tenants without a colon in their names never share a namespace, nor do two sensitivities of
  -- one tenant, whatever their agents and prompts and even if the hashes of the prompts collide.
  pub tenants_isolated :
      (hex : IsHex hex_encode) (t u : Bytes) (s r : SensitivityLevel) (a b p q : Bytes)
      → HasNoColon t
      → HasNoColon u
      → namespace_key_to_prefix sha256 hex_encode (build_namespace_key sha256 hex_encode t s a p)
        ≡ namespace_key_to_prefix sha256 hex_encode (build_namespace_key sha256 hex_encode u r b q)
      → (t ≡ u) × (s ≡ r) × (a ≡ b) × (sha256 p ≡ sha256 q)
  unfolding build_namespace_key
  tenants_isolated hex t u s r a b p q ht hu e =
      let (tenant, level, agent, hash) =
        prefix_injective hex (build_namespace_key sha256 hex_encode t s a p)
          (build_namespace_key sha256 hex_encode u r b q) ht hu e in
      (tenant, sym (level-build t s a p) ∙ level ∙ level-build u r b q, agent, hash)

  -- A tenant whose name is another tenant's with `:PUBLIC` behind it shares a namespace with that
  -- tenant, when the other's agent type begins with the label that it gets and a colon.
  pub colon_breaks_isolation :
      (t : Bytes) (s : SensitivityLevel) (a p : Bytes)
      → namespace_key_to_prefix sha256 hex_encode
          (build_namespace_key sha256 hex_encode (t ++ codes ":PUBLIC") s a p)
        ≡ namespace_key_to_prefix sha256 hex_encode
            (build_namespace_key sha256 hex_encode t public (sensitivity_label s ++ (colon ∷ a)) p)
  unfolding namespace_key_to_prefix build_namespace_key
  colon_breaks_isolation t s a p =
      let rest = colon ∷ hex_encode (sha256 p) in
      rw (level-build (t ++ codes ":PUBLIC") s a p) (
        append_assoc t (codes ":PUBLIC") (colon ∷ sensitivity_label s ++ (colon ∷ a ++ rest))
        ∙ ap (λ x. t ++ (codes ":PUBLIC:" ++ x))
            (sym (append_assoc (sensitivity_label s) (colon ∷ a) rest)))
