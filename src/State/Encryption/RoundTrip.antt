-- ===== src/State/Encryption/RoundTrip.antt =====
-- Decryption of what was encrypted (crates/af-swarm-state/src/encryption.rs).
use swarm_runtime.Prelude.{Bytes, [], ◌≡◌, ◌≤◌, ◌^◌, length, refl}
use swarm_runtime.State.Error.{ok}
use swarm_runtime.State.Proto.{
  EncryptionScheme, EncryptionEnvelope, AadBinding, scheme_code, aes_256_gcm,
}
use swarm_runtime.State.Encryption.{
  EncryptionKey, aes_256_gcm_key, InMemoryKeyProvider, in_memory_provider, Aead, IsAead, encrypt,
  decrypt,
}

module _ (G : Aead) (laws : IsAead G) where
  -- A record encrypted with a 32-byte AES key decrypts with that key to what it was, whatever key ID
  -- the caller writes into the envelope.
  pub decrypt-encrypt :
      (nonce plain raw_key : Bytes) (binding : AadBinding)
      → length raw_key ≡ 32
      → length nonce ≡ 12
      → length plain ≤ 2 ^ 36
      → length (G.encode_aad binding) ≤ 2 ^ 36
      → (envelope : EncryptionEnvelope) × (encrypt G nonce plain (aes_256_gcm_key raw_key) binding
          ≡ ok envelope)
        × ((id : Bytes)
            → decrypt G (record envelope { key_id = id }) (aes_256_gcm_key raw_key) ≡ ok plain)
  unfolding encrypt decrypt
  decrypt-encrypt nonce plain raw_key binding is_key is_nonce small small_aad =
      let (c, made) = laws.accepts raw_key is_key in
      let (ct, sealed) = laws.seals c nonce plain (G.encode_aad binding) is_nonce small small_aad in
      let unsealed = laws.unseal-seal c nonce plain (G.encode_aad binding) ct sealed in
      (
        record {
          scheme = scheme_code aes_256_gcm;
          key_id = [];
          iv_or_nonce = nonce;
          ciphertext = ct;
          aad = G.encode_aad binding;
        },
        rw (made, sealed),
        λ id. rw (is_nonce, made, unsealed),
      )

  -- The key that the in-memory provider names for a tenant and a scheme is one that it finds again,
  -- and records encrypted with it decrypt.
  pub provider_round_trip :
      (provider : InMemoryKeyProvider) (tenant : Bytes) (scheme : EncryptionScheme)
      (nonce plain : Bytes) (binding : AadBinding)
      → length provider.aes_key ≡ 32
      → length nonce ≡ 12
      → length plain ≤ 2 ^ 36
      → length (G.encode_aad binding) ≤ 2 ^ 36
      → (id : Bytes) × (key : EncryptionKey) × (envelope : EncryptionEnvelope)
        × ((in_memory_provider provider).current_key_id tenant scheme ≡ ok id)
        × ((in_memory_provider provider).get_key id ≡ ok key)
        × (encrypt G nonce plain key binding ≡ ok envelope)
        × (decrypt G (record envelope { key_id = id }) key ≡ ok plain)
  unfolding in_memory_provider
  provider_round_trip provider tenant scheme nonce plain binding is_key is_nonce small small_aad =
      let (envelope, encrypted, decrypted) =
        decrypt-encrypt nonce plain provider.aes_key binding is_key is_nonce small small_aad in
      (
        provider.key_id,
        aes_256_gcm_key provider.aes_key,
        envelope,
        refl,
        refl,
        encrypted,
        decrypted provider.key_id,
      )
