-- ===== src/State/Encryption.antt =====
-- crates/af-swarm-state/src/encryption.rs: envelopes for records at rest. The AES-GCM cipher of the
-- crate aes_gcm and the encoding of the AAD by prost are parameters; the random nonce is an argument.
pub mod RoundTrip
pub mod Branches
use swarm_runtime.Prelude.{
  Bytes, [], Option, none, some, codes, length, replicate, ◌==◌, if◌then◌else◌, ◌≡◌, ◌≤◌, ◌^◌,
}
use swarm_runtime.State.Error.{
  StateResult, ok, err, panic, invalid_input, aes_gcm_error, no_key_rotation,
  fhe_encryption_missing, fhe_decryption_missing, scheme_key_mismatch, ◌>>=◌,
}
use swarm_runtime.State.Proto.{
  EncryptionScheme, plaintext, aes_256_gcm, fhe_tfhe_rs, scheme_code, scheme_of, EncryptionEnvelope,
  AadBinding,
}

-- `aes_256_gcm_key` holds 32 bytes.
pub data EncryptionKey : Type 0 where
  aes_256_gcm_key : Bytes → EncryptionKey
  fhe_tfhe_rs_key : Bytes → EncryptionKey

-- `dyn KeyProvider`.
pub record KeyProvider : Type 0 where
  pub get_key : Bytes → StateResult EncryptionKey
  pub current_key_id : Bytes → EncryptionScheme → StateResult Bytes
  pub rotate_key : Bytes → EncryptionScheme → StateResult Bytes

pub record InMemoryKeyProvider : Type 0 where
  pub aes_key : Bytes
  pub key_id : Bytes

unfoldable pub new_test : InMemoryKeyProvider
new_test = record { aes_key = replicate 32 0x42; key_id = codes "test-key-v1" }

unfoldable pub in_memory_provider : InMemoryKeyProvider → KeyProvider
in_memory_provider self = record {
  get_key = λ _. ok (aes_256_gcm_key self.aes_key);
  current_key_id = λ _ _. ok self.key_id;
  rotate_key = λ _ _. err (invalid_input no_key_rotation);
}

-- `Aes256Gcm`: `new_from_slice` wants 32 bytes; `seal` and `unseal` are `encrypt` and `decrypt`, on a
-- nonce, a message and the AAD.
pub record Aead : Type 1 where
  pub Cipher : Type 0
  pub new_from_slice : Bytes → Option Cipher
  pub seal : Cipher → Bytes → Bytes → Bytes → Option Bytes
  pub unseal : Cipher → Bytes → Bytes → Bytes → Option Bytes
  pub encode_aad : AadBinding → Bytes

-- `.map_err(|_| StateError::AesGcmError)`
abbrev pub or_aes_gcm_error : {A : Type 0} → Option A → StateResult A
or_aes_gcm_error none = err aes_gcm_error
or_aes_gcm_error (some a) = ok a

module _ (G : Aead) where
  unfoldable pub encrypt :
      Bytes → Bytes → EncryptionKey → AadBinding → StateResult EncryptionEnvelope
  encrypt nonce_bytes plain (aes_256_gcm_key raw_key) aad_binding = do
    cipher ← or_aes_gcm_error (G.new_from_slice raw_key)
    let aad_bytes = G.encode_aad aad_binding
    sealed ← or_aes_gcm_error (G.seal cipher nonce_bytes plain aad_bytes)
    ok (record {
      scheme = scheme_code aes_256_gcm;
      key_id = [];
      iv_or_nonce = nonce_bytes;
      ciphertext = sealed;
      aad = aad_bytes;
    })
  encrypt nonce_bytes plain (fhe_tfhe_rs_key fhe_key) aad_binding =
      err (invalid_input fhe_encryption_missing)

  -- `Nonce::from_slice` panics on a slice that is not 12 bytes long.
  unfoldable pub decrypt_aes : EncryptionEnvelope → Bytes → StateResult Bytes
  decrypt_aes envelope raw_key =
      if length envelope.iv_or_nonce == 12
      then (do
        cipher ← or_aes_gcm_error (G.new_from_slice raw_key)
        or_aes_gcm_error (G.unseal cipher envelope.iv_or_nonce envelope.ciphertext envelope.aad))
      else panic

  unfoldable pub decrypt_as :
      Option EncryptionScheme → EncryptionEnvelope → EncryptionKey → StateResult Bytes
  decrypt_as (some plaintext) envelope key = ok envelope.ciphertext
  decrypt_as (some aes_256_gcm) envelope (aes_256_gcm_key raw_key) = decrypt_aes envelope raw_key
  decrypt_as (some fhe_tfhe_rs) envelope (fhe_tfhe_rs_key fhe_key) =
      err (invalid_input fhe_decryption_missing)
  decrypt_as _ envelope key = err (invalid_input scheme_key_mismatch)

  unfoldable pub decrypt : EncryptionEnvelope → EncryptionKey → StateResult Bytes
  unfolding decrypt_as decrypt_aes
  decrypt envelope key = decrypt_as (scheme_of envelope.scheme) envelope key

-- What aes_gcm documents: keys of 32 bytes are accepted, messages up to 64 GiB are sealed under a
-- 12-byte nonce, and what is unsealed was sealed with the same key, nonce and AAD, and conversely.
pub record IsAead (G : Aead) : Type 0 where
  pub accepts : (key : Bytes) → length key ≡ 32 → (c : G.Cipher) × (G.new_from_slice key ≡ some c)
  pub seals :
      (c : G.Cipher) (nonce msg aad : Bytes)
      → length nonce ≡ 12
      → length msg ≤ 2 ^ 36
      → length aad ≤ 2 ^ 36
      → (ct : Bytes) × (G.seal c nonce msg aad ≡ some ct)
  pub unseal-seal :
      (c : G.Cipher) (nonce msg aad ct : Bytes)
      → G.seal c nonce msg aad ≡ some ct
      → G.unseal c nonce ct aad ≡ some msg
  pub seal-unseal :
      (c : G.Cipher) (nonce msg aad ct : Bytes)
      → G.unseal c nonce ct aad ≡ some msg
      → G.seal c nonce msg aad ≡ some ct
