-- ===== src/State/Tests/Encryption.antt =====
-- The theorems on crates/af-swarm-state/src/encryption.rs at a toy cipher that writes the key, the
-- nonce and the AAD in front of the message: it hides nothing but meets every law of `IsAead`.
use swarm_runtime.Prelude.{
  Bytes, [], ◌∷◌, ◌++◌, Option, none, some, ◌≡◌, ◌≢◌, ◌⊎◌, ◌↔◌, refl, ap, arith, length, ◌==◌,
  replicate, codes, if◌then◌else◌,
}
use swarm_runtime.State.Error.{ok, err, panic, aes_gcm_error}
use swarm_runtime.State.Proto.{
  EncryptionEnvelope, AadBinding, plaintext, aes_256_gcm, scheme_code, scheme_of,
}
use swarm_runtime.State.Encryption.{aes_256_gcm_key, Aead, IsAead, encrypt, decrypt}
use swarm_runtime.State.Encryption.RoundTrip.{decrypt-encrypt}
use swarm_runtime.State.Encryption.Branches.{IsSealed, decrypt_authentic, decrypt_exact}

abbrev strip : Bytes → Bytes → Option Bytes
strip [] s = some s
strip (p ∷ ps) [] = none
strip (p ∷ ps) (c ∷ s) = if p == c then strip ps s else none

strip-append : (p s : Bytes) → strip p (p ++ s) ≡ some s
strip-append [] s = refl
strip-append (c ∷ p) s = ground (arith, strip-append p s)

strip_sound : (p s m : Bytes) → strip p s ≡ some m → p ++ m ≡ s
strip_sound [] s m h = cc
strip_sound (c ∷ p) [] m h = cc
strip_sound (c ∷ p) (d ∷ s) m h = ground (arith, strip_sound p s m)

abbrev toy : Aead
toy = record {
  Cipher = Bytes;
  new_from_slice = λ key. if length key == 32 then some key else none;
  seal = λ c nonce msg aad. some ((c ++ nonce ++ aad) ++ msg);
  unseal = λ c nonce ct aad. strip (c ++ nonce ++ aad) ct;
  encode_aad = λ binding. binding.tenant_id ++ binding.agent_id ++ binding.record_type;
}

some_eq : (a b : Bytes) → some a ≡ some b → a ≡ b
some_eq a b h = cc

toy-IsAead : IsAead toy
toy-IsAead = record {
  accepts = λ key h. (key, rw h refl);
  seals = λ c nonce msg aad _ _ _. ((c ++ nonce ++ aad) ++ msg, refl);
  unseal-seal = λ c nonce msg aad ct h. rw (← some_eq _ _ h) (strip-append (c ++ nonce ++ aad) msg);
  seal-unseal = λ c nonce msg aad ct h. ap some (strip_sound (c ++ nonce ++ aad) ct msg h);
}

abbrev nonce : Bytes
nonce = replicate 12 7

abbrev note : Bytes
note = codes "goal"

abbrev binding : AadBinding
binding = record {
  tenant_id = codes "acme";
  agent_id = codes "senku";
  schema_version = 1;
  record_type = codes "state";
}

abbrev test_key : Bytes
test_key = replicate 32 0x42

abbrev envelope : EncryptionEnvelope
envelope = record {
  scheme = scheme_code aes_256_gcm;
  key_id = [];
  iv_or_nonce = nonce;
  ciphertext = (test_key ++ nonce ++ codes "acmesenkustate") ++ note;
  aad = codes "acmesenkustate";
}

abbrev other_nonce : EncryptionEnvelope
other_nonce = record envelope { iv_or_nonce = replicate 12 8 }

encrypted : encrypt toy nonce note (aes_256_gcm_key test_key) binding ≡ ok envelope
unfolding encrypt
encrypted = refl

decrypted : decrypt toy envelope (aes_256_gcm_key test_key) ≡ ok note
unfolding decrypt
decrypted = refl

-- A nonce that was tampered with, and an envelope that says it is not encrypted.
tampered : decrypt toy other_nonce (aes_256_gcm_key test_key) ≢ ok note
unfolding decrypt
tampered h = cc

decrypt-encrypt_example :
    (e : EncryptionEnvelope) × (encrypt toy nonce note (aes_256_gcm_key test_key) binding ≡ ok e)
    × ((id : Bytes) → decrypt toy (record e { key_id = id }) (aes_256_gcm_key test_key) ≡ ok note)
decrypt-encrypt_example =
    decrypt-encrypt toy toy-IsAead nonce note test_key binding refl refl (omega arith) (omega arith)

decrypt_authentic_example :
    ((scheme_of envelope.scheme ≡ some plaintext) × (note ≡ envelope.ciphertext))
    ⊎ ((scheme_of envelope.scheme ≡ some aes_256_gcm)
        × IsSealed toy envelope (aes_256_gcm_key test_key) note)
decrypt_authentic_example =
    decrypt_authentic toy toy-IsAead envelope (aes_256_gcm_key test_key) note decrypted

abbrev short_nonce : EncryptionEnvelope
short_nonce = record envelope { iv_or_nonce = replicate 8 7 }

short_nonce_panics : decrypt toy short_nonce (aes_256_gcm_key test_key) ≡ panic
unfolding decrypt
short_nonce_panics = refl

decrypt_exact_example :
    ((m : Bytes)
      → (decrypt toy other_nonce (aes_256_gcm_key test_key) ≡ ok m)
        ↔ IsSealed toy other_nonce (aes_256_gcm_key test_key) m)
    × ((decrypt toy other_nonce (aes_256_gcm_key test_key) ≡ err aes_gcm_error)
        ↔ ((m : Bytes) → ¬ IsSealed toy other_nonce (aes_256_gcm_key test_key) m))
decrypt_exact_example = decrypt_exact toy toy-IsAead other_nonce test_key refl refl refl
