-- ===== src/State/Encryption/Branches.antt =====
-- Decryption (crates/af-swarm-state/src/encryption.rs) by the sealing of the envelope, and what an
-- encryption makes.
use swarm_runtime.Prelude.{
  Bytes, [], sym, ◌∙◌, Option, none, some, ◌≡◌, ◌↔◌, ◌⊎◌, inl, inr, length, arith, refl,
  Option-cases,
}
use swarm_runtime.State.Error.{ok, err, invalid_input, aes_gcm_error, fhe_encryption_missing}
use swarm_runtime.State.Proto.{
  EncryptionScheme, EncryptionEnvelope, AadBinding, plaintext, aes_256_gcm, fhe_tfhe_rs, scheme_of,
  scheme_code,
}
use swarm_runtime.State.Encryption.{
  EncryptionKey, aes_256_gcm_key, fhe_tfhe_rs_key, Aead, IsAead, or_aes_gcm_error, encrypt, decrypt,
  decrypt_as, decrypt_aes,
}

abbrev sealed_as : Bytes → Bytes → Bytes → EncryptionEnvelope
sealed_as nonce aad_bytes ct = record {
  scheme = scheme_code aes_256_gcm;
  key_id = [];
  iv_or_nonce = nonce;
  ciphertext = ct;
  aad = aad_bytes;
}

ok_eq : (a b : EncryptionEnvelope) → ok a ≡ ok b → a ≡ b
ok_eq a b h = cc

returned_some : (o : Option Bytes) (m : Bytes) → or_aes_gcm_error o ≡ ok m → o ≡ some m
returned_some none m h = cc
returned_some (some x) m h = cc

failed_none : (o : Option Bytes) → or_aes_gcm_error o ≡ err aes_gcm_error → o ≡ none
failed_none none h = refl
failed_none (some x) h = cc

some_not_none : (m : Bytes) → some m ≡ none → ⊥
some_not_none m h = cc

module _ (G : Aead) where
  -- The envelope is the sealing of `m` under the key: authentic.
  abbrev pub IsSealed : EncryptionEnvelope → EncryptionKey → Bytes → Type 0
  IsSealed envelope (aes_256_gcm_key raw_key) m =
      (c : G.Cipher) × (G.new_from_slice raw_key ≡ some c)
      × (G.seal c envelope.iv_or_nonce m envelope.aad ≡ some envelope.ciphertext)
  IsSealed envelope (fhe_tfhe_rs_key k) m = ⊥

  decrypt_aes_ok :
      (laws : IsAead G) (envelope : EncryptionEnvelope) (raw_key m : Bytes)
      → decrypt_aes G envelope raw_key ≡ ok m
      → IsSealed envelope (aes_256_gcm_key raw_key) m
  unfolding decrypt_aes
  decrypt_aes_ok laws envelope raw_key m h = elim (Option-cases (G.new_from_slice raw_key)) [
    | inl refused ↦ absurd (ground arith)
    | inr (c, made) ↦ (
      c,
      made,
      laws.seal-unseal c envelope.iv_or_nonce m envelope.aad envelope.ciphertext (ground arith),
    )
  ]

  decrypt_as_ok :
      (laws : IsAead G) (scheme : Option EncryptionScheme) (envelope : EncryptionEnvelope)
      (key : EncryptionKey) (m : Bytes)
      → decrypt_as G scheme envelope key ≡ ok m
      → ((scheme ≡ some plaintext) × (m ≡ envelope.ciphertext))
        ⊎ ((scheme ≡ some aes_256_gcm) × IsSealed envelope key m)
  unfolding decrypt_as
  decrypt_as_ok laws (some plaintext) envelope key m h = inl (refl, cc)
  decrypt_as_ok laws (some aes_256_gcm) envelope (aes_256_gcm_key raw_key) m h =
      inr (refl, decrypt_aes_ok laws envelope raw_key m h)
  decrypt_as_ok laws (some fhe_tfhe_rs) envelope (fhe_tfhe_rs_key k) m h = cc
  decrypt_as_ok laws _ envelope key m h = cc

  -- A decryption that returns was of an envelope sealed under the given key, nonce and AAD, or of
  -- one that calls itself PLAINTEXT: such an envelope is passed on as it is, whatever the key.
  pub decrypt_authentic :
      (laws : IsAead G) (envelope : EncryptionEnvelope) (key : EncryptionKey) (m : Bytes)
      → decrypt G envelope key ≡ ok m
      → ((scheme_of envelope.scheme ≡ some plaintext) × (m ≡ envelope.ciphertext))
        ⊎ ((scheme_of envelope.scheme ≡ some aes_256_gcm) × IsSealed envelope key m)
  unfolding decrypt
  decrypt_authentic laws envelope key m h =
      decrypt_as_ok laws (scheme_of envelope.scheme) envelope key m h

  unsealed :
      (envelope : EncryptionEnvelope) (raw_key : Bytes) (c : G.Cipher)
      → scheme_of envelope.scheme ≡ some aes_256_gcm
      → length envelope.iv_or_nonce ≡ 12
      → G.new_from_slice raw_key ≡ some c
      → decrypt G envelope (aes_256_gcm_key raw_key)
        ≡ or_aes_gcm_error (G.unseal c envelope.iv_or_nonce envelope.ciphertext envelope.aad)
  unfolding decrypt decrypt_as decrypt_aes
  unsealed envelope raw_key c is_aes twelve made = rw (is_aes, twelve, made) refl

  unseal_sealed :
      (laws : IsAead G) (envelope : EncryptionEnvelope) (raw_key m : Bytes) (c : G.Cipher)
      → G.new_from_slice raw_key ≡ some c
      → IsSealed envelope (aes_256_gcm_key raw_key) m
      → G.unseal c envelope.iv_or_nonce envelope.ciphertext envelope.aad ≡ some m
  unseal_sealed laws envelope raw_key m c made (c', made', sealed) =
      let same : c' ≡ c = cc in
      laws.unseal-seal c envelope.iv_or_nonce m envelope.aad envelope.ciphertext (rw same at sealed)

  -- With a cipher that keeps its laws, of an envelope marked as AES with a nonce of 12 bytes and under a
  -- key of 32: decryption returns `m` exactly if the envelope is the sealing of `m` under the key, with its
  -- nonce and its AAD, and fails with the error of the cipher exactly if it is the sealing of nothing so.
  pub decrypt_exact :
      (laws : IsAead G) (envelope : EncryptionEnvelope) (raw_key : Bytes)
      → scheme_of envelope.scheme ≡ some aes_256_gcm
      → length envelope.iv_or_nonce ≡ 12
      → length raw_key ≡ 32
      → ((m : Bytes)
          → (decrypt G envelope (aes_256_gcm_key raw_key) ≡ ok m)
            ↔ IsSealed envelope (aes_256_gcm_key raw_key) m)
        × ((decrypt G envelope (aes_256_gcm_key raw_key) ≡ err aes_gcm_error)
            ↔ ((m : Bytes) → ¬ IsSealed envelope (aes_256_gcm_key raw_key) m))
  decrypt_exact laws envelope raw_key is_aes twelve thirty_two =
      let (c, made) = laws.accepts raw_key thirty_two in
      let tried = G.unseal c envelope.iv_or_nonce envelope.ciphertext envelope.aad in
      let result = unsealed envelope raw_key c is_aes twelve made in
      let sealed_from : (m : Bytes)
          → tried ≡ some m
          → IsSealed envelope (aes_256_gcm_key raw_key) m =
        λ m got. (
          c,
          made,
          laws.seal-unseal c envelope.iv_or_nonce m envelope.aad envelope.ciphertext got,
        ) in
      let opened = λ (m : Bytes). unseal_sealed laws envelope raw_key m c made in
      (
        (λ m. (
          (λ returned. sealed_from m (returned_some tried m (sym result ∙ returned))),
          (λ sealed. result ∙ rw (opened m sealed) refl),
        )),
        (
          (λ failed m sealed.
              some_not_none m (sym (opened m sealed) ∙ failed_none tried (sym result ∙ failed))),
          (λ nothing. elim (Option-cases tried) [
            | inl refused ↦ result ∙ rw refused refl
            | inr (m, got) ↦ absurd (nothing m (sealed_from m got))
          ]),
        ),
      )

  encrypt_aes_ok :
      (nonce plain raw_key : Bytes) (binding : AadBinding) (envelope : EncryptionEnvelope)
      → encrypt G nonce plain (aes_256_gcm_key raw_key) binding ≡ ok envelope
      → (scheme_of envelope.scheme ≡ some aes_256_gcm)
        × (envelope.iv_or_nonce ≡ nonce)
        × (envelope.aad ≡ G.encode_aad binding)
        × IsSealed envelope (aes_256_gcm_key raw_key) plain
  unfolding encrypt
  encrypt_aes_ok nonce plain raw_key binding envelope h =
      elim (Option-cases (G.new_from_slice raw_key)) [
        | inl refused ↦ absurd (ground arith)
        | inr (c, made) ↦ elim (Option-cases (G.seal c nonce plain (G.encode_aad binding))) [
          | inl failed ↦ absurd (ground arith)
          | inr (ct, sealed) ↦
              let same : envelope ≡ sealed_as nonce (G.encode_aad binding) ct =
                ok_eq _ _ (sym h ∙ rw (made, sealed)) in
              rw same (refl, refl, refl, (c, made, sealed))
        ]
      ]

  -- An encryption that returns used an AES key; its envelope is marked as AES, carries the nonce and
  -- the encoded binding, and holds the sealing of the plaintext under them. An FHE key is refused.
  pub encrypt_sound :
      (nonce plain : Bytes) (key : EncryptionKey) (binding : AadBinding)
      → ((envelope : EncryptionEnvelope)
          → encrypt G nonce plain key binding ≡ ok envelope
          → (scheme_of envelope.scheme ≡ some aes_256_gcm)
            × (envelope.iv_or_nonce ≡ nonce)
            × (envelope.aad ≡ G.encode_aad binding)
            × IsSealed envelope key plain)
        × ((k : Bytes)
            → key ≡ fhe_tfhe_rs_key k
            → encrypt G nonce plain key binding ≡ err (invalid_input fhe_encryption_missing))
  unfolding encrypt
  encrypt_sound nonce plain (aes_256_gcm_key raw_key) binding =
      (encrypt_aes_ok nonce plain raw_key binding, λ k h. absurd (cc))
  encrypt_sound nonce plain (fhe_tfhe_rs_key k) binding =
      ((λ envelope h. absurd (cc)), λ k' h. refl)
