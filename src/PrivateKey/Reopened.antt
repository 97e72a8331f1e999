-- ===== src/PrivateKey/Reopened.antt =====
-- A private key that was encrypted under a password is decrypted with it.
use quantum_encryptor.Prelude.{
  ◌≡◌, ◌<◌, refl, sym, ap, ◌∙◌, true, false, Option, some, [], ◌∷◌, arith, Bytes, Text, length,
  is_empty, list_eq,
}
use mathlib.Core.Path.{subst₂}
use quantum_encryptor.Prelude.Utf8.{encode_utf8}
use quantum_encryptor.Failure.{Result, ok, err, ok-injective, bind_ok, then_ok, first_ok}
use quantum_encryptor.Algorithms.{is_allowed_key_algorithm}
use quantum_encryptor.Backend.{AesGcm, GcmLaw}
use quantum_encryptor.Kem.{encoded}
use quantum_encryptor.Encryption.{or_none}
use quantum_encryptor.PrivateKey.{
  PrivateKeyPemMetadata, EncryptedKeyData, contains, private_key_metadata_aad,
  validate_private_key_password, derive_key_from_password, new_metadata, encrypted,
  encrypt_private_key, filled, is_number, is_text, kdf_supported, known_metadata,
  authenticated_metadata, open_key, decrypt_private_key,
}

-- The dictionary that `load_key_pem` makes of a key file.
abbrev pub key_data : PrivateKeyPemMetadata → Bytes → EncryptedKeyData
key_data m key = record {
  encrypted_key = some key;
  format_version = some m.format_version;
  kem_alg = some m.kem_alg;
  kdf = some m.kdf_name;
  kdf_n = some m.kdf_n;
  kdf_r = some m.kdf_r;
  kdf_p = some m.kdf_p;
  salt = some m.salt;
  nonce = some m.nonce;
}

returned : {A : Type 0} (r : Result (Option A)) {a : A} → or_none r ≡ some a → r ≡ ok (some a)
unfolding or_none
returned (err e) h = cc
returned (ok o) h = ap (λ x. ok x) h

encoded_inv : (t : Text) {bs : Bytes} → encoded t ≡ ok bs → encode_utf8 t ≡ some bs
unfolding encoded
encoded_inv t e = ground arith

module _ (folded : Text → Text) (scrypt : Bytes → Bytes → Bytes) (aes : AesGcm) where
  filled_lem : (d : Bytes) → 0 < length d → filled folded scrypt aes (some d) ≡ some d
  unfolding filled
  filled_lem [] h = absurd (omega arith)
  filled_lem (b ∷ bs) h = refl

  password_not_empty :
      (password : Text) {p : Text}
      → validate_private_key_password folded scrypt aes (some password) ≡ ok p
      → is_empty password ≡ false
  unfolding validate_private_key_password
  password_not_empty [] e = cc
  password_not_empty (c ∷ cs) e = refl

  decrypt_run :
      (salt nonce key password password_bytes suite aad : Bytes)
      → 0 < length salt
      → 0 < length nonce
      → 0 < length key
      → is_allowed_key_algorithm (some suite) ≡ true
      → is_empty password ≡ false
      → encode_utf8 password ≡ some password_bytes
      → private_key_metadata_aad (new_metadata folded scrypt aes suite salt nonce) ≡ ok aad
      → decrypt_private_key folded scrypt aes
          (key_data (new_metadata folded scrypt aes suite salt nonce) key)
          password
        ≡ aes.decrypt (scrypt password_bytes salt) nonce aad key
  unfolding decrypt_private_key authenticated_metadata known_metadata open_key kdf_supported is_text
      is_number contains new_metadata list_eq private_key_metadata_aad encoded encode_utf8
  decrypt_run salt nonce key password password_bytes suite aad s n k allowed some_password utf8
        authenticated =
      rw (
        some_password,
        filled_lem salt s,
        filled_lem nonce n,
        filled_lem key k,
        allowed,
        utf8,
        authenticated,
      )

  pair_of :
      {a b : PrivateKeyPemMetadata × Bytes}
      → ◌≡◌ {A = Result (Option (PrivateKeyPemMetadata × Bytes))} (ok (some a)) (ok (some b))
      → a ≡ b
  pair_of e = cc

  -- With an AES-GCM that opens what it made, for an allowed suite and a salt and nonce that are not
  -- empty: when `encrypt_private_key` returns metadata and a ciphertext, `decrypt_private_key`
  -- with the same password returns the raw key.
  pub decrypt_private_key-encrypt_private_key :
      (law : GcmLaw aes) (salt nonce raw password suite : Bytes) {m : PrivateKeyPemMetadata}
      {key : Bytes}
      → 0 < length salt
      → 0 < length nonce
      → is_allowed_key_algorithm (some suite) ≡ true
      → encrypt_private_key folded scrypt aes salt nonce raw password suite ≡ some (m, key)
      → decrypt_private_key folded scrypt aes (key_data m key) password ≡ some raw
  unfolding encrypt_private_key encrypted derive_key_from_password
  decrypt_private_key-encrypt_private_key law salt nonce raw password suite s n allowed e =
      let e0 = returned (encrypted folded scrypt aes salt nonce raw password suite) e in
      let (_, valid) =
        first_ok (validate_private_key_password folded scrypt aes (some password)) _ e0 in
      let e2 = then_ok (validate_private_key_password folded scrypt aes (some password)) _ e0 in
      let (derived_key, derived, e3) =
        bind_ok (derive_key_from_password folded scrypt aes password salt) _ e2 in
      let (aad, authenticated, e4) =
        bind_ok (private_key_metadata_aad (new_metadata folded scrypt aes suite salt nonce)) _ e3 in
      let (password_bytes, utf8, same_key) =
        bind_ok (encoded password) _
          (then_ok (validate_private_key_password folded scrypt aes (some password)) _ derived) in
      let made = aes.encrypt derived_key nonce aad raw in
      let run =
        decrypt_run salt nonce made password password_bytes suite aad s n
          (omega (arith, law.size derived_key nonce aad raw)) allowed
          (password_not_empty password valid) (encoded_inv password utf8) authenticated in
      let reopened =
        run
        ∙ ap (λ k. aes.decrypt k nonce aad made) (ok-injective same_key)
        ∙ law.opens derived_key nonce aad raw in
      let same = pair_of e4 in
      subst₂
        (λ m' key'. decrypt_private_key folded scrypt aes (key_data m' key') password ≡ some raw)
        (ap (λ (q : PrivateKeyPemMetadata × Bytes). q.0) same)
        (ap (λ (q : PrivateKeyPemMetadata × Bytes). q.1) same) reopened

  -- What `encrypt_private_key` returns: the metadata of its arguments, and a ciphertext of the key.
  pub encrypt_private_key-eq_some :
      (salt nonce raw password suite : Bytes) {m : PrivateKeyPemMetadata} {key : Bytes}
      → encrypt_private_key folded scrypt aes salt nonce raw password suite ≡ some (m, key)
      → (m ≡ new_metadata folded scrypt aes suite salt nonce)
        × (k : Bytes) × (aad : Bytes) × (key ≡ aes.encrypt k nonce aad raw)
  unfolding encrypt_private_key encrypted
  encrypt_private_key-eq_some salt nonce raw password suite e =
      let e0 = returned (encrypted folded scrypt aes salt nonce raw password suite) e in
      let e2 = then_ok (validate_private_key_password folded scrypt aes (some password)) _ e0 in
      let (k, _, e3) = bind_ok (derive_key_from_password folded scrypt aes password salt) _ e2 in
      let (aad, _, e4) =
        bind_ok (private_key_metadata_aad (new_metadata folded scrypt aes suite salt nonce)) _ e3 in
      let same = pair_of e4 in
      (
        sym (ap (λ (q : PrivateKeyPemMetadata × Bytes). q.0) same),
        k,
        aad,
        sym (ap (λ (q : PrivateKeyPemMetadata × Bytes). q.1) same),
      )

  pub encrypt_private_key-password :
      (salt nonce raw password suite : Bytes) {x : PrivateKeyPemMetadata × Bytes}
      → encrypt_private_key folded scrypt aes salt nonce raw password suite ≡ some x
      → is_empty password ≡ false
  unfolding encrypt_private_key encrypted
  encrypt_private_key-password salt nonce raw password suite e =
      let e0 = returned (encrypted folded scrypt aes salt nonce raw password suite) e in
      let (_, valid) =
        first_ok (validate_private_key_password folded scrypt aes (some password)) _ e0 in
      password_not_empty password valid
