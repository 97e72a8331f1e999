-- ===== src/Pem/RoundTrip.antt =====
-- crypto_core.py: what `save_key_pem` writes, `load_key_pem` loads.
use quantum_encryptor.Prelude.{
  ◌+◌, ◌≡◌, refl, sym, ap, ◌∙◌, Bool, true, false, not, ◌&&◌, Option, none, some, [], ◌∷◌, arith,
  Bytes, Text, All, IsByte, length, is_empty, and_then, if◌then◌else◌,
}
use mathlib.Core.Path.{subst, subst₂}
use quantum_encryptor.Config.{scrypt_salt_bytes, aes_nonce_bytes}
use quantum_encryptor.Failure.{Result, ok, err}
use quantum_encryptor.Algorithms.{is_allowed_key_algorithm}
use quantum_encryptor.Backend.{Primitives, AesGcm, GcmLaw}
use quantum_encryptor.Keys.{KeyType, public, private, validate_key_material}
use quantum_encryptor.PrivateKey.{
  PrivateKeyPemMetadata, new_metadata, encrypt_private_key, decrypt_private_key,
}
use quantum_encryptor.PrivateKey.Reopened.{
  key_data, encrypt_private_key-eq_some, encrypt_private_key-password,
  decrypt_private_key-encrypt_private_key,
}
use quantum_encryptor.Pem.{ParsedKeyPem, parse_key_pem_strict}
use quantum_encryptor.Pem.Files.{
  public_pem, private_pem, given, encrypted_pem, valid_material, save_key_pem, validated_private,
  envelope_data, load_parsed, load_key_pem,
}
use quantum_encryptor.Pem.Layout.{and_true}
use quantum_encryptor.Pem.Parsed.{valid_size}
use quantum_encryptor.Pem.Written.{parse-public_pem, parse-new_pem}
use quantum_encryptor.Pem.Envelope.{envelope}

unless_some :
    {A : Type 0} (b : Bool) {x : Option A} {a : A}
    → (if not b then none else x) ≡ some a
    → (b ≡ true) × (x ≡ some a)
unless_some false h = cc
unless_some true h = (refl, h)

returned_ok : (r : Result (Unit {0})) → (elim r [ err e ↦ false | ok u ↦ true ]) ≡ true → r ≡ ok tt
returned_ok (err e) h = cc
returned_ok (ok u) h = refl

some-injective : {a b : Text} → some a ≡ some b → a ≡ b
some-injective e = cc

module _ (folded : Text → Text) (scrypt : Bytes → Bytes → Bytes) (aes : AesGcm)
    (lib : Primitives) where
  -- A key that `save_key_pem` wrote is of an allowed algorithm, and valid.
  pub saved_key :
      (key : Bytes) (kem_alg : Text) (key_type : KeyType) {x : Option Text} {pem : Text}
      → (if not (
            is_allowed_key_algorithm (some kem_alg)
            && valid_material folded scrypt aes lib key kem_alg key_type)
          then none
          else x)
        ≡ some pem
      → (is_allowed_key_algorithm (some kem_alg) ≡ true)
        × (validate_key_material lib key kem_alg key_type ≡ ok tt)
        × (x ≡ some pem)
  unfolding valid_material
  saved_key key kem_alg key_type h =
      let (tested, e) = unless_some _ h in
      let (allowed, valid) = and_true (is_allowed_key_algorithm (some kem_alg)) _ tested in
      (allowed, returned_ok (validate_key_material lib key kem_alg key_type) valid, e)

  loaded :
      (pem : Text) (parsed : ParsedKeyPem) (password : Option Text)
      → parse_key_pem_strict lib pem ≡ ok parsed
      → load_key_pem folded scrypt aes lib pem password
        ≡ load_parsed folded scrypt aes lib parsed password
  unfolding load_key_pem
  loaded pem parsed password h = rw (h, load_key_pem) refl

  load-public_pem :
      (key : Bytes) (kem_alg : Text) (password : Option Text)
      → is_allowed_key_algorithm (some kem_alg) ≡ true
      → validate_key_material lib key kem_alg public ≡ ok tt
      → All IsByte key
      → load_key_pem folded scrypt aes lib (public_pem key kem_alg) password
        ≡ some (record { raw = key; kem_alg = kem_alg; key_type = public })
  load-public_pem key kem_alg password allowed valid bytes =
      loaded (public_pem key kem_alg) _ password
        (parse-public_pem folded scrypt aes lib key kem_alg allowed valid bytes)
      ∙ unfold load_parsed in refl

  load_private :
      (key salt nonce sealed : Bytes) (kem_alg password : Text)
      → is_empty password ≡ false
      → validate_key_material lib key kem_alg private ≡ ok tt
      → decrypt_private_key folded scrypt aes
          (key_data (new_metadata folded scrypt aes kem_alg salt nonce) sealed)
          password
        ≡ some key
      → load_parsed folded scrypt aes lib
          (record {
            kem_alg = kem_alg;
            key_type = private;
            is_encrypted = true;
            payload = sealed;
            private_envelope = some (envelope salt nonce);
          })
          (some password)
        ≡ some (record { raw = key; kem_alg = kem_alg; key_type = private })
  unfolding load_parsed given envelope_data new_metadata validated_private valid_material
  load_private key salt nonce sealed kem_alg password some_password valid opened =
      rw (some_password, opened, valid, validated_private, valid_material) refl

  load-private_pem :
      (law : GcmLaw aes) (key salt nonce sealed : Bytes) (kem_alg password : Text)
      {m : PrivateKeyPemMetadata}
      → is_allowed_key_algorithm (some kem_alg) ≡ true
      → validate_key_material lib key kem_alg private ≡ ok tt
      → All IsByte key
      → All IsByte salt
      → All IsByte nonce
      → length salt ≡ scrypt_salt_bytes
      → length nonce ≡ aes_nonce_bytes
      → encrypt_private_key folded scrypt aes salt nonce key password kem_alg ≡ some (m, sealed)
      → load_key_pem folded scrypt aes lib (private_pem m sealed) (some password)
        ≡ some (record { raw = key; kem_alg = kem_alg; key_type = private })
  load-private_pem law key salt nonce sealed kem_alg password {m} allowed valid bytes bs bn ls ln
        e =
      let (n, expected, size) = valid_size lib key kem_alg private valid in
      let (same, k, aad, made) =
        encrypt_private_key-eq_some folded scrypt aes salt nonce key password kem_alg e in
      let new = new_metadata folded scrypt aes kem_alg salt nonce in
      let opened =
        decrypt_private_key-encrypt_private_key folded scrypt aes law salt nonce key password
          kem_alg (omega arith) (omega arith) allowed e in
      let parsed =
        parse-new_pem folded scrypt aes lib sealed salt nonce kem_alg n allowed expected
          (ap length made ∙ law.size k nonce aad key ∙ ap (λ x. x + 16) size)
          (subst (All IsByte) (sym made) (law.bytes k nonce aad key bytes)) bs bn ls ln in
      ap (λ x. load_key_pem folded scrypt aes lib (private_pem x sealed) (some password)) same
      ∙ loaded (private_pem new sealed) _ (some password) parsed
      ∙ load_private key salt nonce sealed kem_alg password
          (encrypt_private_key-password folded scrypt aes salt nonce key password kem_alg e) valid
          (subst
            (λ x. decrypt_private_key folded scrypt aes (key_data x sealed) password ≡ some key)
            same opened)

  given_inv :
      {pem : Text} (password : Option Text) (f : Text → Option Text)
      → and_then (given password) f ≡ some pem
      → (p : Text) × (password ≡ some p) × (f p ≡ some pem)
  unfolding given
  given_inv none f h = cc
  given_inv (some []) f h = cc
  given_inv (some (c ∷ cs)) f h = (c ∷ cs, refl, h)

  encrypted_pem_inv :
      {pem : Text} (o : Option (PrivateKeyPemMetadata × Bytes))
      → encrypted_pem folded scrypt aes lib o ≡ some pem
      → (m : PrivateKeyPemMetadata) × (key : Bytes) × (o ≡ some (m, key))
        × (private_pem m key ≡ pem)
  unfolding encrypted_pem
  encrypted_pem_inv none h = cc
  encrypted_pem_inv (some (m, [])) h = cc
  encrypted_pem_inv (some (m, b ∷ bs)) h = (m, b ∷ bs, refl, cc)

  -- With an AES-GCM as documented, and a salt and a nonce of their lengths: when `save_key_pem`
  -- returns a PEM text, for a public key or for a private key with a password, then `load_key_pem`
  -- of that text with the same password returns the raw key, its algorithm and its type.
  pub load_key_pem-save_key_pem :
      (law : GcmLaw aes) (salt nonce key : Bytes) (kem_alg : Text) (key_type : KeyType)
      (password : Option Text) {pem : Text}
      → All IsByte key
      → All IsByte salt
      → All IsByte nonce
      → length salt ≡ scrypt_salt_bytes
      → length nonce ≡ aes_nonce_bytes
      → save_key_pem folded scrypt aes lib salt nonce key kem_alg key_type password ≡ some pem
      → load_key_pem folded scrypt aes lib pem password
        ≡ some (record { raw = key; kem_alg = kem_alg; key_type = key_type })
  unfolding save_key_pem
  load_key_pem-save_key_pem law salt nonce key kem_alg public password bytes bs bn ls ln e =
      let (allowed, valid, written) = saved_key key kem_alg public e in
      let same = some-injective written in
      subst
        (λ x.
          load_key_pem folded scrypt aes lib x password
          ≡ some (record { raw = key; kem_alg = kem_alg; key_type = public }))
        same (load-public_pem key kem_alg password allowed valid bytes)
  load_key_pem-save_key_pem law salt nonce key kem_alg private password bytes bs bn ls ln e =
      let (allowed, valid, written) = saved_key key kem_alg private e in
      let (p, is_given, e2) = given_inv password _ written in
      let (m, sealed, made, pem_text) =
        encrypted_pem_inv (encrypt_private_key folded scrypt aes salt nonce key p kem_alg) e2 in
      let opened =
        load-private_pem law key salt nonce sealed kem_alg p allowed valid bytes bs bn ls ln made in
      subst₂
        (λ x q.
          load_key_pem folded scrypt aes lib x q
          ≡ some (record { raw = key; kem_alg = kem_alg; key_type = private }))
        pem_text (sym is_given) opened
