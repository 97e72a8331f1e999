-- ===== src/Pem/Rewrapped.antt =====
-- crypto_core.py: a change of the password of a key file, and recovery of the public key.
use quantum_encryptor.Prelude.{
  ◌≡◌, refl, sym, ap, ◌∙◌, Bool, true, false, not, Option, none, some, Bytes, Text, All, IsByte,
  length, is_empty, list_eq, one_of, leb,
}
use quantum_encryptor.Config.{
  private_key_min_password_chars, private_key_min_unique_chars, scrypt_salt_bytes, aes_nonce_bytes,
}
use quantum_encryptor.Failure.{
  ok, password_required_error, weak_password_error, invalid_key_format_error, ensure, ok-injective,
  if-eq_ok, ensure-eq_ok, bind_ok, then_ok, first_ok,
}
use quantum_encryptor.Backend.{Primitives, AesGcm, GcmLaw}
use quantum_encryptor.Keys.{KeyType, public, private}
use quantum_encryptor.Fingerprint.{get_private_key_public_fingerprint}
use quantum_encryptor.PrivateKey.{common_weak_passwords, distinct, validate_private_key_password}
use quantum_encryptor.Pem.{is_private}
use quantum_encryptor.Pem.Files.{
  LoadedKey, save_key_pem, load_key_pem, inspect_key_pem_strict, is_private_info, unlocked,
  formatted, rewrap_private_key_pem,
}
use quantum_encryptor.Pem.RoundTrip.{load_key_pem-save_key_pem}

private_type : (t : KeyType) → is_private t ≡ true → t ≡ private
unfolding is_private
private_type public h = cc
private_type private h = refl

first_of : {a b c d e f : Text} → ◌≡◌ {A = Text × (Text × Text)} (a, (b, c)) (d, (e, f)) → a ≡ d
first_of h = ap (λ (q : Text × (Text × Text)). q.0) h

second_of : {a b c d e f : Text} → ◌≡◌ {A = Text × (Text × Text)} (a, (b, c)) (d, (e, f)) → b ≡ e
second_of h = ap (λ (q : Text × (Text × Text)). q.1.0) h

third_of : {a b c d e f : Text} → ◌≡◌ {A = Text × (Text × Text)} (a, (b, c)) (d, (e, f)) → c ≡ f
third_of h = ap (λ (q : Text × (Text × Text)). q.1.1) h

false_of_negation : (b : Bool) → not b ≡ true → b ≡ false
false_of_negation true h = cc
false_of_negation false h = refl

module _ (folded : Text → Text) (scrypt : Bytes → Bytes → Bytes) (aes : AesGcm)
    (lib : Primitives) where
  unlocked_inv :
      (o : Option LoadedKey) {k : LoadedKey}
      → unlocked folded scrypt aes lib o ≡ ok k
      → (o ≡ some k) × (k.key_type ≡ private)
  unfolding unlocked
  unlocked_inv none h = cc
  unlocked_inv (some l) h =
      let (tested, same) = if-eq_ok (is_private l.key_type) l _ h in
      (
        ap (λ x. some x) same,
        ap (λ (x : LoadedKey). x.key_type) (sym same) ∙ private_type l.key_type tested,
      )

  formatted_inv :
      (o : Option Text) {pem : Text} → formatted folded scrypt aes lib o ≡ ok pem → o ≡ some pem
  unfolding formatted
  formatted_inv none h = cc
  formatted_inv (some p) h = cc

  policy_same :
      (new : Text) {p : Text}
      → validate_private_key_password folded scrypt aes (some new) ≡ ok p
      → p ≡ new
  unfolding validate_private_key_password
  policy_same new h =
      let h1 = then_ok (ensure (not (is_empty new)) password_required_error) _ h in
      let h2 =
        then_ok (ensure (leb private_key_min_password_chars (length new)) weak_password_error) _
          h1 in
      let h3 =
        then_ok (ensure (leb private_key_min_unique_chars (distinct new)) weak_password_error) _
          h2 in
      sym (
        ok-injective (
          then_ok (ensure (not (one_of (folded new) common_weak_passwords)) weak_password_error) _
            h3))

  -- With an AES-GCM as documented, and a salt and a nonce of their lengths: when the password of a
  -- key file is changed, the new file gives under the new password the key that the old one gives
  -- under the current password, the passwords differ, the new one meets the policy, and the
  -- algorithm and the fingerprint that are reported are those of this key.
  pub rewrap_private_key_pem_lem :
      (law : GcmLaw aes) (salt nonce : Bytes) (pem current new : Text)
      {pem' kem_alg fingerprint : Text}
      → All IsByte salt
      → All IsByte nonce
      → length salt ≡ scrypt_salt_bytes
      → length nonce ≡ aes_nonce_bytes
      → ((key : LoadedKey)
          → load_key_pem folded scrypt aes lib pem (some current) ≡ some key
          → All IsByte key.raw)
      → rewrap_private_key_pem folded scrypt aes lib salt nonce pem current new
        ≡ ok (pem', (kem_alg, fingerprint))
      → (key : LoadedKey) × (load_key_pem folded scrypt aes lib pem (some current) ≡ some key)
        × (load_key_pem folded scrypt aes lib pem' (some new) ≡ some key)
        × (list_eq new current ≡ false)
        × (validate_private_key_password folded scrypt aes (some new) ≡ ok new)
        × (kem_alg ≡ key.kem_alg)
        × (get_private_key_public_fingerprint lib key.raw kem_alg ≡ ok fingerprint)
  unfolding rewrap_private_key_pem
  rewrap_private_key_pem_lem law salt nonce pem current new bs bn ls ln bytes e =
      let (info, _, e1) = bind_ok (inspect_key_pem_strict folded scrypt aes lib pem) _ e in
      let e3 =
        then_ok (ensure (not (is_empty current)) password_required_error) _
          (then_ok (ensure (is_private_info info) invalid_key_format_error) _ e1) in
      let policy = validate_private_key_password folded scrypt aes (some new) in
      let (p, valid) = first_ok policy _ e3 in
      let e4 = then_ok policy _ e3 in
      let (u, tested) = first_ok (ensure (not (list_eq new current)) weak_password_error) _ e4 in
      let e5 = then_ok (ensure (not (list_eq new current)) weak_password_error) _ e4 in
      let (key, opened, e6) =
        bind_ok
          (unlocked folded scrypt aes lib (load_key_pem folded scrypt aes lib pem (some current))) _
          e5 in
      let (is_loaded, is_secret) =
        unlocked_inv (load_key_pem folded scrypt aes lib pem (some current)) opened in
      let (f, fingerprinted, e7) =
        bind_ok (get_private_key_public_fingerprint lib key.raw key.kem_alg) _ e6 in
      let saved =
        save_key_pem folded scrypt aes lib salt nonce key.raw key.kem_alg private (some new) in
      let (pem2, made, e8) = bind_ok (formatted folded scrypt aes lib saved) _ e7 in
      let same = ok-injective e8 in
      let again =
        load_key_pem-save_key_pem folded scrypt aes lib law salt nonce key.raw key.kem_alg private
          (some new) (bytes key is_loaded) bs bn ls ln (formatted_inv saved made) in
      (
        key,
        is_loaded,
        ap (λ x. load_key_pem folded scrypt aes lib x (some new)) (sym (first_of same))
            ∙ again
            ∙ ap (λ t. some (record key { key_type = t })) (sym is_secret),
        false_of_negation (list_eq new current) (ensure-eq_ok (not (list_eq new current)) _ tested),
        valid ∙ ap (λ x. ok x) (policy_same new valid),
        sym (second_of same),
        ap (λ x. get_private_key_public_fingerprint lib key.raw x) (sym (second_of same))
            ∙ fingerprinted
            ∙ ap (λ x. ok x) (third_of same),
      )
