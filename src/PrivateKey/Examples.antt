-- ===== src/PrivateKey/Examples.antt =====
-- A private key that goes through encryption and decryption.
use quantum_encryptor.Prelude.{
  ℕ, zero, suc, All, All-append, IsByte, ◌<◌, ◌≡◌, refl, some, [], ◌∷◌, ◌++◌, arith, drop, true,
  Bytes, Text, replicate, codes, list_eq, one_of,
}
use quantum_encryptor.Prelude.Utf8.{encode_utf8}
use quantum_encryptor.Prelude.Strings.{digits, decimal}
use quantum_encryptor.Prelude.Base64.{base64_char, b64encode}
use quantum_encryptor.Algorithms.{is_allowed_key_algorithm}
use quantum_encryptor.Backend.{AesGcm, GcmLaw}
use quantum_encryptor.Kem.{encoded}
use quantum_encryptor.Encryption.{or_none}
use quantum_encryptor.PrivateKey.{
  contains, distinct, private_key_metadata_aad, validate_private_key_password,
  derive_key_from_password, new_metadata, encrypted, encrypt_private_key, decrypt_private_key,
}
use quantum_encryptor.PrivateKey.Reopened.{key_data, decrypt_private_key-encrypt_private_key}

-- The tag stands in front here.
abbrev pub plain_gcm : AesGcm
plain_gcm = record {
  encrypt = λ key nonce aad plain. replicate 16 0 ++ plain;
  decrypt = λ key nonce aad sealed. some (drop 16 sealed);
}

pub copies-IsByte : (b n : ℕ) → b < 256 → All IsByte (replicate n b)
copies-IsByte b zero h = tt
copies-IsByte b (suc n) h = (h, copies-IsByte b n h)

pub plain-GcmLaw : GcmLaw plain_gcm
plain-GcmLaw = record {
  opens = λ key nonce aad plain. refl;
  size = λ key nonce aad plain. omega arith;
  bytes = λ key nonce aad plain h.
      All-append IsByte (replicate 16 0) plain (copies-IsByte 0 16 (omega arith)) h;
}

abbrev pub no_fold : Text → Text
no_fold t = t

abbrev pub copying_kdf : Bytes → Bytes → Bytes
copying_kdf password salt = password

abbrev pub pass_phrase : Text
pass_phrase = codes "a long pass phrase"

run_of_encryption :
    encrypt_private_key no_fold copying_kdf plain_gcm
      (replicate 16 1)
      (replicate 12 2)
      (1 ∷ 2 ∷ 3 ∷ [])
      pass_phrase
      (codes "Kyber768")
    ≡ some (
      new_metadata no_fold copying_kdf plain_gcm
          (codes "Kyber768")
          (replicate 16 1)
          (replicate 12 2),
      replicate 16 0 ++ 1 ∷ 2 ∷ 3 ∷ [],
    )
unfolding encrypt_private_key encrypted validate_private_key_password derive_key_from_password
    new_metadata private_key_metadata_aad encoded encode_utf8 or_none contains distinct digits
    decimal base64_char b64encode list_eq one_of
run_of_encryption = refl

allowed_kyber : is_allowed_key_algorithm (some (codes "Kyber768")) ≡ true
unfolding is_allowed_key_algorithm list_eq one_of
allowed_kyber = refl

decrypt_private_key-encrypt_private_key_example :
    decrypt_private_key no_fold copying_kdf plain_gcm
      (key_data
        (new_metadata no_fold copying_kdf plain_gcm
          (codes "Kyber768")
          (replicate 16 1)
          (replicate 12 2))
        (replicate 16 0 ++ 1 ∷ 2 ∷ 3 ∷ []))
      pass_phrase
    ≡ some (1 ∷ 2 ∷ 3 ∷ [])
decrypt_private_key-encrypt_private_key_example =
    decrypt_private_key-encrypt_private_key no_fold copying_kdf plain_gcm plain-GcmLaw
      (replicate 16 1) (replicate 12 2) (1 ∷ 2 ∷ 3 ∷ []) pass_phrase (codes "Kyber768")
      (omega arith) (omega arith) allowed_kyber run_of_encryption
