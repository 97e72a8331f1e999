-- ===== src/PrivateKey.antt =====
-- crypto_core.py: the password policy, and the encryption of a private key under a password.
pub mod Reopened
pub mod Examples
use quantum_encryptor.Prelude.{
  ℕ, zero, suc, ◌+◌, ◌*◌, ◌/◌, ◌%◌, Bool, false, ◌&&◌, ◌||◌, not, Option, none, some, List, [], ◌∷◌,
  ◌++◌, Bytes, Text, codes, length, is_empty, list_eq, one_of, get_or, and_then, ltb, leb, ◌==◌,
  if◌then◌else◌,
}
use quantum_encryptor.Prelude.Utf8.{encode_utf8}
use quantum_encryptor.Prelude.Strings.{decimal}
use quantum_encryptor.Prelude.Base64.{b64encode}
use quantum_encryptor.Config.{
  private_key_min_password_chars, private_key_min_unique_chars, private_key_kdf_alg,
  private_key_format_version, supported_private_key_format_versions, scrypt_n, scrypt_r, scrypt_p,
}
use quantum_encryptor.Failure.{
  Result, ok, err, ensure, password_required_error, weak_password_error, ◌>>=◌, ◌>>◌,
}
use quantum_encryptor.Algorithms.{is_allowed_key_algorithm}
use quantum_encryptor.Backend.{AesGcm}
use quantum_encryptor.Kem.{encoded}
use quantum_encryptor.Encryption.{or_none}

pub record PrivateKeyPemMetadata : Type 0 where
  pub format_version : ℕ
  pub kem_alg : Text
  pub kdf_name : Text
  pub kdf_n : ℕ
  pub kdf_r : ℕ
  pub kdf_p : ℕ
  pub salt : Bytes
  pub nonce : Bytes

-- The keys of the dictionary `encrypted_key_data`; none where a key is missing or None.
pub record EncryptedKeyData : Type 0 where
  pub encrypted_key : Option Bytes
  pub format_version : Option ℕ
  pub kem_alg : Option Text
  pub kdf : Option Text
  pub kdf_n : Option ℕ
  pub kdf_r : Option ℕ
  pub kdf_p : Option ℕ
  pub salt : Option Bytes
  pub nonce : Option Bytes

abbrev pub common_weak_passwords : List Text
common_weak_passwords =
    codes "passwordpassword" ∷ codes "password12345678" ∷ codes "qwertyuiopasdfgh" ∷ []

unfoldable pub contains : ℕ → Text → Bool
contains c [] = false
contains c (d ∷ ds) = c == d || contains c ds

-- `len(set(password))`
unfoldable pub distinct : Text → ℕ
distinct [] = 0
distinct (c ∷ cs) = let rest = distinct cs in if contains c cs then rest else suc rest

-- The lines that are authenticated with the key, joined by newlines. A suite that UTF-8 cannot
-- encode raises a `ValueError`.
unfoldable pub private_key_metadata_aad : PrivateKeyPemMetadata → Result Bytes
private_key_metadata_aad m = do
  algorithm ← encoded m.kem_alg
  ok (
      codes "PQC-PRIVATE-KEY-METADATA-AAD"
      ++ 10 ∷ codes "format="
      ++ decimal m.format_version
      ++ 10 ∷ codes "algorithm="
      ++ algorithm
      ++ 10 ∷ codes "kdf="
      ++ m.kdf_name
      ++ 10 ∷ codes "kdf_n="
      ++ decimal m.kdf_n
      ++ 10 ∷ codes "kdf_r="
      ++ decimal m.kdf_r
      ++ 10 ∷ codes "kdf_p="
      ++ decimal m.kdf_p
      ++ 10 ∷ codes "salt="
      ++ b64encode m.salt
      ++ 10 ∷ codes "nonce="
      ++ b64encode m.nonce)

-- `folded` is `"".join(password.lower().split())`, over Python's tables of Unicode; `scrypt` is
-- the KDF of `cryptography` with the fixed parameters of the configuration.
module _ (folded : Text → Text) (scrypt : Bytes → Bytes → Bytes) (aes : AesGcm) where
  unfoldable pub validate_private_key_password : Option Text → Result Text
  validate_private_key_password none = err password_required_error
  validate_private_key_password (some password) = do
    ensure (not (is_empty password)) password_required_error
    ensure (leb private_key_min_password_chars (length password)) weak_password_error
    ensure (leb private_key_min_unique_chars (distinct password)) weak_password_error
    ensure (not (one_of (folded password) common_weak_passwords)) weak_password_error
    ok password

  unfoldable pub derive_key_from_password : Text → Bytes → Result Bytes
  derive_key_from_password password salt = do
    validate_private_key_password (some password)
    password_bytes ← encoded password
    ok (scrypt password_bytes salt)

  unfoldable pub new_metadata : Text → Bytes → Bytes → PrivateKeyPemMetadata
  new_metadata suite salt nonce = record {
    format_version = private_key_format_version;
    kem_alg = suite;
    kdf_name = private_key_kdf_alg;
    kdf_n = scrypt_n;
    kdf_r = scrypt_r;
    kdf_p = scrypt_p;
    salt = salt;
    nonce = nonce;
  }

  unfoldable pub encrypted :
      Bytes → Bytes → Bytes → Text → Text → Result (Option (PrivateKeyPemMetadata × Bytes))
  encrypted salt nonce raw_private_key password suite = do
    validate_private_key_password (some password)
    derived_key ← derive_key_from_password password salt
    aad ← private_key_metadata_aad (new_metadata suite salt nonce)
    ok (some (new_metadata suite salt nonce, aes.encrypt derived_key nonce aad raw_private_key))

  -- `salt` and `nonce` are what `os.urandom` draws.
  unfoldable pub encrypt_private_key :
      Bytes → Bytes → Bytes → Text → Text → Option (PrivateKeyPemMetadata × Bytes)
  encrypt_private_key salt nonce raw_private_key password suite =
      or_none (encrypted salt nonce raw_private_key password suite)

  -- A value that is present and not empty.
  unfoldable pub filled : Option Bytes → Option Bytes
  filled none = none
  filled (some []) = none
  filled (some (b ∷ bs)) = some (b ∷ bs)

  unfoldable pub is_number : Option ℕ → ℕ → Bool
  is_number none n = false
  is_number (some m) n = m == n

  unfoldable pub is_text : Option Text → Text → Bool
  is_text none t = false
  is_text (some u) t = list_eq u t

  unfoldable pub kdf_supported : EncryptedKeyData → Bool
  kdf_supported d =
      is_text d.kdf private_key_kdf_alg
      && is_number d.kdf_n scrypt_n
      && is_number d.kdf_r scrypt_r
      && is_number d.kdf_p scrypt_p

  unfoldable pub known_metadata :
      Option ℕ → Option Text → Bytes → Bytes → Option PrivateKeyPemMetadata
  known_metadata none suite salt nonce = none
  known_metadata (some v) none salt nonce = none
  known_metadata (some v) (some suite) salt nonce =
      if contains v supported_private_key_format_versions && is_allowed_key_algorithm (some suite)
      then some (record {
        format_version = v;
        kem_alg = suite;
        kdf_name = private_key_kdf_alg;
        kdf_n = scrypt_n;
        kdf_r = scrypt_r;
        kdf_p = scrypt_p;
        salt = salt;
        nonce = nonce;
      })
      else none

  -- The metadata that was authenticated; key files without a format version are not allowed.
  unfoldable pub authenticated_metadata :
      EncryptedKeyData → Bytes → Bytes → Option PrivateKeyPemMetadata
  authenticated_metadata d salt nonce = known_metadata d.format_version d.kem_alg salt nonce

  unfoldable pub open_key : PrivateKeyPemMetadata → Bytes → Bytes → Option Bytes
  open_key m key password_bytes = elim (private_key_metadata_aad m) [
    | err e ↦ none
    | ok aad ↦ aes.decrypt (scrypt password_bytes m.salt) m.nonce aad key
  ]

  unfoldable pub decrypt_private_key : EncryptedKeyData → Text → Option Bytes
  decrypt_private_key d password =
      if is_empty password
      then none
      else and_then (filled d.salt) (λ salt. and_then (filled d.nonce) (λ nonce.
        and_then (filled d.encrypted_key) (λ key.
          if not (kdf_supported d)
          then none
          else and_then (authenticated_metadata d salt nonce) (λ m.
            and_then (encode_utf8 password) (λ password_bytes. open_key m key password_bytes)))))
