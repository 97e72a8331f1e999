-- ===== src/Encryption.antt =====
-- crypto_core.py: encryption and decryption of a whole file in memory, and the generation of keys.
-- The functions log what goes wrong and return None; so does the model, without the log.
pub mod Opened
mod Examples
use quantum_encryptor.Prelude.{
  ℕ, ◌+◌, Bool, true, false, ◌||◌, ◌&&◌, not, Option, none, some, List, [], ◌∷◌, ◌++◌, Bytes, Text,
  length, is_empty, list_eq, ltb, leb, ◌==◌, if◌then◌else◌,
}
use quantum_encryptor.Config.{
  kem_alg, hybrid_kem_alg, max_file_bytes, max_kem_alg_name_bytes, format_version,
}
use quantum_encryptor.Failure.{
  Failure, Result, ok, err, key_error, ensure, value_error, unsupported_algorithm_error, ◌>>=◌,
  ◌>>◌,
}
use quantum_encryptor.Backend.{Primitives, Oqs, AesGcm}
use quantum_encryptor.Keys.{
  public, private, validate_key_material, unpack_hybrid_key, pack_hybrid_key,
}
use quantum_encryptor.Kem.{
  require_oqs, resolve_kem_algorithm, resolve_decryption_kem_algorithms,
  derive_hybrid_symmetric_key, derive_symmetric_key_hkdf, encoded,
}
use quantum_encryptor.Container.{EncryptedFileParts, parse_encrypted_file_parts}
use quantum_encryptor.Stream.Suite.{Entropy, exchanged, new_header_bytes}

-- `expected and n != expected`, for an entry of `details` that may be missing or zero.
unfoldable pub differs : Option ℕ → ℕ → Bool
differs none n = false
differs (some expected) n = not (expected == 0) && not (n == expected)

-- What a function that logs every exception returns.
unfoldable pub or_none {ℓ} : {A : Type ℓ} → Result (Option A) → Option A
or_none (err e) = none
or_none (ok o) = o

module _ (lib : Primitives) (aes : AesGcm) (backend : Option Oqs) where
  -- From the encapsulated secret on: the container, unless the suite's name is too long for it.
  unfoldable pub sealed_file :
      Entropy → Bytes → Bytes → Bytes × Bytes → Text → Result (Option Bytes)
  sealed_file entropy input_data recipient made suite = do
    let ephemeral = lib.x25519_public entropy.ephemeral_private
    x_secret ← exchanged value_error (lib.x25519_exchange entropy.ephemeral_private recipient)
    aes_key ← derive_hybrid_symmetric_key lib made.1 x_secret ephemeral recipient suite
    name ← encoded suite
    let header_aad = new_header_bytes name made.0 ephemeral entropy.nonce
    (if ltb max_kem_alg_name_bytes (length name)
        then ok none
        else ok (some (header_aad ++ aes.encrypt aes_key entropy.nonce header_aad input_data)))

  unfoldable pub encapsulated : Oqs → Text → Entropy → Bytes → Option (Bytes × Bytes)
  encapsulated oqs resolved entropy mlkem_public =
      let made = oqs.encap_secret resolved entropy.encapsulation mlkem_public in
      if differs (oqs.length_public_key resolved) (length mlkem_public)
      then none
      else if differs (oqs.length_ciphertext resolved) (length made.0)
      then none
      else some made

  unfoldable pub encrypt_checked : Entropy → Bytes → Bytes → Text → Result (Option Bytes)
  encrypt_checked entropy input_data public_key suite = do
    ensure (list_eq suite hybrid_kem_alg) unsupported_algorithm_error
    recipient ← unpack_hybrid_key lib public_key public
    resolved ← resolve_kem_algorithm backend (some kem_alg)
    oqs ← require_oqs backend
    elim (encapsulated oqs resolved entropy recipient.1) [
      | none ↦ ok none
      | some made ↦ sealed_file entropy input_data recipient.0 made suite
    ]

  unfoldable pub encrypt_file_pro : Entropy → Bytes → Bytes → Text → Option Bytes
  encrypt_file_pro entropy input_data public_key suite =
      if ltb max_file_bytes (length input_data)
      then none
      else or_none (encrypt_checked entropy input_data public_key suite)

  -- The X25519 secret and the recipient's public key for version 4, and the ML-KEM private key.
  unfoldable pub established : EncryptedFileParts → Bytes → Result (Option (Bytes × Bytes) × Bytes)
  established parts secret_key =
      if parts.metadata.version == format_version
      then (do
        unpacked ← unpack_hybrid_key lib secret_key private
        x_secret ←
            exchanged value_error (lib.x25519_exchange unpacked.0 parts.x25519_ephemeral_public)
        ok (some (x_secret, lib.x25519_public unpacked.0), unpacked.1))
      else ok (none, secret_key)

  unfoldable pub file_key : EncryptedFileParts → Option (Bytes × Bytes) → Bytes → Result Bytes
  file_key parts none secret = ok (derive_symmetric_key_hkdf lib secret)
  file_key parts (some x) secret =
      derive_hybrid_symmetric_key lib secret x.0 parts.x25519_ephemeral_public x.1
        parts.metadata.kem_alg

  -- `len(key) == details["length_secret_key"]`, which raises `KeyError` without the entry.
  unfoldable pub secret_key_fits : Option ℕ → ℕ → Result Bool
  secret_key_fits none n = err key_error
  secret_key_fits (some expected) n = ok (n == expected)

  unfoldable pub compatible : Oqs → EncryptedFileParts → Bytes → Text → Result Bool
  compatible oqs parts mlkem_private candidate =
      secret_key_fits (oqs.length_secret_key candidate) (length mlkem_private) >>= λ fits.
      ok (
        fits && not (differs (oqs.length_ciphertext candidate) parts.metadata.kem_ciphertext_bytes))

  -- The loop over the candidates: the first whose key opens the payload.
  unfoldable pub open_with :
      Oqs → EncryptedFileParts → Option (Bytes × Bytes) × Bytes → List Text → Result (Option Bytes)
  open_with oqs parts shares [] = ok none
  open_with oqs parts shares (candidate ∷ later) =
      let rest = open_with oqs parts shares later in
      compatible oqs parts shares.1 candidate >>= λ fits.
      if fits
      then (do
        secret ← oqs.decap_secret candidate shares.1 parts.ciphertext_kem
        aes_key ← file_key parts shares.0 secret
        elim (aes.decrypt aes_key parts.nonce parts.header_aad parts.encrypted_data_aes) [
          | some plain ↦ ok (some plain)
          | none ↦ rest
        ])
      else rest

  -- `expected_kem_alg is not None and` the names differ.
  unfoldable pub another_suite : Option Text → Text → Bool
  another_suite none suite = false
  another_suite (some expected) suite = not (list_eq expected suite)

  unfoldable pub decrypt_parts : EncryptedFileParts → Bytes → Result (Option Bytes)
  decrypt_parts parts secret_key = do
    validate_key_material lib secret_key parts.metadata.kem_alg private
    shares ← established parts secret_key
    candidates ← resolve_decryption_kem_algorithms backend parts.metadata.kem_alg
    oqs ← require_oqs backend
    open_with oqs parts shares candidates

  unfoldable pub decrypt_parsed :
      Result EncryptedFileParts → Bytes → Option Text → Option Bytes × Option Text
  decrypt_parsed (err e) secret_key expected = (none, none)
  decrypt_parsed (ok parts) secret_key expected =
      if another_suite expected parts.metadata.kem_alg
      then (none, some parts.metadata.kem_alg)
      else (or_none (decrypt_parts parts secret_key), some parts.metadata.kem_alg)

  unfoldable pub decrypt_file_pro : Bytes → Bytes → Option Text → Option Bytes × Option Text
  decrypt_file_pro blob secret_key expected =
      decrypt_parsed (parse_encrypted_file_parts blob) secret_key expected

  -- `length == details[name]` of a mechanism that has a positive entry.
  unfoldable pub generated_size : Option ℕ → Bytes → Bool
  generated_size none key = false
  generated_size (some n) key = not (n == 0) && not (is_empty key) && length key == n

  unfoldable pub generate_checked : Bytes → Text → Result (Option (Bytes × Bytes))
  generate_checked entropy name = do
    resolved ← resolve_kem_algorithm backend (some name)
    oqs ← require_oqs backend
    let keys = oqs.generate_keypair resolved entropy
    (if not (
          generated_size (oqs.length_public_key resolved) keys.0
          && generated_size (oqs.length_secret_key resolved) keys.1)
        then ok none
        else (do
          validate_key_material lib keys.0 resolved public
          validate_key_material lib keys.1 resolved private
          ok (some keys)))

  unfoldable pub generate_oqs_keys : Bytes → Text → Option (Bytes × Bytes)
  generate_oqs_keys entropy name = or_none (generate_checked entropy name)

  -- Both halves packed; an exception of `pack_hybrid_key` goes to the caller.
  unfoldable pub packed : Bytes → Option (Bytes × Bytes) → Result (Option (Bytes × Bytes))
  packed x25519_private none = ok none
  packed x25519_private (some keys) = do
    hybrid_public ← pack_hybrid_key lib (lib.x25519_public x25519_private) keys.0
    hybrid_private ← pack_hybrid_key lib x25519_private keys.1
    ok (some (hybrid_public, hybrid_private))

  unfoldable pub generate_hybrid_keys : Bytes → Bytes → Text → Result (Option (Bytes × Bytes))
  generate_hybrid_keys entropy x25519_private name =
      if list_eq name kem_alg
      then packed x25519_private (generate_oqs_keys entropy name)
      else ok none
