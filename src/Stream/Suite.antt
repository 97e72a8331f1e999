-- ===== src/Stream/Suite.antt =====
-- crypto_stream.py: `encrypted_size_limit`, the header and key of a new container, and the keys
-- under which an existing container may have been sealed.
use quantum_encryptor.Prelude.{
  ℕ, ◌+◌, Bool, true, ◌&&◌, Option, none, some, List, [], ◌∷◌, ◌++◌, Bytes, Text, length, list_eq,
  to_be, leb, ◌==◌, if◌then◌else◌,
}
use quantum_encryptor.Config.{
  kem_alg, hybrid_kem_alg, magic_bytes, format_version, header_base_bytes, max_kem_alg_name_bytes,
  max_kem_ciphertext_bytes, x25519_key_bytes, aes_nonce_bytes, aes_tag_bytes, max_stream_file_bytes,
}
use quantum_encryptor.Failure.{
  Failure, Result, ok, err, key_error, ensure, value_error, unsupported_algorithm_error,
  invalid_key_format_error, crypto_core_error, authentication_failed_error, file_format_error,
  ◌>>=◌, ◌>>◌,
}
use quantum_encryptor.Backend.{Primitives, Oqs}
use quantum_encryptor.Keys.{public, private, unpack_hybrid_key, validate_key_material}
use quantum_encryptor.Kem.{
  require_oqs, resolve_kem_algorithm, resolve_decryption_kem_algorithms,
  derive_hybrid_symmetric_key, derive_symmetric_key_hkdf, encoded,
}
use quantum_encryptor.Container.{EncryptedFileHeader, plausible}

abbrev pub container_overhead : ℕ
container_overhead =
    header_base_bytes + 2 + max_kem_alg_name_bytes + 4 + max_kem_ciphertext_bytes + x25519_key_bytes
    + aes_nonce_bytes + aes_tag_bytes

unfoldable pub encrypted_size_limit : ℕ → Result ℕ
encrypted_size_limit max_file_bytes =
    if leb max_file_bytes max_stream_file_bytes
    then ok (max_file_bytes + container_overhead)
    else err value_error

-- What the operating system draws for one encryption.
pub record Entropy : Type 0 where
  pub encapsulation : Bytes
  pub ephemeral_private : Bytes
  pub nonce : Bytes

-- `details.get(name, n) == n`
unfoldable pub agrees : Option ℕ → ℕ → Bool
agrees none n = true
agrees (some m) n = m == n

unfoldable pub new_header_bytes : Bytes → Bytes → Bytes → Bytes → Bytes
new_header_bytes suite ciphertext ephemeral nonce =
    magic_bytes
    ++ to_be 2 format_version
    ++ to_be 2 (length suite)
    ++ suite
    ++ to_be 4 (length ciphertext)
    ++ ciphertext
    ++ ephemeral
    ++ nonce

unfoldable pub exchanged : Failure → Option Bytes → Result Bytes
exchanged failure none = err failure
exchanged failure (some secret) = ok secret

module _ (lib : Primitives) (backend : Option Oqs) where
  -- The ciphertext and the secret that a checked encapsulation gives.
  unfoldable pub encapsulate : Oqs → Text → Bytes → Bytes → Result (Bytes × Bytes)
  encapsulate oqs resolved entropy mlkem_public = do
    ensure (agrees (oqs.length_public_key resolved) (length mlkem_public)) invalid_key_format_error
    let made = oqs.encap_secret resolved entropy mlkem_public
    ensure
        (plausible max_kem_ciphertext_bytes (length made.0)
          && agrees (oqs.length_ciphertext resolved) (length made.0))
        crypto_core_error
    ok made

  unfoldable pub new_encryption_header :
      Entropy → Bytes → Text → Result (EncryptedFileHeader × Bytes)
  new_encryption_header entropy public_key suite = do
    ensure (list_eq suite hybrid_kem_alg) unsupported_algorithm_error
    recipient ← unpack_hybrid_key lib public_key public
    resolved ← resolve_kem_algorithm backend (some kem_alg)
    oqs ← require_oqs backend
    made ← encapsulate oqs resolved entropy.encapsulation recipient.1
    let ephemeral = lib.x25519_public entropy.ephemeral_private
    x_secret ← exchanged value_error (lib.x25519_exchange entropy.ephemeral_private recipient.0)
    key ← derive_hybrid_symmetric_key lib made.1 x_secret ephemeral recipient.0 suite
    name ← encoded suite
    ok (
      record {
        version = format_version;
        kem_alg = suite;
        header_aad = new_header_bytes name made.0 ephemeral entropy.nonce;
        ciphertext_kem = made.0;
        x25519_ephemeral_public = ephemeral;
        nonce = entropy.nonce;
      },
      key,
    )

  -- The X25519 share of a decryption, with the recipient's public key; none for version 3.
  pub record Shares : Type 0 where
    pub x_secret : Option Bytes
    pub recipient_public : Bytes
    pub mlkem_private : Bytes

  unfoldable pub shares : EncryptedFileHeader → Bytes → Result Shares
  shares header private_key =
      if header.version == format_version
      then (do
        parts ← unpack_hybrid_key lib private_key private
        x_secret ←
            exchanged file_format_error (lib.x25519_exchange parts.0 header.x25519_ephemeral_public)
        ok (record {
          x_secret = some x_secret;
          recipient_public = lib.x25519_public parts.0;
          mlkem_private = parts.1;
        }))
      else ok (record { x_secret = none; recipient_public = []; mlkem_private = private_key })

  unfoldable pub content_key : EncryptedFileHeader → Shares → Bytes → Result Bytes
  content_key header s secret = elim s.x_secret [
    | some x ↦
        derive_hybrid_symmetric_key lib secret x header.x25519_ephemeral_public s.recipient_public
          header.kem_alg
    | none ↦ ok (derive_symmetric_key_hkdf lib secret)
  ]

  -- `len(mlkem_private) == details["length_secret_key"]` and the length of the ciphertext; a missing
  -- first entry raises `KeyError`.
  unfoldable pub fits_mechanism : Oqs → EncryptedFileHeader → Shares → Text → Result Bool
  fits_mechanism oqs header s candidate = elim (oqs.length_secret_key candidate) [
    | none ↦ err key_error
    | some expected ↦ ok (
        length s.mlkem_private == expected
        && agrees (oqs.length_ciphertext candidate) (length header.ciphertext_kem))
  ]

  unfoldable pub keys_of : Oqs → EncryptedFileHeader → Shares → List Text → Result (List Bytes)
  keys_of oqs header s [] = ok []
  keys_of oqs header s (candidate ∷ later) =
      let rest = keys_of oqs header s later in
      fits_mechanism oqs header s candidate >>= λ fits.
      if fits
      then (do
        secret ← oqs.decap_secret candidate s.mlkem_private header.ciphertext_kem
        key ← content_key header s secret
        keys ← rest
        ok (key ∷ keys))
      else rest

  unfoldable pub some_key : List Bytes → Result (List Bytes)
  some_key [] = err invalid_key_format_error
  some_key (k ∷ ks) = ok (k ∷ ks)

  unfoldable pub expected_suite : Option Text → Text → Result (Unit {0})
  expected_suite none suite = ok tt
  expected_suite (some expected) suite = ensure (list_eq expected suite) authentication_failed_error

  unfoldable pub candidate_keys : EncryptedFileHeader → Bytes → Option Text → Result (List Bytes)
  candidate_keys header private_key expected = do
    expected_suite expected header.kem_alg
    validate_key_material lib private_key header.kem_alg private
    s ← shares header private_key
    candidates ← resolve_decryption_kem_algorithms backend header.kem_alg
    oqs ← require_oqs backend
    keys ← keys_of oqs header s candidates
    some_key keys
