-- ===== src/Encryption/Examples.antt =====
-- A concrete decryption of a version 3 container, and the theorem at it.
use quantum_encryptor.Prelude.{
  ◌≡◌, refl, none, some, [], ◌∷◌, ◌++◌, Bytes, Text, replicate, codes, list_eq, one_of, from_be,
}
use quantum_encryptor.Prelude.Utf8.{decode_utf8}
use quantum_encryptor.Failure.{ok}
use quantum_encryptor.Algorithms.{
  is_hybrid_key_algorithm, is_allowed_kem_algorithm, is_allowed_key_algorithm,
}
use quantum_encryptor.Backend.{Primitives, Oqs, AesGcm}
use quantum_encryptor.Keys.{
  validate_key_material, validate_key_length, expected_key_bytes, validate_mlkem_private_key,
  validate_mlkem_public_key, mlkem_key_component, embedded_public_key, embedded_hash,
  coefficients_canonical,
}
use quantum_encryptor.Kem.{
  require_oqs, listed, enabled_kem_mechanisms, resolve_kem_algorithm,
  resolve_decryption_kem_algorithms, derive_symmetric_key_hkdf,
}
use quantum_encryptor.Container.{
  metadata, bytes_io, payload_parts, parse_encrypted_file_parts, version_supported, suite_allowed,
  read_encrypted_file_header, read_fields, read_version, read_suite, read_ciphertext, read_x25519,
  read_exact, read_exact_loop, fetch, checked_part, plausible, decoded_suite,
}
use quantum_encryptor.Encryption.{
  differs, or_none, established, file_key, secret_key_fits, compatible, open_with, another_suite,
  decrypt_parts, decrypt_parsed, decrypt_file_pro,
}
use quantum_encryptor.Encryption.Opened.{Decrypted, decrypt_file_pro-Decrypted}

abbrev constant_primitives : Primitives
constant_primitives = record {
  sha3_256 = λ d. replicate 32 0;
  hkdf_sha256 = λ n salt info secret. replicate 32 5;
  x25519_public = λ d. replicate 32 1;
  x25519_exchange = λ a b. some (replicate 32 3);
}

abbrev kyber_name : Text
kyber_name = codes "Kyber768"

abbrev constant_oqs : Oqs
constant_oqs = record {
  enabled = some (kyber_name ∷ []);
  length_public_key = λ k. some 1184;
  length_secret_key = λ k. some 2400;
  length_ciphertext = λ k. none;
  encap_secret = λ k r d. (7 ∷ [], replicate 32 4);
  decap_secret = λ k sk ct. ok (replicate 32 4);
  generate_keypair = λ k r. ([], []);
}

-- It opens whatever it is given.
abbrev open_gcm : AesGcm
open_gcm = record {
  encrypt = λ key nonce aad plain. plain ++ replicate 16 0;
  decrypt = λ key nonce aad sealed. some sealed;
}

abbrev old_payload : Bytes
old_payload = 65 ∷ 66 ∷ 67 ∷ replicate 16 0

abbrev old_blob : Bytes
old_blob =
    codes "PQCENC"
    ++ 0 ∷ 3 ∷ 0 ∷ 8 ∷ kyber_name
    ++ 0 ∷ 0 ∷ 0 ∷ 1 ∷ 7 ∷ replicate 12 2
    ++ old_payload

run_of_decryption :
    decrypt_file_pro constant_primitives open_gcm
      (some constant_oqs)
      old_blob
      (replicate 2400 0)
      (some kyber_name)
    ≡ (some old_payload, some kyber_name)
unfolding decrypt_file_pro decrypt_parsed decrypt_parts another_suite open_with compatible
    secret_key_fits differs file_key established or_none parse_encrypted_file_parts payload_parts
    bytes_io metadata read_encrypted_file_header read_fields read_version read_suite read_ciphertext
    read_x25519 read_exact read_exact_loop fetch checked_part plausible decoded_suite decode_utf8
    version_supported suite_allowed validate_key_material validate_key_length expected_key_bytes
    validate_mlkem_private_key validate_mlkem_public_key mlkem_key_component embedded_public_key
    embedded_hash coefficients_canonical resolve_decryption_kem_algorithms resolve_kem_algorithm
    enabled_kem_mechanisms require_oqs listed derive_symmetric_key_hkdf is_hybrid_key_algorithm
    is_allowed_kem_algorithm is_allowed_key_algorithm list_eq one_of from_be
run_of_decryption = refl

decrypt_file_pro-Decrypted_example :
    Decrypted constant_primitives open_gcm
      (some constant_oqs)
      old_blob
      (replicate 2400 0)
      (some kyber_name)
      old_payload
      kyber_name
decrypt_file_pro-Decrypted_example =
    decrypt_file_pro-Decrypted constant_primitives open_gcm (some constant_oqs) old_blob
      (replicate 2400 0) (some kyber_name) run_of_decryption
