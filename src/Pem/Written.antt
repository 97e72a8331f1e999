-- ===== src/Pem/Written.antt =====
-- The parser takes what `save_key_pem` writes.
use quantum_encryptor.Prelude.{
  ℕ, ◌+◌, ◌*◌, ◌≤◌, ◌≡◌, refl, ◌∙◌, true, false, none, some, List, ◌∷◌, arith, Bytes, Text, All,
  IsByte, length,
}
use quantum_encryptor.Config.{
  max_pem_bytes, scrypt_salt_bytes, aes_nonce_bytes, aes_tag_bytes, private_key_format_version,
  pem_public_header, pem_public_footer, pem_private_header, pem_private_footer,
  pem_proc_type_header,
}
use quantum_encryptor.Failure.{ok}
use quantum_encryptor.Algorithms.{is_allowed_key_algorithm}
use quantum_encryptor.Backend.{Primitives, AesGcm}
use quantum_encryptor.Keys.{public, private, expected_key_bytes, validate_key_material}
use quantum_encryptor.PrivateKey.{PrivateKeyPemMetadata, new_metadata}
use quantum_encryptor.Pem.{parse_key_pem_strict}
use quantum_encryptor.Pem.Files.{text_of, public_pem, private_pem}
use quantum_encryptor.Pem.Layout.{length-text_of_cons, file_size}
use quantum_encryptor.Pem.Parsed.{
  public-IsBoundary, private-IsBoundary, parse_file, valid_size, allowed_size, algorithm_lines,
  algorithm_lines-IsClean, length-algorithm_lines, parse_public_lines,
}
use quantum_encryptor.Pem.Envelope.{
  metadata_lines, format_line, kdf_line, dek_line, envelope, format_line_lem, kdf_line_lem,
  metadata_lines-IsClean, length-dek_line, parse_private_lines,
}

module _ (folded : Text → Text) (scrypt : Bytes → Bytes → Bytes) (aes : AesGcm)
    (lib : Primitives) where
  pub parse-public_pem :
      (key : Bytes) (kem_alg : Text)
      → is_allowed_key_algorithm (some kem_alg) ≡ true
      → validate_key_material lib key kem_alg public ≡ ok tt
      → All IsByte key
      → parse_key_pem_strict lib (public_pem key kem_alg)
        ≡ ok (record {
          kem_alg = kem_alg;
          key_type = public;
          is_encrypted = false;
          payload = key;
          private_envelope = none;
        })
  unfolding public_pem
  parse-public_pem key kem_alg allowed valid bytes =
      let (n, expected, size) = valid_size lib key kem_alg public valid in
      let (low, high) = allowed_size kem_alg public n expected in
      let lines = algorithm_lines kem_alg key in
      parse_file lib pem_public_header pem_public_footer public lines public-IsBoundary
        (algorithm_lines-IsClean lib kem_alg key allowed bytes)
        (file_size pem_public_header pem_public_footer lines (4 * length key + 50) max_pem_bytes
          (length-algorithm_lines lib kem_alg key allowed) (omega arith))
      ∙ parse_public_lines lib kem_alg key allowed valid bytes (omega arith) (omega arith)

  metadata_size :
      (salt nonce : Bytes) (rest : List Text) (n : ℕ)
      → length salt ≡ scrypt_salt_bytes
      → length nonce ≡ aes_nonce_bytes
      → length (text_of rest) ≤ n
      → length (text_of (metadata_lines salt nonce rest)) ≤ n + 300
  metadata_size salt nonce rest n ls ln h = omega (
    arith,
    length-text_of_cons format_line (pem_proc_type_header ∷ dek_line salt nonce ∷ kdf_line ∷ rest),
    length-text_of_cons pem_proc_type_header (dek_line salt nonce ∷ kdf_line ∷ rest),
    length-text_of_cons (dek_line salt nonce) (kdf_line ∷ rest),
    length-text_of_cons kdf_line rest,
    length-dek_line salt nonce,
  )

  parse-private_pem :
      (m : PrivateKeyPemMetadata) (key : Bytes) (n : ℕ)
      → m.format_version ≡ private_key_format_version
      → is_allowed_key_algorithm (some m.kem_alg) ≡ true
      → expected_key_bytes m.kem_alg private ≡ ok n
      → length key ≡ n + aes_tag_bytes
      → All IsByte key
      → All IsByte m.salt
      → All IsByte m.nonce
      → length m.salt ≡ scrypt_salt_bytes
      → length m.nonce ≡ aes_nonce_bytes
      → parse_key_pem_strict lib (private_pem m key)
        ≡ ok (record {
          kem_alg = m.kem_alg;
          key_type = private;
          is_encrypted = true;
          payload = key;
          private_envelope = some (envelope m.salt m.nonce);
        })
  unfolding private_pem
  parse-private_pem m key n version allowed expected size bytes bs bn ls ln =
      let (low, high) = allowed_size m.kem_alg private n expected in
      let inner = algorithm_lines m.kem_alg key in
      let lines = metadata_lines m.salt m.nonce inner in
      rw (version, format_line_lem, kdf_line_lem)
        (parse_file lib pem_private_header pem_private_footer private lines private-IsBoundary
            (metadata_lines-IsClean m.salt m.nonce inner bs bn
              (algorithm_lines-IsClean lib m.kem_alg key allowed bytes))
            (file_size pem_private_header pem_private_footer lines (4 * length key + 50 + 300)
              max_pem_bytes
              (metadata_size m.salt m.nonce inner (4 * length key + 50) ls ln
                (length-algorithm_lines lib m.kem_alg key allowed))
              (omega arith))
          ∙ parse_private_lines lib m.kem_alg key m.salt m.nonce n allowed expected size high bytes
              bs bn ls ln)

  pub parse-new_pem :
      (key salt nonce : Bytes) (kem_alg : Text) (n : ℕ)
      → is_allowed_key_algorithm (some kem_alg) ≡ true
      → expected_key_bytes kem_alg private ≡ ok n
      → length key ≡ n + aes_tag_bytes
      → All IsByte key
      → All IsByte salt
      → All IsByte nonce
      → length salt ≡ scrypt_salt_bytes
      → length nonce ≡ aes_nonce_bytes
      → parse_key_pem_strict lib
          (private_pem (new_metadata folded scrypt aes kem_alg salt nonce) key)
        ≡ ok (record {
          kem_alg = kem_alg;
          key_type = private;
          is_encrypted = true;
          payload = key;
          private_envelope = some (envelope salt nonce);
        })
  unfolding new_metadata
  parse-new_pem key salt nonce kem_alg n = parse-private_pem _ key n refl
