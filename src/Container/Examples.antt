-- ===== src/Container/Examples.antt =====
-- Concrete runs of the container code, and its theorems at concrete inputs.
use quantum_encryptor.Prelude.{
  ◌≡◌, ◌↔◌, refl, some, [], ◌∷◌, ◌++◌, arith, Bytes, take, drop, replicate, take-append-drop,
  length-take, sym, codes, list_eq, one_of, to_be, from_be,
}
use quantum_encryptor.Prelude.Utf8.{decode_utf8}
use quantum_encryptor.Config.{hybrid_kem_alg}
use quantum_encryptor.Failure.{ok, err, file_format_error, unsupported_algorithm_error}
use quantum_encryptor.Algorithms.{is_hybrid_key_algorithm}
use quantum_encryptor.Container.Source.{BinaryReader, IsSteady}
use quantum_encryptor.Container.Format.{IsLegal, layout}
use quantum_encryptor.Container.Accepts.{read_header_complete}
use quantum_encryptor.Container.Sound.{read_header-IsLegal}
use quantum_encryptor.Container.Memory.{
  IsContainer, parts_of, bytes_io-IsFaithful, parse_encrypted_file_parts_iff,
}
use quantum_encryptor.Container.{
  EncryptedFileHeader, bytes_io, read_encrypted_file_header, parse_encrypted_file_parts,
  version_supported, suite_allowed, read_fields, read_version, read_suite, read_ciphertext,
  read_x25519, read_exact, read_exact_loop, fetch, checked_part, plausible, decoded_suite,
  payload_parts,
}

abbrev sample_fields : Bytes → EncryptedFileHeader
sample_fields aad = record {
  version = 4;
  kem_alg = hybrid_kem_alg;
  header_aad = aad;
  ciphertext_kem = 7 ∷ 8 ∷ 9 ∷ [];
  x25519_ephemeral_public = replicate 32 1;
  nonce = replicate 12 2;
}

abbrev sample : EncryptedFileHeader
sample = sample_fields (layout (sample_fields []))

sample-IsLegal : IsLegal sample
unfolding version_supported suite_allowed is_hybrid_key_algorithm one_of list_eq
sample-IsLegal = record {
  version = refl;
  suite = refl;
  ciphertext_some = omega arith;
  ciphertext_fits = omega arith;
  x25519 = refl;
  nonce = refl;
  aad = refl;
}

-- A source that gives one byte at a time.
abbrev drip : BinaryReader Bytes
drip n s = (ok (some (take 1 s)), drop 1 s)

drip-IsSteady : IsSteady drip (λ s. s) (λ s. Unit {0})
drip-IsSteady = record {
  at = λ n s h good. (
    take 1 s,
    drop 1 s,
    refl,
    tt,
    sym (take-append-drop 1 s),
    omega (arith, length-take 1 s),
    λ k. omega (arith, length-take 1 s),
  );
}

read_header_complete_example :
    (t : Bytes) × (read_encrypted_file_header drip (layout sample ++ 5 ∷ []) ≡ (ok sample, t))
    × Unit {0}
    × (t ≡ 5 ∷ [])
read_header_complete_example =
    read_header_complete drip (λ s. s) drip-IsSteady sample (5 ∷ []) (layout sample ++ 5 ∷ [])
      sample-IsLegal tt refl

sample_read : read_encrypted_file_header bytes_io (layout sample ++ 5 ∷ []) ≡ (ok sample, 5 ∷ [])
unfolding read_encrypted_file_header read_fields read_version read_suite read_ciphertext read_x25519
    read_exact read_exact_loop fetch checked_part plausible decoded_suite version_supported
    suite_allowed is_hybrid_key_algorithm one_of list_eq to_be from_be decode_utf8 bytes_io
sample_read = refl

read_header-IsLegal_example : IsLegal sample × (layout sample ++ 5 ∷ [] ≡ layout sample ++ 5 ∷ [])
unfolding to_be
read_header-IsLegal_example =
    read_header-IsLegal bytes_io (λ s. s) bytes_io-IsFaithful sample_read (omega arith)

abbrev sample_payload : Bytes
sample_payload = replicate 20 3

sample-IsContainer : IsContainer (layout sample ++ sample_payload) (parts_of sample sample_payload)
sample-IsContainer = record {
  header = sample;
  payload = sample_payload;
  header_valid = sample-IsLegal;
  payload_valid = record { tagged = omega arith; fits = omega arith };
  spelled = refl;
  parts_given = refl;
}

parse_encrypted_file_parts_iff_example :
    (parse_encrypted_file_parts (layout sample ++ sample_payload)
      ≡ ok (parts_of sample sample_payload))
    ↔ IsContainer (layout sample ++ sample_payload) (parts_of sample sample_payload)
unfolding to_be
parse_encrypted_file_parts_iff_example =
    parse_encrypted_file_parts_iff (layout sample ++ sample_payload)
      (parts_of sample sample_payload) (omega arith)

-- A header that names a legacy suite with the current version is refused.
wrong_suite : Bytes
wrong_suite = codes "PQCENC" ++ (0 ∷ 4 ∷ 0 ∷ 10 ∷ (codes "ML-KEM-768" ++ replicate 60 0))

wrong_suite_refused : parse_encrypted_file_parts wrong_suite ≡ err unsupported_algorithm_error
unfolding parse_encrypted_file_parts wrong_suite payload_parts read_encrypted_file_header
    read_fields read_version read_suite read_ciphertext read_x25519 read_exact read_exact_loop fetch
    checked_part plausible decoded_suite version_supported suite_allowed is_hybrid_key_algorithm
    one_of list_eq to_be from_be decode_utf8 bytes_io
wrong_suite_refused = refl

truncated_refused : parse_encrypted_file_parts (codes "PQCENC" ++ 0 ∷ []) ≡ err file_format_error
unfolding parse_encrypted_file_parts payload_parts read_encrypted_file_header read_fields
    read_version read_suite read_ciphertext read_x25519 read_exact read_exact_loop fetch
    checked_part plausible decoded_suite version_supported suite_allowed is_hybrid_key_algorithm
    one_of list_eq to_be from_be decode_utf8 bytes_io
truncated_refused = refl
