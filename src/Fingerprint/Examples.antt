-- ===== src/Fingerprint/Examples.antt =====
-- The fingerprint of a concrete key.
use quantum_encryptor.Prelude.{◌≡◌, refl, some, Text, arith, replicate, codes, list_eq, one_of}
use quantum_encryptor.Failure.{ok}
use quantum_encryptor.Algorithms.{is_hybrid_key_algorithm, is_allowed_key_algorithm}
use quantum_encryptor.Backend.{Primitives, Sha3Law}
use quantum_encryptor.Keys.{
  validate_key_material, validate_key_length, expected_key_bytes, validate_public_key,
  validate_mlkem_public_key, mlkem_key_component, coefficients_canonical,
}
use quantum_encryptor.Fingerprint.{
  hex, hex_digit, encode_ascii, all_ascii, get_public_key_fingerprint,
  validate_recipient_fingerprint,
}
use quantum_encryptor.Fingerprint.Canonical.{get_public_key_fingerprint_accepted}

-- A hash that is always 171, which is `ab`.
abbrev flat_primitives : Primitives
flat_primitives = record {
  sha3_256 = λ d. replicate 32 171;
  hkdf_sha256 = λ n salt info secret. replicate 32 5;
  x25519_public = λ d. replicate 32 1;
  x25519_exchange = λ a b. some (replicate 32 3);
}

flat-Sha3Law : Sha3Law flat_primitives
flat-Sha3Law = record { digest_size = λ d. refl; digest_bytes = λ d. omega arith }

abbrev flat_fingerprint : Text
flat_fingerprint =
    codes "QE1-SHA3-256:abababababababababababababababababababababababababababababababab"

run_of_fingerprint :
    get_public_key_fingerprint flat_primitives (replicate 1184 0) (codes "Kyber768")
    ≡ ok flat_fingerprint
unfolding get_public_key_fingerprint encode_ascii all_ascii hex hex_digit validate_key_material
    validate_key_length expected_key_bytes validate_public_key validate_mlkem_public_key
    mlkem_key_component coefficients_canonical is_hybrid_key_algorithm is_allowed_key_algorithm
    list_eq one_of
run_of_fingerprint = refl

get_public_key_fingerprint_accepted_example :
    validate_recipient_fingerprint flat_primitives flat_fingerprint ≡ ok flat_fingerprint
get_public_key_fingerprint_accepted_example =
    get_public_key_fingerprint_accepted flat_primitives flat-Sha3Law (replicate 1184 0)
      (codes "Kyber768") run_of_fingerprint
