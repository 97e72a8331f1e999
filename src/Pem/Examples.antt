-- ===== src/Pem/Examples.antt =====
-- Key files, written, loaded and given another password.
use quantum_encryptor.Prelude.{
  ◌≡◌, refl, sym, ◌∙◌, some, ◌++◌, arith, true, false, to_be, Bytes, Text, All, IsByte, replicate,
  codes, list_eq, one_of,
}
use quantum_encryptor.Prelude.Utf8.{encode_utf8}
use quantum_encryptor.Prelude.Strings.{digits, decimal}
use quantum_encryptor.Prelude.Base64.{base64_char, b64encode}
use quantum_encryptor.Algorithms.{is_allowed_key_algorithm, is_hybrid_key_algorithm}
use quantum_encryptor.Backend.{Primitives}
use quantum_encryptor.Kem.{encoded}
use quantum_encryptor.Encryption.{or_none}
use quantum_encryptor.Keys.{
  private, expected_key_bytes, validate_key_length, mlkem_key_component, coefficients_canonical,
  validate_mlkem_public_key, embedded_public_key, embedded_hash, validate_mlkem_private_key,
  validate_key_material, validate_public_key, public_half, get_public_key_from_private,
}
use quantum_encryptor.PrivateKey.{
  contains, distinct, private_key_metadata_aad, validate_private_key_password,
  derive_key_from_password, new_metadata, encrypted, encrypt_private_key,
}
use quantum_encryptor.PrivateKey.Examples.{
  plain_gcm, plain-GcmLaw, copies-IsByte, no_fold, copying_kdf, pass_phrase,
}
use quantum_encryptor.Pem.Files.{
  private_pem, given, encrypted_pem, valid_material, save_key_pem, LoadedKey, load_key_pem,
  rewrap_private_key_pem, inspect_key_pem_strict, inspect_parsed, private_info_of, unlocked,
  formatted, private_info,
}
use mathlib.Core.Path.{subst}
use quantum_encryptor.Config.{private_key_kdf_alg}
use quantum_encryptor.Failure.{ok}
use quantum_encryptor.Fingerprint.{
  fingerprint_prefix, hex, hex_digit, all_ascii, encode_ascii, fingerprint_input,
  get_public_key_fingerprint, get_private_key_public_fingerprint,
}
use quantum_encryptor.Pem.{is_private}
use quantum_encryptor.Pem.Written.{parse-new_pem}
use quantum_encryptor.Pem.Rewrapped.{rewrap_private_key_pem_lem}
use quantum_encryptor.Pem.RoundTrip.{load_key_pem-save_key_pem}

abbrev pub zero_hash : Primitives
zero_hash = record {
  sha3_256 = λ d. replicate 32 0;
  hkdf_sha256 = λ n salt info secret. replicate 32 5;
  x25519_public = λ d. replicate 32 1;
  x25519_exchange = λ a b. some (replicate 32 3);
}

abbrev pub zero_key : Bytes
zero_key = replicate 2400 0

abbrev pub key_file : Text
key_file =
    private_pem
      (new_metadata no_fold copying_kdf plain_gcm (codes "Kyber768") (replicate 16 1)
        (replicate 12 2))
      (replicate 2416 0)

run_of_save :
    save_key_pem no_fold copying_kdf plain_gcm zero_hash
      (replicate 16 1)
      (replicate 12 2)
      zero_key
      (codes "Kyber768")
      private
      (some pass_phrase)
    ≡ some key_file
unfolding save_key_pem valid_material given encrypted_pem encrypt_private_key encrypted
    validate_private_key_password derive_key_from_password new_metadata private_key_metadata_aad
    encoded encode_utf8 or_none contains distinct digits decimal base64_char b64encode list_eq
    one_of is_allowed_key_algorithm is_hybrid_key_algorithm expected_key_bytes validate_key_length
    mlkem_key_component coefficients_canonical validate_mlkem_public_key embedded_public_key
    embedded_hash validate_mlkem_private_key validate_key_material
run_of_save = refl

abbrev pub loaded_zero_key : LoadedKey
loaded_zero_key = record { raw = zero_key; kem_alg = codes "Kyber768"; key_type = private }

pub load_key_pem-save_key_pem_run :
    load_key_pem no_fold copying_kdf plain_gcm zero_hash key_file (some pass_phrase)
    ≡ some loaded_zero_key
load_key_pem-save_key_pem_run =
    load_key_pem-save_key_pem no_fold copying_kdf plain_gcm zero_hash plain-GcmLaw (replicate 16 1)
      (replicate 12 2) zero_key (codes "Kyber768") private (some pass_phrase)
      (copies-IsByte 0 2400 (omega arith)) (copies-IsByte 1 16 (omega arith))
      (copies-IsByte 2 12 (omega arith)) refl refl run_of_save

load_key_pem-save_key_pem_example :
    load_key_pem no_fold copying_kdf plain_gcm zero_hash key_file (some pass_phrase)
    ≡ some loaded_zero_key
load_key_pem-save_key_pem_example =
    load_key_pem-save_key_pem no_fold copying_kdf plain_gcm zero_hash plain-GcmLaw (replicate 16 1)
      (replicate 12 2) zero_key (codes "Kyber768") private (some pass_phrase)
      (copies-IsByte 0 2400 (omega arith)) (copies-IsByte 1 16 (omega arith))
      (copies-IsByte 2 12 (omega arith)) refl refl run_of_save

abbrev other_pass_phrase : Text
other_pass_phrase = codes "another pass phrase"

abbrev other_key_file : Text
other_key_file =
    private_pem
      (new_metadata no_fold copying_kdf plain_gcm (codes "Kyber768") (replicate 16 3)
        (replicate 12 4))
      (replicate 2416 0)

abbrev pub kyber_name : Text
kyber_name = codes "Kyber768"

allowed_kyber : is_allowed_key_algorithm (some kyber_name) ≡ true
unfolding is_allowed_key_algorithm list_eq one_of
allowed_kyber = refl

expected_kyber : expected_key_bytes kyber_name private ≡ ok 2400
unfolding expected_key_bytes is_hybrid_key_algorithm is_allowed_key_algorithm list_eq one_of
expected_kyber = refl

pub inspected :
    inspect_key_pem_strict no_fold copying_kdf plain_gcm zero_hash key_file
    ≡ ok (private_info kyber_name (some 3) private_key_kdf_alg)
unfolding inspect_key_pem_strict inspect_parsed private_info_of
inspected =
    rw
      (parse-new_pem no_fold copying_kdf plain_gcm zero_hash (replicate 2416 0) (replicate 16 1)
        (replicate 12 2) kyber_name 2400 allowed_kyber expected_kyber refl
        (copies-IsByte 0 2416 (omega arith)) (copies-IsByte 1 16 (omega arith))
        (copies-IsByte 2 12 (omega arith)) refl refl)
      refl

run_of_other_save :
    save_key_pem no_fold copying_kdf plain_gcm zero_hash
      (replicate 16 3)
      (replicate 12 4)
      zero_key
      (codes "Kyber768")
      private
      (some other_pass_phrase)
    ≡ some other_key_file
unfolding save_key_pem valid_material given encrypted_pem encrypt_private_key encrypted
    validate_private_key_password derive_key_from_password new_metadata private_key_metadata_aad
    encoded encode_utf8 or_none contains distinct digits decimal base64_char b64encode list_eq
    one_of is_allowed_key_algorithm is_hybrid_key_algorithm expected_key_bytes validate_key_length
    mlkem_key_component coefficients_canonical validate_mlkem_public_key embedded_public_key
    embedded_hash validate_mlkem_private_key validate_key_material
run_of_other_save = refl

run_of_fingerprint :
    get_private_key_public_fingerprint zero_hash zero_key kyber_name
    ≡ ok (fingerprint_prefix ++ replicate 64 48)
unfolding get_private_key_public_fingerprint get_public_key_from_private public_half
    get_public_key_fingerprint fingerprint_input encode_ascii all_ascii hex hex_digit list_eq one_of
    is_allowed_key_algorithm is_hybrid_key_algorithm expected_key_bytes validate_key_length
    validate_public_key mlkem_key_component coefficients_canonical validate_mlkem_public_key
    embedded_public_key embedded_hash validate_mlkem_private_key validate_key_material to_be
run_of_fingerprint = refl

run_of_rewrap :
    rewrap_private_key_pem no_fold copying_kdf plain_gcm zero_hash
      (replicate 16 3)
      (replicate 12 4)
      key_file
      pass_phrase
      other_pass_phrase
    ≡ ok (other_key_file, (kyber_name, fingerprint_prefix ++ replicate 64 48))
unfolding rewrap_private_key_pem unlocked is_private formatted validate_private_key_password
    distinct contains list_eq one_of
run_of_rewrap =
    rw (inspected, load_key_pem-save_key_pem_run, run_of_fingerprint, run_of_other_save) refl

loaded_key-IsByte :
    (key : LoadedKey)
    → load_key_pem no_fold copying_kdf plain_gcm zero_hash key_file (some pass_phrase) ≡ some key
    → All IsByte key.raw
loaded_key-IsByte key h =
    subst (λ (k : LoadedKey). All IsByte k.raw) (same_key (sym load_key_pem-save_key_pem_run ∙ h))
      (copies-IsByte 0 2400 (omega arith))
  where
    same_key : {a b : LoadedKey} → some a ≡ some b → a ≡ b
    same_key e = cc

rewrap_private_key_pem_lem_example :
    (key : LoadedKey) × (load_key_pem no_fold copying_kdf plain_gcm zero_hash key_file
        (some pass_phrase)
      ≡ some key)
    × (load_key_pem no_fold copying_kdf plain_gcm zero_hash other_key_file (some other_pass_phrase)
        ≡ some key)
    × (list_eq other_pass_phrase pass_phrase ≡ false)
    × (validate_private_key_password no_fold copying_kdf plain_gcm (some other_pass_phrase)
        ≡ ok other_pass_phrase)
    × (kyber_name ≡ key.kem_alg)
    × (get_private_key_public_fingerprint zero_hash key.raw kyber_name
        ≡ ok (fingerprint_prefix ++ replicate 64 48))
rewrap_private_key_pem_lem_example =
    rewrap_private_key_pem_lem no_fold copying_kdf plain_gcm zero_hash plain-GcmLaw (replicate 16 3)
      (replicate 12 4) key_file pass_phrase other_pass_phrase (copies-IsByte 3 16 (omega arith))
      (copies-IsByte 4 12 (omega arith)) refl refl loaded_key-IsByte run_of_rewrap
