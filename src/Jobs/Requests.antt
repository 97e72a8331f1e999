-- ===== src/Jobs/Requests.antt =====
-- api_jobs.py: the parts of `_process` that only return or raise.
use quantum_encryptor.Prelude.{
  ◌-◌, Bool, not, Option, none, some, Bytes, Text, codes, list_eq, if◌then◌else◌,
}
use quantum_encryptor.Config.{aes_tag_bytes}
use quantum_encryptor.Failure.{Result, ok, err, ensure, runtime_error, job_error, ◌>>=◌, ◌>>◌}
use quantum_encryptor.Backend.{Primitives, AesGcm}
use quantum_encryptor.Container.{EncryptedFileMetadata}
use quantum_encryptor.Fingerprint.{verify_recipient_fingerprint, get_private_key_public_fingerprint}
use quantum_encryptor.Pem.{is_private}
use quantum_encryptor.Pem.Files.{LoadedKey, is_private_info, inspect_key_pem_strict, load_key_pem}
use quantum_encryptor.Stream.Files.{Source}
use quantum_encryptor.Jobs.{JobResult, JobVerification, Request}

-- What `_process` assigns at its end: `job.verification` or `job.result`.
pub data Outcome : Type 0 where
  verified : JobVerification → Outcome
  produced : JobResult → Outcome

unfoldable pub is_encryption : Text → Bool
is_encryption mode = list_eq mode (codes "encrypt")

-- `raw is None or algorithm is None or key_type != expected_type`
unfoldable pub expected_key : Bool → Option LoadedKey → Result LoadedKey
expected_key wants_private none = err (job_error 400 (codes "private_key_failed"))
expected_key wants_private (some k) =
    if (if is_private k.key_type then wants_private else not wants_private)
    then ok k
    else err (job_error 400 (codes "private_key_failed"))

module _ (folded : Text → Text) (scrypt : Bytes → Bytes → Bytes) (aes : AesGcm)
    (lib : Primitives) where
  unfoldable pub loaded_key : Text → Request → Result LoadedKey
  loaded_key mode r = do
    info ← inspect_key_pem_strict folded scrypt aes lib r.pem
    ensure (if is_private_info info then not (is_encryption mode) else is_encryption mode)
        (job_error 400 (codes "invalid_key"))
    expected_key (not (is_encryption mode)) (
        load_key_pem folded scrypt aes lib r.pem
          (if is_encryption mode then none else some r.password))

  unfoldable pub check_recipient : Option Text → LoadedKey → Result (Unit {0})
  check_recipient none k = ok tt
  check_recipient (some expected) k =
      verify_recipient_fingerprint lib k.raw k.kem_alg (some expected) >> ok tt

  unfoldable pub required_input : Option Source → Result Source
  required_input none = err runtime_error
  required_input (some source) = ok source

  -- A payload that was verified is at least a tag long.
  unfoldable pub verification_of : LoadedKey → EncryptedFileMetadata → Result Outcome
  verification_of k found = do
    fingerprint ← get_private_key_public_fingerprint lib k.raw k.kem_alg
    ok (
        verified (record {
          kem = found.kem_alg;
          format_version = found.version;
          bytes_verified = found.encrypted_payload_bytes - aes_tag_bytes;
          fingerprint = fingerprint;
        }))
