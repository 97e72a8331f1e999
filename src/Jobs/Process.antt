-- ===== src/Jobs/Process.antt =====
-- api_jobs.py: `JobStore._process`, which runs in the thread of the worker.
use quantum_encryptor.Prelude.{
  true, ℕ, Option, none, some, List, drop, Bytes, Text, codes, length, list_eq, if◌then◌else◌,
}
use quantum_encryptor.Config.{max_stream_file_bytes}
use quantum_encryptor.Failure.{ok}
use quantum_encryptor.Exec.{Exec, pure, lift, ◌>>=◌, ◌>>◌}
use quantum_encryptor.Backend.{Primitives, AesGcm, Aead, Oqs}
use quantum_encryptor.Pem.Files.{LoadedKey}
use quantum_encryptor.Stream.Files.{Source, ReadReply, Session, checkpoint}
use quantum_encryptor.Stream.Suite.{Entropy}
use quantum_encryptor.Stream.Payload.{encrypt_stream, verify_stream, decrypt_stream}
use quantum_encryptor.Jobs.{Request}
use quantum_encryptor.Jobs.Files.{TemporaryFile}
use quantum_encryptor.Jobs.Requests.{
  Outcome, produced, is_encryption, loaded_key, check_recipient, required_input, verification_of,
}

-- The input as the streams read it, from its position; a read of an unbuffered file may be short.
unfoldable pub input_of : List ReadReply → Option TemporaryFile → Option Source
input_of replies none = none
input_of replies (some f) =
    some (record { rest = drop f.position f.sink.written; seekable = true; replies = replies })

-- `output.tell()`
abbrev pub written_size : Exec Session ℕ
written_size s = (ok (length s.sink.written), s)

module _ (folded : Text → Text) (scrypt : Bytes → Bytes → Bytes) (aes : AesGcm) {C : Type 0}
    (aead : Aead C) (lib : Primitives) (backend : Option Oqs) where
  unfoldable pub transformed : Text → Entropy → Source → LoadedKey → Text → Exec Session Outcome
  transformed mode entropy source k filename = do
    found ←
        (if is_encryption mode
          then encrypt_stream aead lib backend entropy source k.raw k.kem_alg max_stream_file_bytes
          else decrypt_stream aead lib backend source k.raw (some k.kem_alg) max_stream_file_bytes)
    size ← written_size
    pure (produced (record { filename = filename; size = size }))

  unfoldable pub run_verification : Source → LoadedKey → Exec Session Outcome
  run_verification source k = do
    found ← verify_stream aead lib backend source k.raw (some k.kem_alg) max_stream_file_bytes
    lift (verification_of folded scrypt aes lib k found)

  -- The output file is the sink of the session, empty at the start, and the first checkpoint is
  -- `job.cancel.is_set()`.
  unfoldable pub process : Text → Entropy → Option Source → Request → Exec Session Outcome
  process mode entropy input r = do
    checkpoint
    k ← lift (loaded_key folded scrypt aes lib mode r)
    lift (check_recipient folded scrypt aes lib r.expected_recipient_fingerprint k)
    source ← lift (required_input folded scrypt aes lib input)
    (if list_eq mode (codes "verify")
        then run_verification source k
        else transformed mode entropy source k r.output_filename)
