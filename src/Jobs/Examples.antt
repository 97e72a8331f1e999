-- ===== src/Jobs/Examples.antt =====
-- Histories of a store.
use quantum_encryptor.Prelude.{
  ℕ, ◌∷◌, ◌<◌, List, Bytes, ◌*◌, ◌≡◌, refl, none, some, [], arith, false, from_be, codes, list_eq,
  one_of,
}
use quantum_encryptor.Failure.{Result, ok}
use quantum_encryptor.Prelude.Strings.{join}
use quantum_encryptor.Jobs.Files.{TemporaryFile, content_of, rewind}
use quantum_encryptor.Jobs.Download.{download}
use quantum_encryptor.Jobs.Delivered.{download-eq_ok}
use quantum_encryptor.Worker.{new_worker, acquire}
use quantum_encryptor.Pem.{is_private}
use quantum_encryptor.Pem.Examples.{key_file, inspected, load_key_pem-save_key_pem_run}
use quantum_encryptor.PrivateKey.Examples.{no_fold, copying_kdf, plain_gcm, pass_phrase}
use quantum_encryptor.Stream.Files.{gives, Session, checkpoint, report, source_read, sink_write}
use quantum_encryptor.Stream.Writer.{write_all, write_loop, push, accepted}
use quantum_encryptor.Stream.Suite.{Entropy}
use quantum_encryptor.Stream.Payload.{
  read_loop, each_chunk, check_payload_size, payload_total, feed, process_chunk, process_payload,
  expected_payload, decryptor, decryptors, accepting, accept, verify, clear_snapshot, payload_count,
  count_chunk, snapshot_from, release, final_bytes, decrypt_stream,
}
use quantum_encryptor.Stream.Examples.{
  toy_primitives, toy_oqs, copying, old_container, file_of, empty_file, paired,
}
use quantum_encryptor.Prelude.Utf8.{decode_utf8}
use quantum_encryptor.Algorithms.{
  is_hybrid_key_algorithm, is_allowed_kem_algorithm, is_allowed_key_algorithm,
}
use quantum_encryptor.Keys.{
  validate_key_material, validate_key_length, expected_key_bytes, validate_mlkem_private_key,
  validate_mlkem_public_key, mlkem_key_component, embedded_public_key, embedded_hash,
  coefficients_canonical,
}
use quantum_encryptor.Kem.{
  require_oqs, listed, enabled_kem_mechanisms, resolve_kem_algorithm,
  resolve_decryption_kem_algorithms, derive_symmetric_key_hkdf,
}
use quantum_encryptor.Container.{
  metadata, version_supported, suite_allowed, read_encrypted_file_header, read_fields, read_version,
  read_suite, read_ciphertext, read_x25519, read_exact, read_exact_loop, fetch, checked_part,
  plausible, decoded_suite,
}
use quantum_encryptor.Stream.Reader.{
  start_reader, asked_size, open_reader, reader_read, as_source, pull, add_count, within_limit,
  received, read_size, remaining_size,
}
use quantum_encryptor.Stream.Suite.{
  encrypted_size_limit, candidate_keys, shares, content_key, fits_mechanism, agrees, keys_of,
  some_key, expected_suite,
}
use quantum_encryptor.Jobs.{
  Request, FileJob, JobStore, JobResult, Surroundings, valid_size, size_limit, new_job, place_job,
  add_job, acquire_lease, admit, encrypted_limit, reserve,
}
use quantum_encryptor.Jobs.Files.{
  TemporaryFile, file_write, file_loop, write_file, write_pieces, rewind,
}
use quantum_encryptor.Jobs.Requests.{
  Outcome, produced, is_encryption, expected_key, loaded_key, check_recipient, required_input,
}
use quantum_encryptor.Jobs.Process.{process, transformed, input_of}
use quantum_encryptor.Jobs.Upload.{
  is_awaiting, begin_upload, write_input, take_chunk, rewind_input, complete_upload, guarded,
  end_upload, upload_chunk, finish_upload,
}
use quantum_encryptor.Jobs.Execute.{
  is_ready, check_expected, start, open_output, with_outcome, keep_outcome,
}
use quantum_encryptor.Jobs.Step.{
  Reachable, begun, next, reserves, begins_upload, uploads_chunk, finishes_upload, starts,
  keeps_outcome, opens_output, Follows,
}
use quantum_encryptor.Jobs.Histories.{Reachable-one_job}
use quantum_encryptor.Jobs.Earned.{JobDecryption, Reachable-decrypted_after_verify}

abbrev new_file : TemporaryFile
new_file = record { sink = empty_file; position = 0; close_raises = false }

abbrev around : Surroundings
around = record {
  free = 10 * 1024 * 1024 * 1024;
  now = 5;
  token = codes "a1";
  file = some new_file;
}

abbrev no_jobs : ℕ → FileJob
no_jobs i = new_job around (codes "verify") [] 0 0 900 new_file

abbrev empty_store : JobStore
empty_store = record {
  worker = new_worker;
  ttl = 900;
  job = none;
  jobs = no_jobs;
  created = 0;
  closed = false;
  stopped = [];
}

abbrev History : JobStore → Type 0
History = Reachable no_fold copying_kdf plain_gcm copying toy_primitives (some toy_oqs) 900

-- A reservation for a container of 54 bytes.
abbrev reserved : JobStore
reserved = (reserve around (codes "decrypt") (codes "a.enc") (some 54) empty_store).1

reserved-History : History reserved
reserved-History =
    next (begun no_jobs) (reserves around (codes "decrypt") (codes "a.enc") (some 54))

Reachable-one_job_example : reserved.job ≡ some 0
unfolding reserve valid_size size_limit admit acquire_lease acquire add_job place_job new_job one_of
    list_eq encrypted_limit encrypted_size_limit
Reachable-one_job_example =
    Reachable-one_job no_fold copying_kdf plain_gcm copying toy_primitives (some toy_oqs)
      reserved-History 0 (omega arith) refl

abbrev request : Request
request = record {
  pem = key_file;
  password = pass_phrase;
  output_filename = codes "a";
  expected_recipient_fingerprint = none;
}

abbrev entropy : Entropy
entropy = record { encapsulation = []; ephemeral_private = []; nonce = [] }

abbrev fresh : Session
fresh = record {
  reader = record { source = file_of []; limit = 0; count = 0; total = none };
  sink = empty_file;
  snapshot = empty_file;
  cancels = [];
  reports = [];
}

abbrev three_bytes : JobResult
three_bytes = record { filename = codes "a"; size = 3 }

run_of_process :
    (process no_fold copying_kdf plain_gcm copying toy_primitives
      (some toy_oqs)
      (codes "decrypt")
      entropy
      (some (file_of old_container))
      request
      fresh).0
    ≡ ok (produced three_bytes)
unfolding verify encrypted_size_limit open_reader start_reader remaining_size checkpoint
    read_encrypted_file_header read_fields read_version read_suite read_ciphertext read_x25519
    read_exact read_exact_loop fetch checked_part plausible decoded_suite decode_utf8
    version_supported suite_allowed as_source reader_read asked_size read_size pull source_read
    received add_count within_limit check_payload_size candidate_keys expected_suite
    validate_key_material validate_key_length expected_key_bytes validate_mlkem_private_key
    validate_mlkem_public_key mlkem_key_component embedded_public_key embedded_hash
    coefficients_canonical shares resolve_decryption_kem_algorithms resolve_kem_algorithm
    enabled_kem_mechanisms require_oqs listed keys_of fits_mechanism agrees content_key
    derive_symmetric_key_hkdf some_key decryptors decryptor process_payload expected_payload
    payload_total report each_chunk read_loop process_chunk feed accepting accept metadata
    is_hybrid_key_algorithm is_allowed_kem_algorithm is_allowed_key_algorithm list_eq one_of from_be
    process loaded_key expected_key is_encryption is_private check_recipient required_input
    transformed decrypt_stream clear_snapshot payload_count count_chunk snapshot_from release
    final_bytes write_all write_loop push accepted sink_write
run_of_process = rw (inspected, load_key_pem-save_key_pem_run) refl

abbrev uploading_store : JobStore
uploading_store = (begin_upload 7 0 reserved).1

abbrev uploaded_store : JobStore
uploaded_store = (upload_chunk 0 old_container uploading_store).1

abbrev ready_store : JobStore
ready_store = (finish_upload 0 uploaded_store).1

abbrev running_store : JobStore
running_store = (start toy_primitives request 0 ready_store).1

abbrev process_run : Result Outcome × Session
process_run =
    process no_fold copying_kdf plain_gcm copying toy_primitives (some toy_oqs) (codes "decrypt")
      entropy (some (file_of old_container)) request fresh

-- The output with what the run has written to it.
abbrev written_file : TemporaryFile
written_file = record { sink = process_run.1.sink; position = 0; close_raises = false }

abbrev writing_store : JobStore
writing_store = (open_output written_file 0 running_store).1

abbrev produced_store : JobStore
produced_store = (keep_outcome (produced three_bytes) 0 writing_store).1

produced-History : History produced_store
unfolding reserve valid_size size_limit admit acquire_lease acquire add_job place_job new_job one_of
    list_eq encrypted_limit encrypted_size_limit begin_upload is_awaiting upload_chunk guarded
    take_chunk write_input write_pieces write_file file_loop file_write sink_write accepted
    finish_upload complete_upload rewind_input rewind end_upload start is_ready check_expected
    open_output keep_outcome input_of content_of
produced-History =
    next
      (next
        (next
          (next
            (next (next reserved-History (begins_upload 7 0 (omega arith)))
              (uploads_chunk 0 old_container (omega arith) (record { task = 7; uploads = refl })))
            (finishes_upload 0 (omega arith) (record { task = 7; uploads = refl })))
          (starts request 0 (omega arith)))
        (opens_output written_file 0 (omega arith) refl))
      (keeps_outcome (produced three_bytes) 0 (omega arith) refl (record {
        entropy = entropy;
        replies = gives 4 ∷ gives 4 ∷ [];
        request = request;
        before = fresh;
        after = process_run.1;
        asked = refl;
        started = refl;
        ran = paired run_of_process;
        stored = refl;
      }))

Reachable-decrypted_after_verify_example :
    (then : JobStore) × History then
    × Follows no_fold copying_kdf plain_gcm copying toy_primitives
        (some toy_oqs)
        then
        produced_store
    × (0 < then.created)
    × JobDecryption no_fold copying_kdf plain_gcm copying toy_primitives
        (some toy_oqs)
        (then.jobs 0)
        three_bytes
unfolding reserve valid_size size_limit admit acquire_lease acquire add_job place_job new_job one_of
    list_eq encrypted_limit encrypted_size_limit begin_upload is_awaiting upload_chunk guarded
    take_chunk write_input write_pieces write_file file_loop file_write sink_write accepted
    finish_upload complete_upload rewind_input rewind end_upload start is_ready check_expected
    open_output keep_outcome with_outcome
Reachable-decrypted_after_verify_example =
    Reachable-decrypted_after_verify no_fold copying_kdf plain_gcm copying toy_primitives
      (some toy_oqs) produced-History 0 three_bytes (omega arith) refl refl

-- A job whose output was read to its second byte.
abbrev read_before : TemporaryFile
read_before = record {
  sink = record { written = 7 ∷ 8 ∷ 9 ∷ []; replies = [] };
  position = 2;
  close_raises = false;
}

abbrev read_store : JobStore
read_store = record empty_store { jobs = λ i. record (no_jobs i) { output = some read_before } }

download-eq_ok_example :
    (chunks : List Bytes) × ((download (λ round. round) 0 read_store).0 ≡ ok chunks)
    × (join chunks ≡ 7 ∷ 8 ∷ 9 ∷ [])
unfolding new_job
download-eq_ok_example = download-eq_ok 0 (λ round. round) read_store read_before refl refl
