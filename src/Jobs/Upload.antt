-- ===== src/Jobs/Upload.antt =====
-- api_jobs.py: the coroutine `JobStore.upload`, in the parts between its `await`s. The body runs under
-- a handler that records the failure, closes the files and raises again.
use quantum_encryptor.Prelude.{
  ℕ, ◌+◌, Bool, true, false, not, Option, none, some, List, [], ◌∷◌, Bytes, codes, length, ltb,
  ◌==◌, if◌then◌else◌,
}
use quantum_encryptor.Failure.{
  Failure, Result, ok, err, runtime_error, operation_cancelled, job_error,
}
use quantum_encryptor.Exec.{Exec, raise, check, ensuring, on_failure, ◌>>=◌, ◌>>◌}
use quantum_encryptor.Jobs.{
  JobState, awaiting_upload, uploading, ready, cancelled, failed, JobPhase, uploading_phase,
  FileJob, JobStore, set_job, change, settle,
}
use quantum_encryptor.Jobs.Files.{TemporaryFile, write_pieces, rewind}

abbrev pub get_job : ℕ → Exec JobStore FileJob
get_job i s = (ok (s.jobs i), s)

-- A `RuntimeError` where there is no file.
abbrev pub on_file :
    Option TemporaryFile → (TemporaryFile → Result (Unit {0}) × JobStore) → Exec JobStore (Unit {0})
on_file none use_file s = (err runtime_error, s)
on_file (some file) use_file s = use_file file

unfoldable pub is_awaiting : JobState → Bool
is_awaiting awaiting_upload = true
is_awaiting uploading = false
is_awaiting ready = false
is_awaiting _ = false

abbrev pub progress : JobPhase → ℕ → ℕ → FileJob → FileJob
progress phase processed total j = record j { phase = phase; processed = processed; total = total }

abbrev pub failed_upload : FileJob → FileJob
failed_upload j = record j {
  state = (if j.cancel then cancelled else failed);
  error = some (codes "upload_failed");
}

abbrev pub without_upload : FileJob → FileJob
without_upload j = record j { upload_task = none }

abbrev pub started_upload : ℕ → FileJob → FileJob
started_upload task j = record j { state = uploading; upload_task = some task; uploaded = 0 }

abbrev pub counted : ℕ → FileJob → FileJob
counted n j = record j { uploaded = j.uploaded + n }

abbrev pub shown_upload : FileJob → FileJob
shown_upload j = progress uploading_phase j.uploaded j.size j

abbrev pub as_ready : FileJob → FileJob
as_ready j = record j { state = ready }

abbrev pub with_input : TemporaryFile → FileJob → FileJob
with_input file j = record j { input = some file }

-- The handler `except BaseException`, and `finally: job.upload_task = None`.
unfoldable pub fail_upload : ℕ → Exec JobStore (Unit {0})
fail_upload i = change i failed_upload >> settle i

unfoldable pub end_upload : ℕ → Exec JobStore (Unit {0})
end_upload i = change i without_upload

unfoldable pub guarded : ℕ → Exec JobStore (Unit {0}) → Exec JobStore (Unit {0})
guarded i body = on_failure body (ensuring (fail_upload i) (end_upload i))

unfoldable pub begin_upload : ℕ → ℕ → Exec JobStore (Unit {0})
begin_upload task i = do
  j ← get_job i
  check (is_awaiting j.state) (job_error 409 (codes "invalid_job_state"))
  change i (started_upload task)

-- Writing to the input file, in a thread of the executor.
unfoldable pub write_input : ℕ → Bytes → Exec JobStore (Unit {0})
write_input i chunk s =
    on_file (s.jobs i).input
      (λ file. (
        (write_pieces (length chunk) chunk file).0,
        set_job s i (with_input (write_pieces (length chunk) chunk file).1 (s.jobs i)),
      ))
      s

unfoldable pub take_chunk : ℕ → Bytes → Exec JobStore (Unit {0})
take_chunk i chunk = do
  j ← get_job i
  check (not j.cancel) operation_cancelled
  change i (counted (length chunk))
  check (not (ltb j.size (j.uploaded + length chunk))) (job_error 413 (codes "file_too_large"))
  write_input i chunk
  change i shown_upload

unfoldable pub rewind_input : ℕ → Exec JobStore (Unit {0})
rewind_input i s =
    on_file (s.jobs i).input (λ file. (ok tt, set_job s i (with_input (rewind file) (s.jobs i)))) s

unfoldable pub complete_upload : ℕ → Exec JobStore (Unit {0})
complete_upload i = do
  j ← get_job i
  check (j.uploaded == j.size) (job_error 400 (codes "incomplete_upload"))
  check (not j.cancel) operation_cancelled
  rewind_input i
  change i as_ready

-- One round of the loop, the end of the loop, and an exception that an `await` raises.
unfoldable pub upload_chunk : ℕ → Bytes → Exec JobStore (Unit {0})
upload_chunk i chunk = guarded i (take_chunk i chunk)

unfoldable pub finish_upload : ℕ → Exec JobStore (Unit {0})
finish_upload i = guarded i (complete_upload i) >> end_upload i

unfoldable pub abort_upload : Failure → ℕ → Exec JobStore (Unit {0})
abort_upload failure i = guarded i (raise failure)

-- An upload that nothing interrupts.
unfoldable pub upload_chunks : ℕ → List Bytes → Exec JobStore (Unit {0})
upload_chunks i [] = finish_upload i
upload_chunks i (chunk ∷ chunks) = upload_chunk i chunk >> upload_chunks i chunks

unfoldable pub upload : ℕ → ℕ → List Bytes → Exec JobStore (Unit {0})
upload task i chunks = begin_upload task i >> upload_chunks i chunks
