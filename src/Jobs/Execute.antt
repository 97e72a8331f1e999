-- ===== src/Jobs/Execute.antt =====
-- api_jobs.py: `JobStore.start` and `JobStore._execute`, in the parts that the worker's thread and the
-- event loop run.
use quantum_encryptor.Prelude.{ℕ, Bool, true, false, Option, none, some, Text, codes, if◌then◌else◌}
use quantum_encryptor.Failure.{
  Failure, Result, ok, err, invalid_recipient_fingerprint_error,
  recipient_fingerprint_mismatch_error, crypto_dependency_error, os_error, operation_cancelled,
  job_error,
}
use quantum_encryptor.Exec.{Exec, lift, check, ◌>>=◌, ◌>>◌}
use quantum_encryptor.Backend.{Primitives}
use quantum_encryptor.Fingerprint.{validate_recipient_fingerprint}
use quantum_encryptor.Jobs.{
  Request, JobState, ready, running, cancelled, failed, complete, JobPhase, preparing, FileJob,
  JobStore, change, close_files, discard_if_finished,
}
use quantum_encryptor.Jobs.Files.{TemporaryFile}
use quantum_encryptor.Jobs.Upload.{get_job, progress}
use quantum_encryptor.Jobs.Requests.{Outcome, verified, produced, is_encryption}

unfoldable pub is_ready : JobState → Bool
is_ready ready = true
is_ready _ = false

unfoldable pub is_complete : JobState → Bool
is_complete complete = true
is_complete _ = false

unfoldable pub check_expected : Primitives → Text → Option Text → Result (Unit {0})
check_expected lib mode none = ok tt
check_expected lib mode (some expected) = elim (validate_recipient_fingerprint lib expected) [
  | err failure ↦ err failure
  | ok t ↦ (if is_encryption mode then ok tt else err invalid_recipient_fingerprint_error)
]

abbrev pub as_running : Request → FileJob → FileJob
as_running r j = record j {
  state = running;
  phase = preparing;
  processed = 0;
  executing = true;
  arguments = some r;
}

abbrev pub with_output : TemporaryFile → FileJob → FileJob
with_output file j = record j { output = some file }

unfoldable pub start : Primitives → Request → ℕ → Exec JobStore (Unit {0})
start lib r i = do
  j ← get_job i
  check (is_ready j.state) (job_error 409 (codes "invalid_job_state"))
  lift (check_expected lib j.mode r.expected_recipient_fingerprint)
  change i (as_running r)

-- What the thread does to the job: it reports progress, opens the output or has written to it, and
-- has a result.
unfoldable pub report_progress : JobPhase → ℕ → ℕ → ℕ → Exec JobStore (Unit {0})
report_progress phase processed total i = change i (progress phase processed total)

unfoldable pub open_output : TemporaryFile → ℕ → Exec JobStore (Unit {0})
open_output file i = change i (with_output file)

unfoldable pub with_outcome : Outcome → FileJob → FileJob
with_outcome (verified v) j = record j { verification = some v }
with_outcome (produced r) j = record j { result = some r }

unfoldable pub keep_outcome : Outcome → ℕ → Exec JobStore (Unit {0})
keep_outcome o i = change i (with_outcome o)

-- The code that the browser is told for a failure.
unfoldable pub failure_code : Failure → Text
failure_code (job_error status code) = code
failure_code invalid_recipient_fingerprint_error = codes "invalid_recipient_fingerprint"
failure_code recipient_fingerprint_mismatch_error = codes "recipient_fingerprint_mismatch"
failure_code crypto_dependency_error = codes "backend_unavailable"
failure_code os_error = codes "storage_failed"
failure_code _ = codes "operation_failed"

-- `stream.OperationCancelled`, which stands for `asyncio.CancelledError` too.
unfoldable pub is_cancellation : Failure → Bool
is_cancellation operation_cancelled = true
is_cancellation _ = false

-- The state after `run_owned` returned, or raised.
unfoldable pub ended : Result (Unit {0}) → FileJob → FileJob
ended (ok u) j = record j { state = (if j.cancel then cancelled else complete) }
ended (err failure) j =
    if is_cancellation failure
    then record j { state = cancelled }
    else record j { state = failed; error = some (failure_code failure) }

-- `if job.state != "complete": job.result = job.verification = None`
unfoldable pub without_outcome : FileJob → FileJob
without_outcome j =
    if is_complete j.state then j else record j { result = none; verification = none }

unfoldable pub execution_ended : Result (Unit {0}) → FileJob → FileJob
execution_ended outcome j = without_outcome (ended outcome (record j { executing = false }))

-- `with suppress(OSError): job.close_files(…)`
unfoldable pub suppressed : Exec JobStore (Unit {0}) → Exec JobStore (Unit {0})
suppressed m s = (ok tt, (m s).1)

unfoldable pub close_unneeded : ℕ → Exec JobStore (Unit {0})
close_unneeded i s = suppressed (close_files (is_complete (s.jobs i).state) i) s

unfoldable pub finish_execute : Result (Unit {0}) → ℕ → Exec JobStore (Unit {0})
finish_execute outcome i =
    change i (execution_ended outcome) >> close_unneeded i >> discard_if_finished i
