-- ===== src/Jobs/Download.antt =====
-- api_jobs.py: downloads of a result, expiry, and the end of the store.
use quantum_encryptor.Prelude.{
  ℕ, zero, suc, Bool, true, false, not, Option, none, some, List, [], ◌∷◌, Bytes, Text, codes,
  is_empty, leb, length, if◌then◌else◌,
}
use quantum_encryptor.Failure.{ok, err, runtime_error, out_of_fuel, job_error}
use quantum_encryptor.Exec.{Exec, raise, pure, check, modify, ensuring, ◌>>=◌, ◌>>◌}
use quantum_encryptor.Worker.{close_worker}
use quantum_encryptor.Jobs.{
  JobState, JobPhase, FileJob, JobResult, JobVerification, JobStore, set_job, change, close_files,
  discard_if_finished, cancel,
}
use quantum_encryptor.Jobs.Files.{TemporaryFile, content_of, rewind, read_chunk}
use quantum_encryptor.Jobs.Upload.{get_job, on_file}
use quantum_encryptor.Jobs.Execute.{is_complete, with_output}

-- What `snapshot` tells the browser.
pub record JobSnapshot : Type 0 where
  pub id : Text
  pub mode : Text
  pub state : JobState
  pub phase : JobPhase
  pub processed_bytes : ℕ
  pub total_bytes : ℕ
  pub result : Option JobResult
  pub verification : Option JobVerification
  pub error : Option Text

unfoldable pub snapshot : FileJob → JobSnapshot
snapshot j = record {
  id = j.id;
  mode = j.mode;
  state = j.state;
  phase = j.phase;
  processed_bytes = j.processed;
  total_bytes = j.total;
  result = (if is_complete j.state then j.result else none);
  verification = (if is_complete j.state then j.verification else none);
  error = j.error;
}

unfoldable pub has_result : FileJob → Bool
has_result j = elim j.output [
  | none ↦ false
  | some file ↦ elim j.result [ none ↦ false | some r ↦ is_complete j.state ]
]

abbrev pub with_download_task : Option ℕ → FileJob → FileJob
with_download_task task j = record j { download_task = task }

abbrev pub with_downloading : Bool → FileJob → FileJob
with_downloading b j = record j { downloading = b }

-- `JobDownload` of api_app.py sets and resets the task that downloads.
unfoldable pub own_download : Option ℕ → ℕ → Exec JobStore (Unit {0})
own_download task i = change i (with_download_task task)

unfoldable pub begin_download : ℕ → Exec JobStore (Unit {0})
begin_download i = do
  j ← get_job i
  check (has_result j) (job_error 409 (codes "result_unavailable"))
  check (not j.downloading) (job_error 409 (codes "download_busy"))
  change i (with_downloading true)

-- A chunk that is not empty; a `RuntimeError` where there is no file.
abbrev pub chunk_of : ℕ → Option TemporaryFile → ℕ → Exec JobStore (Option Bytes)
chunk_of short none i s = (err runtime_error, s)
chunk_of short (some file) i s = (
  ok (if is_empty (read_chunk short file).0 then none else some (read_chunk short file).0),
  set_job s i (with_output (read_chunk short file).1 (s.jobs i)),
)

-- The first part of `download`, and a round of its loop: none at its end.
unfoldable pub rewind_output : ℕ → Exec JobStore (Unit {0})
rewind_output i s =
    on_file (s.jobs i).output (λ file. (ok tt, set_job s i (with_output (rewind file) (s.jobs i))))
      s

unfoldable pub next_chunk : ℕ → ℕ → Exec JobStore (Option Bytes)
next_chunk short i s =
    if (s.jobs i).cancel then (ok none, s) else chunk_of short (s.jobs i).output i s

-- `download` without what others do between its rounds: the chunks that it yields. A chunk that goes
-- on has at least a byte, so a round for each byte and one for the end are enough.
unfoldable pub download_loop : (ℕ → ℕ) → ℕ → ℕ → Exec JobStore (List Bytes)
download_loop short zero i = raise out_of_fuel
download_loop short (suc fuel) i = next_chunk (short fuel) i >>= λ got. elim got [
  | none ↦ pure []
  | some chunk ↦ (download_loop short fuel i >>= λ later. pure (chunk ∷ later))
]

unfoldable pub download : (ℕ → ℕ) → ℕ → Exec JobStore (List Bytes)
download short i s =
    (rewind_output i >> download_loop short (suc (length (content_of (s.jobs i).output))) i) s

-- `if job.cancel.is_set(): self.cancel(job, discard=job.discard)`
unfoldable pub cancel_again : Option ℕ → ℕ → Exec JobStore (Unit {0})
cancel_again current i s =
    if (s.jobs i).cancel then cancel current (s.jobs i).discard i s else (ok tt, s)

unfoldable pub finish_download : Option ℕ → ℕ → Exec JobStore (Unit {0})
finish_download current i =
    change i (with_downloading false) >> cancel_again current i >> discard_if_finished i

-- A round of `reap`, which a failure of closing does not end.
unfoldable pub reap_job : Option ℕ → ℕ → Option ℕ → Exec JobStore (Unit {0})
reap_job current now none s = (ok tt, s)
reap_job current now (some i) s =
    if leb (s.jobs i).deadline now then (ok tt, (cancel current true i s).1) else (ok tt, s)

unfoldable pub reap : Option ℕ → ℕ → Exec JobStore (Unit {0})
reap current now s = reap_job current now s.job s

-- `close`, up to its first `await`, and its end: a job that is downloaded is left to its download.
unfoldable pub cancel_held : Option ℕ → Option ℕ → Exec JobStore (Unit {0})
cancel_held current none s = (ok tt, s)
cancel_held current (some i) s = cancel current true i s

unfoldable pub begin_close : Option ℕ → Exec JobStore (Unit {0})
begin_close current s = cancel_held current s.job (record s { closed = true })

unfoldable pub close_job : ℕ → Exec JobStore (Unit {0})
close_job i s = if (s.jobs i).downloading then (ok tt, s) else close_files false i s

unfoldable pub shut_worker : Exec JobStore (Unit {0})
shut_worker = modify (λ s. record s { worker = close_worker s.worker })

unfoldable pub end_close : Option ℕ → Exec JobStore (Unit {0})
end_close none = shut_worker
end_close (some i) = ensuring (close_job i) shut_worker
