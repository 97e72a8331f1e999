-- ===== src/Jobs/Step.antt =====
-- Every history of a store: its operations, the parts of uploads, executions and downloads in any
-- order, and the other requests that share the worker.
use quantum_encryptor.Prelude.{
  ℕ, ◌<◌, ◌≡◌, Bool, true, false, Option, none, some, List, [], Bytes, Text,
}
use quantum_encryptor.Failure.{Failure, Result, ok}
use quantum_encryptor.Backend.{Primitives, AesGcm, Aead, Oqs}
use quantum_encryptor.Worker.{CryptoWorker, new_worker}
use quantum_encryptor.Worker.Step as WorkerStep
use quantum_encryptor.Jobs.{
  Request, JobPhase, FileJob, JobStore, Surroundings, reserve, get, cancel,
}
use quantum_encryptor.Jobs.Files.{TemporaryFile, content_of}
use quantum_encryptor.Jobs.Requests.{Outcome}
use quantum_encryptor.Jobs.Process.{process, input_of}
use quantum_encryptor.Jobs.Upload.{begin_upload, upload_chunk, finish_upload, abort_upload}
use quantum_encryptor.Jobs.Execute.{
  start, report_progress, open_output, keep_outcome, finish_execute,
}
use quantum_encryptor.Jobs.Download.{
  own_download, begin_download, rewind_output, next_chunk, finish_download, reap, begin_close,
  end_close,
}
use quantum_encryptor.Stream.Files.{ReadReply, Session}
use quantum_encryptor.Stream.Suite.{Entropy}

-- A job with no task of its own left.
pub record IsIdle (j : FileJob) : Type 0 where
  pub not_uploading : j.upload_task ≡ none
  pub not_executing : j.executing ≡ false

-- The coroutine of an upload is there.
pub record IsUploading (j : FileJob) : Type 0 where
  pub task : ℕ
  pub uploads : j.upload_task ≡ some task

module _ (folded : Text → Text) (scrypt : Bytes → Bytes → Bytes) (aes : AesGcm) {C : Type 0}
    (aead : Aead C) (lib : Primitives) (backend : Option Oqs) where
  -- `_process` returned an outcome for this job: with the arguments that its task was started with,
  -- from the job's own input, however it is read, onto an empty output, whose content at the end is
  -- that of the job's own output.
  pub record Processed (j : FileJob) (o : Outcome) : Type 0 where
    pub entropy : Entropy
    pub replies : List ReadReply
    pub request : Request
    pub before : Session
    pub after : Session
    pub asked : j.arguments ≡ some request
    pub started : before.sink.written ≡ []
    pub ran :
        process folded scrypt aes aead lib backend j.mode entropy
          (input_of replies j.input)
          request
          before
        ≡ (ok o, after)
    pub stored : content_of j.output ≡ after.sink.written

  pub data Step (s : JobStore) : JobStore → Type 0 where
    reserves :
        (env : Surroundings) (mode filename : Text) (size : Option ℕ)
        → Step s (reserve env mode filename size s).1
    gets :
        (current : Option ℕ) (now : ℕ) (identifier : Text) → Step s (get current now identifier s).1
    cancels :
        (current : Option ℕ) (discard : Bool) (i : ℕ)
        → i < s.created
        → Step s (cancel current discard i s).1
    begins_upload : (task i : ℕ) → i < s.created → Step s (begin_upload task i s).1
    uploads_chunk :
        (i : ℕ) (chunk : Bytes)
        → i < s.created
        → IsUploading (s.jobs i)
        → Step s (upload_chunk i chunk s).1
    finishes_upload :
        (i : ℕ) → i < s.created → IsUploading (s.jobs i) → Step s (finish_upload i s).1
    aborts_upload :
        (failure : Failure) (i : ℕ)
        → i < s.created
        → IsUploading (s.jobs i)
        → Step s (abort_upload failure i s).1
    starts : (r : Request) (i : ℕ) → i < s.created → Step s (start lib r i s).1
    reports_progress :
        (phase : JobPhase) (processed total i : ℕ)
        → i < s.created
        → (s.jobs i).executing ≡ true
        → Step s (report_progress phase processed total i s).1
    opens_output :
        (file : TemporaryFile) (i : ℕ)
        → i < s.created
        → (s.jobs i).executing ≡ true
        → Step s (open_output file i s).1
    keeps_outcome :
        (o : Outcome) (i : ℕ)
        → i < s.created
        → (s.jobs i).executing ≡ true
        → Processed (s.jobs i) o
        → Step s (keep_outcome o i s).1
    finishes_execute :
        (r : Result (Unit {0})) (i : ℕ)
        → i < s.created
        → (s.jobs i).executing ≡ true
        → Step s (finish_execute r i s).1
    owns_download : (task : Option ℕ) (i : ℕ) → i < s.created → Step s (own_download task i s).1
    begins_download : (i : ℕ) → i < s.created → Step s (begin_download i s).1
    rewinds_output : (i : ℕ) → i < s.created → Step s (rewind_output i s).1
    reads_chunk : (short i : ℕ) → i < s.created → Step s (next_chunk short i s).1
    finishes_download :
        (current : Option ℕ) (i : ℕ) → i < s.created → Step s (finish_download current i s).1
    reaps : (current : Option ℕ) (now : ℕ) → Step s (reap current now s).1
    begins_close : (current : Option ℕ) → Step s (begin_close current s).1
    ends_close : (i : ℕ) → i < s.created → IsIdle (s.jobs i) → Step s (end_close (some i) s).1
    ends_idle_close : Step s (end_close none s).1
    -- Work through a lease, and the leases of other requests.
    works : {w : CryptoWorker} → WorkerStep.Step s.worker w → Step s (record s { worker = w })

  pub data Reachable (ttl : ℕ) : JobStore → Type 0 where
    begun :
        (jobs : ℕ → FileJob)
        → Reachable ttl (record {
          worker = new_worker;
          ttl = ttl;
          job = none;
          jobs = jobs;
          created = 0;
          closed = false;
          stopped = [];
        })
    next : {s t : JobStore} → Reachable ttl s → Step s t → Reachable ttl t

  -- `t` comes at `s` or later in a history.
  pub data Follows (s : JobStore) : JobStore → Type 0 where
    at_once : Follows s s
    after_step : {t u : JobStore} → Follows s t → Step t u → Follows s u
