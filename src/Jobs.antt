-- ===== src/Jobs.antt =====
-- api_jobs.py: the store of the one large-file job, and the job.
-- A job object is a number and `jobs` the heap of job objects; so are the tasks of asyncio. The
-- worker is the one of api_worker.py. Operations run on the event loop between two `await`, so each
-- is one step; what a coroutine does around an `await` is several operations. Time is
-- `time.monotonic()`; `expires_at`, which is only shown, is left out.
pub mod Files
pub mod Upload
pub mod Requests
pub mod Process
pub mod Execute
pub mod Download
pub mod Effects
pub mod Harmless
pub mod Touches
pub mod Local
pub mod Whole
pub mod Step
pub mod Admission
pub mod Reserved
pub mod Histories
pub mod Fades
pub mod Outcomes
pub mod Kept
pub mod Earned
pub mod Delivered
mod Examples
use quantum_encryptor.Prelude.{
  ℕ, ◌+◌, ◌*◌, Bool, true, false, ◌&&◌, ◌||◌, not, Option, none, some, List, [], ◌∷◌, ◌++◌, Bytes,
  Text, codes, length, list_eq, one_of, ltb, leb, ◌==◌, if◌then◌else◌,
}
use quantum_encryptor.Config.{max_stream_file_bytes}
use quantum_encryptor.Failure.{Failure, Result, ok, err, os_error, job_error}
use quantum_encryptor.Exec.{Exec, raise, pure, lift, check, modify, ensuring, ◌>>=◌, ◌>>◌}
use quantum_encryptor.Stream.Suite.{encrypted_size_limit}
use quantum_encryptor.Worker.{CryptoWorker, new_worker, is_lease, is_some, acquire, close_lease}
use quantum_encryptor.Jobs.Files.{TemporaryFile, raises}

pub data JobState : Type 0 where
  awaiting_upload uploading ready running cancelling cancelled failed complete : JobState

pub data JobPhase : Type 0 where
  uploading_phase preparing encrypting_phase verifying_phase decrypting_phase : JobPhase

pub record JobResult : Type 0 where
  pub filename : Text
  pub size : ℕ

pub record JobVerification : Type 0 where
  pub kem : Text
  pub format_version : ℕ
  pub bytes_verified : ℕ
  pub fingerprint : Text

-- The arguments of `_execute` and `_process`, without the job.
pub record Request : Type 0 where
  pub pem : Text
  pub password : Text
  pub output_filename : Text
  pub expected_recipient_fingerprint : Option Text

-- `executing` tells of `task` whether it was created and has not ended, and `uploaded` is the local
-- `count` of `upload`; `arguments` are what the coroutine of `task` was called with.
pub record FileJob : Type 0 where
  pub id : Text
  pub mode : Text
  pub filename : Text
  pub size : ℕ
  pub lease : ℕ
  pub state : JobState
  pub phase : JobPhase
  pub processed : ℕ
  pub total : ℕ
  pub deadline : ℕ
  pub cancel : Bool
  pub input : Option TemporaryFile
  pub output : Option TemporaryFile
  pub result : Option JobResult
  pub verification : Option JobVerification
  pub error : Option Text
  pub executing : Bool
  pub arguments : Option Request
  pub upload_task : Option ℕ
  pub download_task : Option ℕ
  pub downloading : Bool
  pub discard : Bool
  pub uploaded : ℕ

-- `stopped` are the tasks of which `cancel()` was called.
pub record JobStore : Type 0 where
  pub worker : CryptoWorker
  pub ttl : ℕ
  pub job : Option ℕ
  pub jobs : ℕ → FileJob
  pub created : ℕ
  pub closed : Bool
  pub stopped : List ℕ

-- What the surroundings of `reserve` are: the free disk space, the time, a fresh identifier and a
-- temporary file, or none where creating it raises.
pub record Surroundings : Type 0 where
  pub free : ℕ
  pub now : ℕ
  pub token : Text
  pub file : Option TemporaryFile

unfoldable pub is_active : JobState → Bool
is_active uploading = true
is_active running = true
is_active cancelling = true
is_active awaiting_upload = false
is_active ready = false
is_active cancelled = false
is_active failed = false
is_active complete = false

abbrev pub get_store : Exec JobStore JobStore
get_store s = (ok s, s)

abbrev pub set_job : JobStore → ℕ → FileJob → JobStore
set_job s i j = record s { jobs = λ k. if i == k then j else s.jobs k }

abbrev pub change : ℕ → (FileJob → FileJob) → Exec JobStore (Unit {0})
change i f = modify (λ s. set_job s i (f (s.jobs i)))

unfoldable pub valid_size : Text → Option ℕ → Result ℕ
valid_size mode none = err (job_error 400 (codes "invalid_job"))
valid_size mode (some n) =
    if one_of mode (codes "encrypt" ∷ codes "decrypt" ∷ codes "verify" ∷ [])
    then ok n
    else err (job_error 400 (codes "invalid_job"))

unfoldable pub encrypted_limit : Result ℕ
encrypted_limit = encrypted_size_limit max_stream_file_bytes

unfoldable pub size_limit : Text → Result ℕ
size_limit mode =
    if list_eq mode (codes "encrypt") then ok max_stream_file_bytes else encrypted_limit

unfoldable pub new_job : Surroundings → Text → Text → ℕ → ℕ → ℕ → TemporaryFile → FileJob
new_job env mode filename size lease ttl file = record {
  id = env.token;
  mode = mode;
  filename = filename;
  size = size;
  lease = lease;
  state = awaiting_upload;
  phase = uploading_phase;
  processed = 0;
  total = size;
  deadline = env.now + ttl;
  cancel = false;
  input = some file;
  output = none;
  result = none;
  verification = none;
  error = none;
  executing = false;
  arguments = none;
  upload_task = none;
  download_task = none;
  downloading = false;
  discard = false;
  uploaded = 0;
}

-- `FileJob(…)`, of which the lease is closed if it raises.
unfoldable pub place_job :
    Surroundings → Text → Text → ℕ → ℕ → Option TemporaryFile → Exec JobStore ℕ
place_job env mode filename size lease none s =
    (err os_error, record s { worker = close_lease lease s.worker })
place_job env mode filename size lease (some file) s = (
  ok s.created,
  record s {
    job = some s.created;
    jobs =
        λ k. if s.created == k then new_job env mode filename size lease s.ttl file else s.jobs k;
    created = s.created + 1;
  },
)

unfoldable pub add_job : Surroundings → Text → Text → ℕ → Option ℕ → Exec JobStore ℕ
add_job env mode filename size none s = (err (job_error 429 (codes "server_busy")), s)
add_job env mode filename size (some lease) s = place_job env mode filename size lease env.file s

unfoldable pub acquire_lease : Exec JobStore (Option ℕ)
acquire_lease s = let (lease, worker) = acquire s.worker in (ok lease, record s { worker = worker })

unfoldable pub admit : Surroundings → Text → Text → ℕ → Exec JobStore ℕ
admit env mode filename n = do lease ← acquire_lease; add_job env mode filename n lease

unfoldable pub reserve : Surroundings → Text → Text → Option ℕ → Exec JobStore ℕ
reserve env mode filename size = do
  n ← lift (valid_size mode size)
  limit ← lift (size_limit mode)
  check (not (ltb limit n)) (job_error 413 (codes "file_too_large"))
  s ← get_store
  check (not (s.closed || is_some s.job)) (job_error 429 (codes "server_busy"))
  check (not (ltb env.free (n * 3 + 64 * 1024 * 1024)))
      (job_error 507 (codes "insufficient_storage"))
  admit env mode filename n

-- Whether a close raises: of the input, and of the output where it is closed too.
unfoldable pub close_raises : Bool → FileJob → Bool
close_raises keep_output j = raises j.input || (not keep_output && raises j.output)

-- The output is kept only if the input was closed without an error.
unfoldable pub closed_files : Bool → FileJob → FileJob
closed_files keep_output j =
    if close_raises keep_output j
    then record j {
      input = none;
      output = none;
      state = failed;
      result = none;
      verification = none;
      error = some (codes "storage_failed");
    }
    else if keep_output
    then record j { input = none }
    else record j { input = none; output = none }

unfoldable pub close_files : Bool → ℕ → Exec JobStore (Unit {0})
close_files keep_output i s =
    let j = s.jobs i in
    let closed = record (set_job s i (closed_files keep_output j)) {
      worker = close_lease j.lease s.worker;
    } in
    (if close_raises keep_output j then err os_error else ok tt, closed)

-- `if self.job is job: self.job = None`
unfoldable pub forget : ℕ → Exec JobStore (Unit {0})
forget i = modify (λ s. if is_lease s.job i then record s { job = none } else s)

unfoldable pub is_discardable : FileJob → Bool
is_discardable j = j.discard && not j.downloading && not (is_active j.state)

unfoldable pub discard_if_finished : ℕ → Exec JobStore (Unit {0})
discard_if_finished i s =
    if is_discardable (s.jobs i) then ensuring (close_files false i) (forget i) s else (ok tt, s)

-- `task.cancel()`, unless there is none or it is the current task.
unfoldable pub stop : Option ℕ → Option ℕ → Exec JobStore (Unit {0})
stop current none = pure tt
stop current (some t) =
    modify (λ s. if is_lease current t then s else record s { stopped = t ∷ s.stopped })

abbrev pub as_cancelling : FileJob → FileJob
as_cancelling j = record j { state = cancelling }

abbrev pub as_cancelled : FileJob → FileJob
as_cancelled j = record j { state = cancelled; result = none; verification = none }

abbrev pub marked : Bool → FileJob → FileJob
marked discard j = record j { cancel = true; discard = j.discard || discard }

-- `try: job.close_files() finally: self._discard_if_finished(job)`
unfoldable pub settle : ℕ → Exec JobStore (Unit {0})
settle i = ensuring (close_files false i) (discard_if_finished i)

unfoldable pub cancel_active : Option ℕ → ℕ → Exec JobStore (Unit {0})
cancel_active task i = change i as_cancelling >> stop none task

unfoldable pub cancel_idle : ℕ → Exec JobStore (Unit {0})
cancel_idle i = change i as_cancelled >> settle i

unfoldable pub cancel_marked : Option ℕ → ℕ → Exec JobStore (Unit {0})
cancel_marked current i s =
    let j = s.jobs i in
    if is_active j.state
    then cancel_active j.upload_task i s
    else if j.downloading
    then stop current j.download_task s
    else cancel_idle i s

-- `JobStore.cancel`, called by the task `current`.
unfoldable pub cancel : Option ℕ → Bool → ℕ → Exec JobStore (Unit {0})
cancel current discard i = change i (marked discard) >> cancel_marked current i

abbrev pub expired_error : Failure
expired_error = job_error 410 (codes "job_expired")

unfoldable pub get_at : Option ℕ → ℕ → Text → Option ℕ → Exec JobStore ℕ
get_at current now identifier none s = (err expired_error, s)
get_at current now identifier (some i) s =
    let j = s.jobs i in
    if not (list_eq j.id identifier) || j.discard
    then (err expired_error, s)
    else if leb j.deadline now
    then (cancel current true i >> raise expired_error) s
    else (ok i, s)

unfoldable pub get : Option ℕ → ℕ → Text → Exec JobStore ℕ
get current now identifier s = get_at current now identifier s.job s
