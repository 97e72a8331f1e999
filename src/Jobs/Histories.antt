-- ===== src/Jobs/Histories.antt =====
-- In every history of a store, at most one job holds a lease.
use quantum_encryptor.Prelude.{
  ℕ, ◌<◌, ◌≡◌, refl, Bool, false, Option, none, some, Bytes, Text, arith,
}
use quantum_encryptor.Exec.{Exec}
use quantum_encryptor.Backend.{Primitives, AesGcm, Aead, Oqs}
use quantum_encryptor.Worker.Step as WorkerStep
use quantum_encryptor.Jobs.{FileJob, JobStore, cancel}
use quantum_encryptor.Jobs.Requests.{Outcome, verified, produced}
use quantum_encryptor.Jobs.Execute.{with_outcome, keep_outcome}
use quantum_encryptor.Jobs.Effects.{Does}
use quantum_encryptor.Jobs.Touches.{
  Touches, Touches-LocalRules, lease_closed, change-Touches, close_files-Touches,
}
use quantum_encryptor.Jobs.Local
use quantum_encryptor.Jobs.Whole
use quantum_encryptor.Jobs.Whole.{StoreRules}
use quantum_encryptor.Jobs.Admission.{
  IsAdmitted, Step-IsLater, IsLater-IsAdmitted, Touches-IsAdmitted,
}
use quantum_encryptor.Jobs.Reserved.{reserve-IsAdmitted}
use quantum_encryptor.Jobs.Step.{
  Step, reserves, gets, cancels, begins_upload, uploads_chunk, finishes_upload, aborts_upload,
  starts, reports_progress, opens_output, keeps_outcome, finishes_execute, owns_download,
  begins_download, rewinds_output, reads_chunk, finishes_download, reaps, begins_close, ends_close,
  ends_idle_close, works, Reachable, begun, next,
}

abbrev Orderly : JobStore → JobStore → Type 0
Orderly s t = IsAdmitted s → IsAdmitted t

touched : {A : Type 0} {i : ℕ} {m : Exec JobStore A} → Does (Touches i) m → Does Orderly m
touched h = record { at = λ s. Touches-IsAdmitted (h.at s) }

cancel-Orderly :
    (current : Option ℕ) (discard : Bool) (i : ℕ) → Does Orderly (cancel current discard i)
cancel-Orderly current discard i =
    touched (Local.cancel-Keeps i (Touches i) (Touches-LocalRules i) current discard)

with_outcome-lease : (o : Outcome) (j : FileJob) → (with_outcome o j).lease ≡ j.lease
unfolding with_outcome
with_outcome-lease (verified v) j = refl
with_outcome-lease (produced r) j = refl

keep_outcome-Touches : (i : ℕ) (o : Outcome) → Does (Touches i) (keep_outcome o i)
unfolding keep_outcome
keep_outcome-Touches i o = change-Touches i (with_outcome o) (with_outcome-lease o)

IsAdmitted-StoreRules : StoreRules IsAdmitted
IsAdmitted-StoreRules = record {
  cancels = cancel-Orderly;
  closes = λ i. touched (close_files-Touches false i);
  shuts = λ h. record { held = h.held; known = h.known; holds = h.holds };
  shuts_worker = IsLater-IsAdmitted (Step-IsLater WorkerStep.closes_worker);
}

module _ (folded : Text → Text) (scrypt : Bytes → Bytes → Bytes) (aes : AesGcm) {C : Type 0}
    (aead : Aead C) (lib : Primitives) (backend : Option Oqs) where
  Step-IsAdmitted :
      {s t : JobStore} → Step folded scrypt aes aead lib backend s t → IsAdmitted s → IsAdmitted t
  Step-IsAdmitted {s} (reserves env mode filename size) =
      reserve-IsAdmitted env mode filename size s
  Step-IsAdmitted {s} (gets current now identifier) =
      Whole.get-Orderly IsAdmitted IsAdmitted-StoreRules current now identifier s
  Step-IsAdmitted {s} (cancels current discard i below) = (cancel-Orderly current discard i).at s
  Step-IsAdmitted {s} (begins_upload task i below) =
      (touched (Local.begin_upload-Keeps i (Touches i) (Touches-LocalRules i) task)).at s
  Step-IsAdmitted {s} (uploads_chunk i chunk below there) =
      (touched (Local.upload_chunk-Keeps i (Touches i) (Touches-LocalRules i) chunk)).at s
  Step-IsAdmitted {s} (finishes_upload i below there) =
      (touched (Local.finish_upload-Keeps i (Touches i) (Touches-LocalRules i))).at s
  Step-IsAdmitted {s} (aborts_upload failure i below there) =
      (touched (Local.abort_upload-Keeps i (Touches i) (Touches-LocalRules i) failure)).at s
  Step-IsAdmitted {s} (starts r i below) =
      (touched (Local.start-Keeps i (Touches i) (Touches-LocalRules i) lib r)).at s
  Step-IsAdmitted {s} (reports_progress phase processed total i below there) =
      (touched (
          Local.report_progress-Keeps i (Touches i) (Touches-LocalRules i) phase processed
            total)).at
        s
  Step-IsAdmitted {s} (opens_output file i below there) =
      (touched (Local.open_output-Keeps i (Touches i) (Touches-LocalRules i) file)).at s
  Step-IsAdmitted {s} (keeps_outcome o i below there ran) =
      (touched (keep_outcome-Touches i o)).at s
  Step-IsAdmitted {s} (finishes_execute r i below there) =
      (touched (Local.finish_execute-Keeps i (Touches i) (Touches-LocalRules i) r)).at s
  Step-IsAdmitted {s} (owns_download task i below) =
      (touched (Local.own_download-Keeps i (Touches i) (Touches-LocalRules i) task)).at s
  Step-IsAdmitted {s} (begins_download i below) =
      (touched (Local.begin_download-Keeps i (Touches i) (Touches-LocalRules i))).at s
  Step-IsAdmitted {s} (rewinds_output i below) =
      (touched (Local.rewind_output-Keeps i (Touches i) (Touches-LocalRules i))).at s
  Step-IsAdmitted {s} (reads_chunk short i below) =
      (touched (Local.next_chunk-Keeps i (Touches i) (Touches-LocalRules i) short)).at s
  Step-IsAdmitted {s} (finishes_download current i below) =
      (touched (Local.finish_download-Keeps i (Touches i) (Touches-LocalRules i) current)).at s
  Step-IsAdmitted {s} (reaps current now) =
      Whole.reap-Orderly IsAdmitted IsAdmitted-StoreRules current now s
  Step-IsAdmitted {s} (begins_close current) =
      Whole.begin_close-Orderly IsAdmitted IsAdmitted-StoreRules current s
  Step-IsAdmitted {s} (ends_close i below idle) =
      (Whole.end_close-Orderly IsAdmitted IsAdmitted-StoreRules (some i)).at s
  Step-IsAdmitted {s} ends_idle_close =
      (Whole.end_close-Orderly IsAdmitted IsAdmitted-StoreRules none).at s
  Step-IsAdmitted {s} (works step) = IsLater-IsAdmitted (Step-IsLater step)

  pub Reachable-IsAdmitted :
      {ttl : ℕ} {s : JobStore} → Reachable folded scrypt aes aead lib backend ttl s → IsAdmitted s
  Reachable-IsAdmitted (begun jobs) = record {
    held = λ i e. cc;
    known = λ i h. absurd (omega arith);
    holds = λ i h c. absurd (omega arith);
  }
  Reachable-IsAdmitted (next r step) = Step-IsAdmitted step (Reachable-IsAdmitted r)

  -- In every history of a store, a job whose lease is not closed is the job of the store. So no two
  -- jobs hold the worker, whatever is uploaded, cancelled, downloaded or expires, and whichever
  -- close of a file fails.
  pub Reachable-one_job :
      {ttl : ℕ} {s : JobStore}
      → Reachable folded scrypt aes aead lib backend ttl s
      → (i : ℕ) → i < s.created
      → lease_closed s (s.jobs i).lease ≡ false
      → s.job ≡ some i
  Reachable-one_job r = (Reachable-IsAdmitted r).holds
