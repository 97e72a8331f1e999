-- ===== src/Jobs/Kept.antt =====
-- In every history of a store, an outcome of a job was made by a run of `_process` on this job.
use quantum_encryptor.Prelude.{
  ℕ, ◌+◌, ◌*◌, ◌<◌, ◌≡◌, ◌≢◌, refl, sym, ◌∙◌, false, not, ◌||◌, Option, none, some, Bytes, Text,
  arith, codes, ltb, ℕ_discrete, ◌==◌, ==_refl,
}
use quantum_encryptor.Failure.{job_error}
use quantum_encryptor.Backend.{Primitives, AesGcm, Aead, Oqs}
use quantum_encryptor.Worker.{is_some, acquire}
use quantum_encryptor.Jobs.{
  JobStore, Surroundings, valid_size, size_limit, new_job, place_job, add_job, acquire_lease, admit,
  reserve,
}
use quantum_encryptor.Jobs.Files.{TemporaryFile}
use quantum_encryptor.Jobs.Requests.{Outcome}
use quantum_encryptor.Jobs.Reserved.{lift_then, check_then}
use quantum_encryptor.Jobs.Fades.{Fades, Fades-LocalRules}
use quantum_encryptor.Jobs.Local
use quantum_encryptor.Jobs.Whole
use quantum_encryptor.Jobs.Outcomes.{
  IsEarned, IsEarned-map, absent_is_not_present, faded, same_jobs, IsEarned-StoreRules,
  keep_outcome-IsEarned,
}
use quantum_encryptor.Jobs.Step.{
  Processed, Step, reserves, gets, cancels, begins_upload, uploads_chunk, finishes_upload,
  aborts_upload, starts, reports_progress, opens_output, keeps_outcome, finishes_execute,
  owns_download, begins_download, rewinds_output, reads_chunk, finishes_download, reaps,
  begins_close, ends_close, ends_idle_close, works, Reachable, begun, next, Follows, at_once,
  after_step,
}

new_job-no_outcome :
    (env : Surroundings) (mode filename : Text) (n l ttl : ℕ) (file : TemporaryFile)
    → ((new_job env mode filename n l ttl file).result ≡ none)
      × ((new_job env mode filename n l ttl file).verification ≡ none)
unfolding new_job
new_job-no_outcome env mode filename n l ttl file = (refl, refl)

module _ (E : ℕ → Text → Outcome → Type 0) where
  place_job-IsEarned :
      (env : Surroundings) (mode filename : Text) (n l : ℕ) (file : Option TemporaryFile)
      {s : JobStore}
      → IsEarned E s
      → IsEarned E (place_job env mode filename n l file s).1
  unfolding place_job
  place_job-IsEarned env mode filename n l none h = same_jobs E refl refl h
  place_job-IsEarned env mode filename n l (some file) {s} h = record {
    result = λ k r below e. elim (ℕ_discrete s.created k) [
      | yes here ↦ absurd (
          absent_is_not_present (
            sym (new_job-no_outcome env mode filename n l s.ttl file).0
            ∙ (rw (here, ==_refl k) at e)))
      | no other ↦ rw (different other) (h.result k r (omega arith) (rw (different other) at e))
    ];
    verification = λ k v below e. elim (ℕ_discrete s.created k) [
      | yes here ↦ absurd (
          absent_is_not_present (
            sym (new_job-no_outcome env mode filename n l s.ttl file).1
            ∙ (rw (here, ==_refl k) at e)))
      | no other ↦
          rw (different other) (h.verification k v (omega arith) (rw (different other) at e))
    ];
  }
    where
      different : {k : ℕ} → s.created ≢ k → (s.created == k) ≡ false
      different h = ground arith

  add_job-IsEarned :
      (env : Surroundings) (mode filename : Text) (n : ℕ) (o : Option ℕ) {s : JobStore}
      → IsEarned E s
      → IsEarned E (add_job env mode filename n o s).1
  unfolding add_job
  add_job-IsEarned env mode filename n none h = h
  add_job-IsEarned env mode filename n (some l) h =
      place_job-IsEarned env mode filename n l env.file h

  reserve-IsEarned :
      (env : Surroundings) (mode filename : Text) (size : Option ℕ) (s : JobStore)
      → IsEarned E s
      → IsEarned E (reserve env mode filename size s).1
  unfolding reserve admit acquire_lease
  reserve-IsEarned env mode filename size s h =
      lift_then (IsEarned E) (valid_size mode size) _ s h (λ n.
        lift_then (IsEarned E) (size_limit mode) _ s h (λ limit.
          check_then (IsEarned E) (not (ltb limit n)) (job_error 413 (codes "file_too_large")) _ s h
            (λ small.
              check_then (IsEarned E) (not (s.closed || is_some s.job))
                (job_error 429 (codes "server_busy")) _ s h
                (λ free.
                  check_then (IsEarned E) (not (ltb env.free (n * 3 + 64 * 1024 * 1024)))
                    (job_error 507 (codes "insufficient_storage")) _ s h
                    (λ space.
                      add_job-IsEarned env mode filename n (acquire s.worker).0
                        (same_jobs E refl refl h))))))

module _ (folded : Text → Text) (scrypt : Bytes → Bytes → Bytes) (aes : AesGcm) {C : Type 0}
    (aead : Aead C) (lib : Primitives) (backend : Option Oqs) where
  -- An outcome of the job `i` was made by a run of `_process` on this job, at a store of the history
  -- that `s` ends.
  pub record Ran (ttl : ℕ) (s : JobStore) (i : ℕ) (mode : Text) (o : Outcome) : Type 0 where
    pub then : JobStore
    pub reachable : Reachable folded scrypt aes aead lib backend ttl then
    pub earlier : Follows folded scrypt aes aead lib backend then s
    pub below : i < then.created
    pub same_mode : (then.jobs i).mode ≡ mode
    pub processed : Processed folded scrypt aes aead lib backend (then.jobs i) o

  Ran-later :
      {ttl : ℕ} {s t : JobStore}
      → Step folded scrypt aes aead lib backend s t
      → (i : ℕ) (mode : Text) (o : Outcome) → Ran ttl s i mode o
      → Ran ttl t i mode o
  Ran-later step i mode o r = record {
    then = r.then;
    reachable = r.reachable;
    earlier = after_step r.earlier step;
    below = r.below;
    same_mode = r.same_mode;
    processed = r.processed;
  }

  module _ (E : ℕ → Text → Outcome → Type 0) where
    -- A step keeps what holds of every outcome, if it holds of what it keeps itself.
    Step-IsEarned :
        {s t : JobStore}
        → ((i : ℕ) (o : Outcome)
            → i < s.created
            → Processed folded scrypt aes aead lib backend (s.jobs i) o
            → E i (s.jobs i).mode o)
        → Step folded scrypt aes aead lib backend s t
        → IsEarned E s
        → IsEarned E t
    Step-IsEarned {s} earns (reserves env mode filename size) =
        reserve-IsEarned E env mode filename size s
    Step-IsEarned {s} earns (gets current now identifier) =
        Whole.get-Orderly (IsEarned E) (IsEarned-StoreRules E) current now identifier s
    Step-IsEarned {s} earns (cancels current discard i below) =
        (faded E (Local.cancel-Keeps i (Fades i) (Fades-LocalRules i) current discard)).at s
    Step-IsEarned {s} earns (begins_upload task i below) =
        (faded E (Local.begin_upload-Keeps i (Fades i) (Fades-LocalRules i) task)).at s
    Step-IsEarned {s} earns (uploads_chunk i chunk below there) =
        (faded E (Local.upload_chunk-Keeps i (Fades i) (Fades-LocalRules i) chunk)).at s
    Step-IsEarned {s} earns (finishes_upload i below there) =
        (faded E (Local.finish_upload-Keeps i (Fades i) (Fades-LocalRules i))).at s
    Step-IsEarned {s} earns (aborts_upload failure i below there) =
        (faded E (Local.abort_upload-Keeps i (Fades i) (Fades-LocalRules i) failure)).at s
    Step-IsEarned {s} earns (starts r i below) =
        (faded E (Local.start-Keeps i (Fades i) (Fades-LocalRules i) lib r)).at s
    Step-IsEarned {s} earns (reports_progress phase processed total i below there) =
        (faded E
            (Local.report_progress-Keeps i (Fades i) (Fades-LocalRules i) phase processed total)).at
          s
    Step-IsEarned {s} earns (opens_output file i below there) =
        (faded E (Local.open_output-Keeps i (Fades i) (Fades-LocalRules i) file)).at s
    Step-IsEarned {s} earns (keeps_outcome o i below there ran) =
        keep_outcome-IsEarned E o i (earns i o below ran)
    Step-IsEarned {s} earns (finishes_execute r i below there) =
        (faded E (Local.finish_execute-Keeps i (Fades i) (Fades-LocalRules i) r)).at s
    Step-IsEarned {s} earns (owns_download task i below) =
        (faded E (Local.own_download-Keeps i (Fades i) (Fades-LocalRules i) task)).at s
    Step-IsEarned {s} earns (begins_download i below) =
        (faded E (Local.begin_download-Keeps i (Fades i) (Fades-LocalRules i))).at s
    Step-IsEarned {s} earns (rewinds_output i below) =
        (faded E (Local.rewind_output-Keeps i (Fades i) (Fades-LocalRules i))).at s
    Step-IsEarned {s} earns (reads_chunk short i below) =
        (faded E (Local.next_chunk-Keeps i (Fades i) (Fades-LocalRules i) short)).at s
    Step-IsEarned {s} earns (finishes_download current i below) =
        (faded E (Local.finish_download-Keeps i (Fades i) (Fades-LocalRules i) current)).at s
    Step-IsEarned {s} earns (reaps current now) =
        Whole.reap-Orderly (IsEarned E) (IsEarned-StoreRules E) current now s
    Step-IsEarned {s} earns (begins_close current) =
        Whole.begin_close-Orderly (IsEarned E) (IsEarned-StoreRules E) current s
    Step-IsEarned {s} earns (ends_close i below idle) =
        (Whole.end_close-Orderly (IsEarned E) (IsEarned-StoreRules E) (some i)).at s
    Step-IsEarned {s} earns ends_idle_close =
        (Whole.end_close-Orderly (IsEarned E) (IsEarned-StoreRules E) none).at s
    Step-IsEarned {s} earns (works step) = same_jobs E refl refl

  pub Reachable-IsEarned :
      {ttl : ℕ} {s : JobStore}
      → Reachable folded scrypt aes aead lib backend ttl s
      → IsEarned (Ran ttl s) s
  Reachable-IsEarned (begun jobs) = record {
    result = λ i r h e. absurd (omega arith);
    verification = λ i v h e. absurd (omega arith);
  }
  Reachable-IsEarned {ttl} (next {s} {t} r step) =
      Step-IsEarned (Ran ttl t)
        (λ i o below ran. record {
          then = s;
          reachable = r;
          earlier = after_step at_once step;
          below = below;
          same_mode = refl;
          processed = ran;
        })
        step (IsEarned-map (Ran-later step) (Reachable-IsEarned r))
