-- ===== src/Jobs/Local.antt =====
-- Every operation on a job keeps a relation that its parts keep.
use quantum_encryptor.Prelude.{
  ℕ, ◌≡◌, refl, ◌∙◌, Bool, true, false, not, Option, none, some, Bytes, arith, inl, inr, ◌∷◌, ◌+◌,
  length, ltb, ◌==◌, codes, if◌then◌else◌,
}
use quantum_encryptor.Failure.{Failure, Result, ok, err, operation_cancelled, job_error}
use quantum_encryptor.Exec.{Exec, raise}
use quantum_encryptor.Worker.{is_lease}
use quantum_encryptor.Backend.{Primitives}
use quantum_encryptor.Jobs.{
  Request, JobPhase, FileJob, JobStore, is_active, stop, settle, as_cancelling, as_cancelled,
  marked, cancel_active, cancel_idle, cancel_marked, cancel, set_job,
}
use quantum_encryptor.Jobs.Files.{TemporaryFile, write_pieces, rewind, read_chunk}
use quantum_encryptor.Jobs.Upload.{
  get_job, on_file, is_awaiting, progress, failed_upload, without_upload, started_upload, counted,
  shown_upload, as_ready, with_input, fail_upload, end_upload, guarded, begin_upload, write_input,
  take_chunk, rewind_input, complete_upload, upload_chunk, finish_upload, abort_upload,
}
use quantum_encryptor.Jobs.Execute.{
  is_ready, is_complete, as_running, with_output, execution_ended, check_expected, start,
  report_progress, open_output, ended, without_outcome, suppressed, close_unneeded, finish_execute,
}
use quantum_encryptor.Jobs.Download.{
  has_result, chunk_of, with_download_task, with_downloading, own_download, begin_download,
  rewind_output, next_chunk, cancel_again, finish_download,
}
use quantum_encryptor.Jobs.Effects.{
  IsPreorder, Does, lift-Does, >>=-Does, >>-Does, ensuring-Does, on_failure-Does, when-Does,
  if-Does, check-Does,
}
use quantum_encryptor.Jobs.Harmless.{IsHarmless, plain, LocalRules}

module _ (i : ℕ) (R : JobStore → JobStore → Type 0) (rules : LocalRules i R) where
  pre : IsPreorder R
  pre = rules.pre

  get-Keeps : Does R (get_job i)
  get-Keeps = record { at = λ s. pre.same s }

  stop-Keeps : (current task : Option ℕ) → Does R (stop current task)
  unfolding stop
  stop-Keeps current none = record { at = λ s. pre.same s }
  stop-Keeps current (some t) = record {
    at = λ s.
        if-Does pre (is_lease current t) s s (record s { stopped = t ∷ s.stopped }) (pre.same s)
          (rules.stops t s);
  }

  harmless_cancelled : IsHarmless as_cancelled
  harmless_cancelled = record {
    lease = λ j. refl;
    mode = λ j. refl;
    result = λ j. inr refl;
    verification = λ j. inr refl;
  }

  settle-Keeps : Does R (settle i)
  unfolding settle
  settle-Keeps = ensuring-Does pre (rules.closes false) rules.discards

  cancel_active-Keeps : (task : Option ℕ) → Does R (cancel_active task i)
  unfolding cancel_active
  cancel_active-Keeps task =
      >>-Does pre
        (rules.changes as_cancelling (plain (λ j. refl) (λ j. refl) (λ j. refl) (λ j. refl)))
        (stop-Keeps none task)

  cancel_idle-Keeps : Does R (cancel_idle i)
  unfolding cancel_idle
  cancel_idle-Keeps = >>-Does pre (rules.changes as_cancelled harmless_cancelled) settle-Keeps

  cancel_marked-Keeps : (current : Option ℕ) → Does R (cancel_marked current i)
  unfolding cancel_marked
  cancel_marked-Keeps current = record {
    at = λ s.
        let j = s.jobs i in
        when-Does pre (is_active j.state) s (cancel_active j.upload_task i s)
          (if j.downloading then stop current j.download_task s else cancel_idle i s)
          ((cancel_active-Keeps j.upload_task).at s)
          (when-Does pre j.downloading s (stop current j.download_task s) (cancel_idle i s)
            ((stop-Keeps current j.download_task).at s) (cancel_idle-Keeps.at s));
  }

  pub cancel-Keeps : (current : Option ℕ) (discard : Bool) → Does R (cancel current discard i)
  unfolding cancel
  cancel-Keeps current discard =
      >>-Does pre
        (rules.changes (marked discard) (plain (λ j. refl) (λ j. refl) (λ j. refl) (λ j. refl)))
        (cancel_marked-Keeps current)

  end_upload-Keeps : Does R (end_upload i)
  unfolding end_upload
  end_upload-Keeps =
      rules.changes without_upload (plain (λ j. refl) (λ j. refl) (λ j. refl) (λ j. refl))

  fail_upload-Keeps : Does R (fail_upload i)
  unfolding fail_upload
  fail_upload-Keeps =
      >>-Does pre
        (rules.changes failed_upload (plain (λ j. refl) (λ j. refl) (λ j. refl) (λ j. refl)))
        settle-Keeps

  guarded-Keeps : (m : Exec JobStore (Unit {0})) → Does R m → Does R (guarded i m)
  unfolding guarded
  guarded-Keeps m h = on_failure-Does pre h (ensuring-Does pre fail_upload-Keeps end_upload-Keeps)

  pub begin_upload-Keeps : (task : ℕ) → Does R (begin_upload task i)
  unfolding begin_upload
  begin_upload-Keeps task = >>=-Does pre get-Keeps (λ j.
      >>-Does pre (check-Does pre (is_awaiting j.state) (job_error 409 (codes "invalid_job_state")))
        (rules.changes (started_upload task)
          (plain (λ j. refl) (λ j. refl) (λ j. refl) (λ j. refl))))

  -- A change of the file of the job, if there is one.
  set-Keeps :
      (f : FileJob → FileJob) → IsHarmless f → (s : JobStore) → R s (set_job s i (f (s.jobs i)))
  set-Keeps f keeps s = (rules.changes f keeps).at s

  file-Keeps :
      (file : Option TemporaryFile) (s : JobStore) (f : TemporaryFile → FileJob → FileJob)
      (r : TemporaryFile → Result (Unit {0}))
      → ((x : TemporaryFile) → IsHarmless (f x))
      → R s (on_file file (λ x. (r x, set_job s i (f x (s.jobs i)))) s).1
  file-Keeps none s f r keeps = pre.same s
  file-Keeps (some x) s f r keeps = set-Keeps (f x) (keeps x) s

  write_input-Keeps : (chunk : Bytes) → Does R (write_input i chunk)
  unfolding write_input
  write_input-Keeps chunk = record {
    at = λ s.
        file-Keeps (s.jobs i).input s (λ x. with_input (write_pieces (length chunk) chunk x).1)
          (λ x. (write_pieces (length chunk) chunk x).0)
          (λ x. plain (λ j. refl) (λ j. refl) (λ j. refl) (λ j. refl));
  }

  take_chunk-Keeps : (chunk : Bytes) → Does R (take_chunk i chunk)
  unfolding take_chunk
  take_chunk-Keeps chunk = >>=-Does pre get-Keeps (λ j.
      >>-Does pre (check-Does pre (not j.cancel) (operation_cancelled)) (
        >>-Does pre
          (rules.changes (counted (length chunk))
            (plain (λ j. refl) (λ j. refl) (λ j. refl) (λ j. refl)))
          (>>-Does pre
            (check-Does pre (not (ltb j.size (j.uploaded + length chunk)))
              (job_error 413 (codes "file_too_large")))
            (>>-Does pre (write_input-Keeps chunk) (
              rules.changes shown_upload
                (plain (λ j. refl) (λ j. refl) (λ j. refl) (λ j. refl)))))))

  rewind_input-Keeps : Does R (rewind_input i)
  unfolding rewind_input
  rewind_input-Keeps = record {
    at = λ s.
        file-Keeps (s.jobs i).input s (λ x. with_input (rewind x)) (λ x. ok tt)
          (λ x. plain (λ j. refl) (λ j. refl) (λ j. refl) (λ j. refl));
  }

  complete_upload-Keeps : Does R (complete_upload i)
  unfolding complete_upload
  complete_upload-Keeps = >>=-Does pre get-Keeps (λ j.
      >>-Does pre
        (check-Does pre (j.uploaded == j.size) (job_error 400 (codes "incomplete_upload")))
        (>>-Does pre (check-Does pre (not j.cancel) (operation_cancelled)) (
          >>-Does pre rewind_input-Keeps
            (rules.changes as_ready (plain (λ j. refl) (λ j. refl) (λ j. refl) (λ j. refl))))))

  pub upload_chunk-Keeps : (chunk : Bytes) → Does R (upload_chunk i chunk)
  unfolding upload_chunk
  upload_chunk-Keeps chunk = guarded-Keeps (take_chunk i chunk) (take_chunk-Keeps chunk)

  pub finish_upload-Keeps : Does R (finish_upload i)
  unfolding finish_upload
  finish_upload-Keeps =
      >>-Does pre (guarded-Keeps (complete_upload i) complete_upload-Keeps) end_upload-Keeps

  pub abort_upload-Keeps : (failure : Failure) → Does R (abort_upload failure i)
  unfolding abort_upload
  abort_upload-Keeps failure = guarded-Keeps (raise failure) (lift-Does pre (err failure))

  pub start-Keeps : (lib : Primitives) (r : Request) → Does R (start lib r i)
  unfolding start
  start-Keeps lib r = >>=-Does pre get-Keeps (λ j.
      >>-Does pre (check-Does pre (is_ready j.state) (job_error 409 (codes "invalid_job_state"))) (
        >>-Does pre (lift-Does pre (check_expected lib j.mode r.expected_recipient_fingerprint))
          (rules.changes (as_running r) (plain (λ j. refl) (λ j. refl) (λ j. refl) (λ j. refl)))))

  pub report_progress-Keeps :
      (phase : JobPhase) (processed total : ℕ) → Does R (report_progress phase processed total i)
  unfolding report_progress
  report_progress-Keeps phase processed total =
      rules.changes (progress phase processed total)
        (plain (λ j. refl) (λ j. refl) (λ j. refl) (λ j. refl))

  pub open_output-Keeps : (file : TemporaryFile) → Does R (open_output file i)
  unfolding open_output
  open_output-Keeps file =
      rules.changes (with_output file) (plain (λ j. refl) (λ j. refl) (λ j. refl) (λ j. refl))

  ended-same :
      (r : Result (Unit {0})) (j : FileJob)
      → ((ended r j).lease ≡ j.lease)
        × ((ended r j).mode ≡ j.mode)
        × ((ended r j).result ≡ j.result)
        × ((ended r j).verification ≡ j.verification)
  unfolding ended
  ended-same (ok u) j = (refl, refl, refl, refl)
  ended-same (err e) j = (ground arith, ground arith, ground arith, ground arith)

  without_outcome-IsHarmless : IsHarmless without_outcome
  unfolding without_outcome
  without_outcome-IsHarmless = record {
    lease = λ j. ground arith;
    mode = λ j. ground arith;
    result = λ j. ground arith;
    verification = λ j. ground arith;
  }

  execution_ended-IsHarmless : (r : Result (Unit {0})) → IsHarmless (execution_ended r)
  unfolding execution_ended
  execution_ended-IsHarmless r =
      let first = λ (j : FileJob). record j { executing = false } in
      let same = λ (j : FileJob). ended-same r (first j) in
      let dropped = without_outcome-IsHarmless in
      record {
        lease = λ j. dropped.lease (ended r (first j)) ∙ (same j).0;
        mode = λ j. dropped.mode (ended r (first j)) ∙ (same j).1;
        result = λ j. elim (dropped.result (ended r (first j))) [
          | inl e ↦ inl (e ∙ (same j).2)
          | inr e ↦ inr e
        ];
        verification = λ j. elim (dropped.verification (ended r (first j))) [
          | inl e ↦ inl (e ∙ (same j).3)
          | inr e ↦ inr e
        ];
      }

  close_unneeded-Keeps : Does R (close_unneeded i)
  unfolding close_unneeded suppressed
  close_unneeded-Keeps = record { at = λ s. (rules.closes (is_complete (s.jobs i).state)).at s }

  pub finish_execute-Keeps : (r : Result (Unit {0})) → Does R (finish_execute r i)
  unfolding finish_execute
  finish_execute-Keeps r =
      >>-Does pre
        (>>-Does pre (rules.changes (execution_ended r) (execution_ended-IsHarmless r))
          close_unneeded-Keeps)
        rules.discards

  pub own_download-Keeps : (task : Option ℕ) → Does R (own_download task i)
  unfolding own_download
  own_download-Keeps task =
      rules.changes (with_download_task task)
        (plain (λ j. refl) (λ j. refl) (λ j. refl) (λ j. refl))

  pub begin_download-Keeps : Does R (begin_download i)
  unfolding begin_download
  begin_download-Keeps = >>=-Does pre get-Keeps (λ j.
      >>-Does pre (check-Does pre (has_result j) (job_error 409 (codes "result_unavailable"))) (
        >>-Does pre (check-Does pre (not j.downloading) (job_error 409 (codes "download_busy"))) (
          rules.changes (with_downloading true)
            (plain (λ j. refl) (λ j. refl) (λ j. refl) (λ j. refl)))))

  pub rewind_output-Keeps : Does R (rewind_output i)
  unfolding rewind_output
  rewind_output-Keeps = record {
    at = λ s.
        file-Keeps (s.jobs i).output s (λ x. with_output (rewind x)) (λ x. ok tt)
          (λ x. plain (λ j. refl) (λ j. refl) (λ j. refl) (λ j. refl));
  }

  chunk_of-Keeps : (short : ℕ) (file : Option TemporaryFile) → Does R (chunk_of short file i)
  chunk_of-Keeps short none = record { at = λ s. pre.same s }
  chunk_of-Keeps short (some file) = record {
    at = λ s.
        set-Keeps (with_output (read_chunk short file).1)
          (plain (λ j. refl) (λ j. refl) (λ j. refl) (λ j. refl)) s;
  }

  pub next_chunk-Keeps : (short : ℕ) → Does R (next_chunk short i)
  unfolding next_chunk
  next_chunk-Keeps short = record {
    at = λ s.
        when-Does pre (s.jobs i).cancel s (ok none, s) (chunk_of short (s.jobs i).output i s)
          (pre.same s) ((chunk_of-Keeps short (s.jobs i).output).at s);
  }

  cancel_again-Keeps : (current : Option ℕ) → Does R (cancel_again current i)
  unfolding cancel_again
  cancel_again-Keeps current = record {
    at = λ s.
        when-Does pre (s.jobs i).cancel s (cancel current (s.jobs i).discard i s) (ok tt, s)
          ((cancel-Keeps current (s.jobs i).discard).at s) (pre.same s);
  }

  pub finish_download-Keeps : (current : Option ℕ) → Does R (finish_download current i)
  unfolding finish_download
  finish_download-Keeps current =
      >>-Does pre
        (>>-Does pre
          (rules.changes (with_downloading false)
            (plain (λ j. refl) (λ j. refl) (λ j. refl) (λ j. refl)))
          (cancel_again-Keeps current))
        rules.discards
