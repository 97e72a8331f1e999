-- ===== src/Jobs/Harmless.antt =====
-- What a relation needs for every operation on one job to keep it, but for what the worker's thread
-- assigns at its end.
use quantum_encryptor.Prelude.{ℕ, ◌≡◌, ◌⊎◌, inl, Bool, none, ◌∷◌}
use quantum_encryptor.Jobs.{FileJob, JobStore, change, close_files, discard_if_finished}
use quantum_encryptor.Jobs.Effects.{IsPreorder, Does}

-- A change of a job that leaves its lease and its mode, and its outcome or else removes it.
pub record IsHarmless (f : FileJob → FileJob) : Type 0 where
  pub lease : (j : FileJob) → (f j).lease ≡ j.lease
  pub mode : (j : FileJob) → (f j).mode ≡ j.mode
  pub result : (j : FileJob) → ((f j).result ≡ j.result) ⊎ ((f j).result ≡ none)
  pub verification :
      (j : FileJob) → ((f j).verification ≡ j.verification) ⊎ ((f j).verification ≡ none)

-- A change of other fields.
pub plain :
    {f : FileJob → FileJob}
    → ((j : FileJob) → (f j).lease ≡ j.lease)
    → ((j : FileJob) → (f j).mode ≡ j.mode)
    → ((j : FileJob) → (f j).result ≡ j.result)
    → ((j : FileJob) → (f j).verification ≡ j.verification)
    → IsHarmless f
plain lease mode result verification = record {
  lease = lease;
  mode = mode;
  result = λ j. inl (result j);
  verification = λ j. inl (verification j);
}

pub record LocalRules (i : ℕ) (R : JobStore → JobStore → Type 0) : Type 0 where
  pub pre : IsPreorder R
  pub changes : (f : FileJob → FileJob) → IsHarmless f → Does R (change i f)
  pub closes : (keep_output : Bool) → Does R (close_files keep_output i)
  pub discards : Does R (discard_if_finished i)
  pub stops : (task : ℕ) (s : JobStore) → R s (record s { stopped = task ∷ s.stopped })
