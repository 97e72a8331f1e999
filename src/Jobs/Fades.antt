-- ===== src/Jobs/Fades.antt =====
-- What an operation on one job does to its outcome: it stays as it was, or it goes.
use quantum_encryptor.Prelude.{
  ℕ, ◌≡◌, ◌≢◌, refl, ap, ◌∙◌, ◌⊎◌, inl, inr, Bool, false, Option, none, arith, ◌==◌, ==_refl,
  if◌then◌else◌,
}
use quantum_encryptor.Failure.{ok}
use quantum_encryptor.Exec.{ensuring}
use quantum_encryptor.Jobs.{
  FileJob, JobStore, closed_files, close_files, forget, is_discardable, discard_if_finished,
}
use quantum_encryptor.Jobs.Effects.{IsPreorder, Does, when-Does}
use quantum_encryptor.Jobs.Harmless.{IsHarmless, LocalRules}

pub record Fades (i : ℕ) (s t : JobStore) : Type 0 where
  pub others : (k : ℕ) → k ≢ i → t.jobs k ≡ s.jobs k
  pub created : t.created ≡ s.created
  pub mode : (t.jobs i).mode ≡ (s.jobs i).mode
  pub result : ((t.jobs i).result ≡ (s.jobs i).result) ⊎ ((t.jobs i).result ≡ none)
  pub verification :
      ((t.jobs i).verification ≡ (s.jobs i).verification) ⊎ ((t.jobs i).verification ≡ none)

-- The same, or nothing, twice.
fade :
    {A : Type 0} {x y z : Option A}
    → (y ≡ x) ⊎ (y ≡ none)
    → (z ≡ y) ⊎ (z ≡ none)
    → (z ≡ x) ⊎ (z ≡ none)
fade h (inr gone) = inr gone
fade (inl same) (inl e) = inl (e ∙ same)
fade (inr gone) (inl e) = inr (e ∙ gone)

Fades-IsPreorder : (i : ℕ) → IsPreorder (Fades i)
Fades-IsPreorder i = record {
  same = λ s. record {
    others = λ k h. refl;
    created = refl;
    mode = refl;
    result = inl refl;
    verification = inl refl;
  };
  chain = λ h k. record {
    others = λ n m. k.others n m ∙ h.others n m;
    created = k.created ∙ h.created;
    mode = k.mode ∙ h.mode;
    result = fade h.result k.result;
    verification = fade h.verification k.verification;
  };
}

-- Stores that agree on the jobs.
same_jobs-Fades : {i : ℕ} {s t : JobStore} → t.jobs ≡ s.jobs → t.created ≡ s.created → Fades i s t
same_jobs-Fades {i} e c = record {
  created = c;
  others = λ k h. ap (λ f. f k) e;
  mode = ap (λ f. (f i).mode) e;
  result = inl (ap (λ f. (f i).result) e);
  verification = inl (ap (λ f. (f i).verification) e);
}

job_changed-Fades :
    (i : ℕ) (f : FileJob → FileJob)
    → IsHarmless f
    → {s t : JobStore} → t.jobs ≡ (λ k. if i == k then f (s.jobs i) else s.jobs k)
    → t.created ≡ s.created
    → Fades i s t
job_changed-Fades i f harmless {s} {t} e c = record {
  created = c;
  others = λ k h. ap (λ g. g k) e ∙ ground arith;
  mode = ap (λ (j : FileJob). j.mode) here ∙ harmless.mode (s.jobs i);
  result = elim (harmless.result (s.jobs i)) [
    | inl same ↦ inl (ap (λ (j : FileJob). j.result) here ∙ same)
    | inr gone ↦ inr (ap (λ (j : FileJob). j.result) here ∙ gone)
  ];
  verification = elim (harmless.verification (s.jobs i)) [
    | inl same ↦ inl (ap (λ (j : FileJob). j.verification) here ∙ same)
    | inr gone ↦ inr (ap (λ (j : FileJob). j.verification) here ∙ gone)
  ];
}
  where
    here : t.jobs i ≡ f (s.jobs i)
    here = ap (λ g. g i) e ∙ rw (==_refl i) refl

closed_files-IsHarmless : (keep_output : Bool) → IsHarmless (closed_files keep_output)
unfolding closed_files
closed_files-IsHarmless keep_output = record {
  lease = λ j. ground arith;
  mode = λ j. ground arith;
  result = λ j. ground arith;
  verification = λ j. ground arith;
}

close_files-Fades : (keep_output : Bool) (i : ℕ) → Does (Fades i) (close_files keep_output i)
unfolding close_files
close_files-Fades keep_output i = record {
  at = λ s.
      job_changed-Fades i (closed_files keep_output) (closed_files-IsHarmless keep_output) refl
        refl;
}

forget-jobs :
    (i : ℕ) (s : JobStore) → ((forget i s).1.jobs ≡ s.jobs) × ((forget i s).1.created ≡ s.created)
unfolding forget
forget-jobs i s = ground arith

discard_if_finished-Fades : (i : ℕ) → Does (Fades i) (discard_if_finished i)
unfolding discard_if_finished
discard_if_finished-Fades i = record {
  at = λ s.
      let pre = Fades-IsPreorder i in
      when-Does pre (is_discardable (s.jobs i)) s (ensuring (close_files false i) (forget i) s)
        (ok tt, s)
        (pre.chain ((close_files-Fades false i).at s) (
          same_jobs-Fades (forget-jobs i (close_files false i s).1).0
            (forget-jobs i (close_files false i s).1).1))
        (pre.same s);
}

pub Fades-LocalRules : (i : ℕ) → LocalRules i (Fades i)
Fades-LocalRules i = record {
  pre = Fades-IsPreorder i;
  changes = λ f harmless. record { at = λ s. job_changed-Fades i f harmless refl refl };
  closes = λ keep_output. close_files-Fades keep_output i;
  discards = discard_if_finished-Fades i;
  stops = λ task s. same_jobs-Fades refl refl;
}
