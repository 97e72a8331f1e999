-- ===== src/Jobs/Outcomes.antt =====
-- What a job shows as its outcome was made by a run of `_process` that returned.
use quantum_encryptor.Prelude.{
  ℕ, ◌<◌, ◌≡◌, ◌≢◌, refl, sym, ap, ◌∙◌, ◌⊎◌, inl, inr, false, Option, none, some, Text, arith,
  ℕ_discrete, ==_refl, ◌==◌,
}
use mathlib.Core.Path.{subst, subst₂}
use quantum_encryptor.Exec.{Exec}
use quantum_encryptor.Jobs.{FileJob, JobStore, JobResult, JobVerification}
use quantum_encryptor.Jobs.Requests.{Outcome, verified, produced}
use quantum_encryptor.Jobs.Execute.{with_outcome, keep_outcome}
use quantum_encryptor.Jobs.Effects.{Does}
use quantum_encryptor.Jobs.Fades.{Fades, Fades-LocalRules}
use quantum_encryptor.Jobs.Local
use quantum_encryptor.Jobs.Whole.{StoreRules}

-- Every outcome that a job of the store has, is one of `E`.
pub record IsEarned (E : ℕ → Text → Outcome → Type 0) (s : JobStore) : Type 0 where
  pub result :
      (i : ℕ) (r : JobResult)
      → i < s.created
      → (s.jobs i).result ≡ some r
      → E i (s.jobs i).mode (produced r)
  pub verification :
      (i : ℕ) (v : JobVerification)
      → i < s.created
      → (s.jobs i).verification ≡ some v
      → E i (s.jobs i).mode (verified v)

pub absent_is_not_present : {A : Type 0} {a : A} → ◌≡◌ {A = Option A} none (some a) → ⊥
absent_is_not_present e = cc

kept_some : {A : Type 0} {x y : Option A} {a : A} → (y ≡ x) ⊎ (y ≡ none) → y ≡ some a → x ≡ some a
kept_some (inl same) e = sym same ∙ e
kept_some (inr gone) e = absurd (absent_is_not_present (sym gone ∙ e))

-- The same for one job.
record FadedJob (j l : FileJob) : Type 0 where
  mode : l.mode ≡ j.mode
  result : (l.result ≡ j.result) ⊎ (l.result ≡ none)
  verification : (l.verification ≡ j.verification) ⊎ (l.verification ≡ none)

faded_at : {i : ℕ} {s t : JobStore} → Fades i s t → (k : ℕ) → FadedJob (s.jobs k) (t.jobs k)
faded_at {i} {s} {t} d k = elim (ℕ_discrete k i) [
  | yes here ↦
      subst (λ n. FadedJob (s.jobs n) (t.jobs n)) (sym here)
        (record { mode = d.mode; result = d.result; verification = d.verification })
  | no other ↦
      subst (λ j. FadedJob (s.jobs k) j) (sym (d.others k other))
        (record { mode = refl; result = inl refl; verification = inl refl })
]

pub IsEarned-map :
    {E F : ℕ → Text → Outcome → Type 0} {s : JobStore}
    → ((i : ℕ) (m : Text) (o : Outcome) → E i m o → F i m o)
    → IsEarned E s
    → IsEarned F s
IsEarned-map f h = record {
  result = λ i r below e. f i _ (produced r) (h.result i r below e);
  verification = λ i v below e. f i _ (verified v) (h.verification i v below e);
}

module _ (E : ℕ → Text → Outcome → Type 0) where
  Fades-IsEarned : {i : ℕ} {s t : JobStore} → Fades i s t → IsEarned E s → IsEarned E t
  Fades-IsEarned {i} {s} {t} d h = record {
    result = λ k r below e.
        let f = faded_at d k in
        subst (λ m. E k m (produced r)) (sym f.mode)
          (h.result k r (subst (λ n. k < n) d.created below) (kept_some f.result e));
    verification = λ k v below e.
        let f = faded_at d k in
        subst (λ m. E k m (verified v)) (sym f.mode)
          (h.verification k v (subst (λ n. k < n) d.created below) (kept_some f.verification e));
  }

  abbrev Earns : JobStore → JobStore → Type 0
  Earns s t = IsEarned E s → IsEarned E t

  pub faded : {A : Type 0} {i : ℕ} {m : Exec JobStore A} → Does (Fades i) m → Does Earns m
  faded h = record { at = λ s. Fades-IsEarned (h.at s) }

  -- A change of anything but the jobs.
  pub same_jobs :
      {s t : JobStore} → t.jobs ≡ s.jobs → t.created ≡ s.created → IsEarned E s → IsEarned E t
  same_jobs e c h = record {
    result = λ k r below q.
        subst (λ f. E k (f k).mode (produced r)) (sym e)
          (h.result k r (subst (λ n. k < n) c below) (ap (λ f. (f k).result) (sym e) ∙ q));
    verification = λ k v below q.
        subst (λ f. E k (f k).mode (verified v)) (sym e)
          (h.verification k v (subst (λ n. k < n) c below)
            (ap (λ f. (f k).verification) (sym e) ∙ q));
  }

  pub IsEarned-StoreRules : StoreRules (IsEarned E)
  IsEarned-StoreRules = record {
    cancels = λ current discard i.
        faded (Local.cancel-Keeps i (Fades i) (Fades-LocalRules i) current discard);
    closes = λ i. faded ((Fades-LocalRules i).closes false);
    shuts = same_jobs refl refl;
    shuts_worker = same_jobs refl refl;
  }

  with_outcome-mode : (o : Outcome) (j : FileJob) → (with_outcome o j).mode ≡ j.mode
  unfolding with_outcome
  with_outcome-mode (verified v) j = refl
  with_outcome-mode (produced r) j = refl

  with_outcome-result :
      (o : Outcome) (j : FileJob) {r : JobResult}
      → (with_outcome o j).result ≡ some r
      → (o ≡ produced r) ⊎ (j.result ≡ some r)
  unfolding with_outcome
  with_outcome-result (verified v) j h = inr h
  with_outcome-result (produced q) j h = inl cc

  with_outcome-verification :
      (o : Outcome) (j : FileJob) {v : JobVerification}
      → (with_outcome o j).verification ≡ some v
      → (o ≡ verified v) ⊎ (j.verification ≡ some v)
  unfolding with_outcome
  with_outcome-verification (verified w) j h = inl cc
  with_outcome-verification (produced q) j h = inr h

  pub keep_outcome-IsEarned :
      (o : Outcome) (i : ℕ) {s : JobStore}
      → E i (s.jobs i).mode o
      → IsEarned E s
      → IsEarned E (keep_outcome o i s).1
  unfolding keep_outcome
  keep_outcome-IsEarned o i {s} earned h = record {
    result = λ k r below e. elim (ℕ_discrete i k) [
      | yes here ↦
          rw (here, ==_refl k)
            (elim (with_outcome-result o (s.jobs k) (rw (here, ==_refl k) at e)) [
              | inl new ↦
                  subst₂ (E k) (sym (with_outcome-mode o (s.jobs k))) new
                    (subst (λ n. E n (s.jobs n).mode o) here earned)
              | inr old ↦
                  subst (λ m. E k m (produced r)) (sym (with_outcome-mode o (s.jobs k)))
                    (h.result k r below old)
            ])
      | no other ↦ rw (different other) (h.result k r below (rw (different other) at e))
    ];
    verification = λ k v below e. elim (ℕ_discrete i k) [
      | yes here ↦
          rw (here, ==_refl k)
            (elim (with_outcome-verification o (s.jobs k) (rw (here, ==_refl k) at e)) [
              | inl new ↦
                  subst₂ (E k) (sym (with_outcome-mode o (s.jobs k))) new
                    (subst (λ n. E n (s.jobs n).mode o) here earned)
              | inr old ↦
                  subst (λ m. E k m (verified v)) (sym (with_outcome-mode o (s.jobs k)))
                    (h.verification k v below old)
            ])
      | no other ↦ rw (different other) (h.verification k v below (rw (different other) at e))
    ];
  }
    where
      different : {k : ℕ} → i ≢ k → (i == k) ≡ false
      different h = ground arith
