-- ===== src/Jobs/Whole.antt =====
-- The operations on the store as a whole keep what operations on one job keep.
use quantum_encryptor.Prelude.{
  ℕ, Bool, true, false, not, ◌||◌, Option, none, some, Text, list_eq, leb,
}
use quantum_encryptor.Failure.{ok, err}
use quantum_encryptor.Exec.{raise, ◌>>◌}
use quantum_encryptor.Worker.{close_worker}
use quantum_encryptor.Jobs.{JobStore, close_files, expired_error, get_at, get, cancel}
use quantum_encryptor.Jobs.Download.{
  reap_job, reap, cancel_held, begin_close, close_job, shut_worker, end_close,
}
use quantum_encryptor.Jobs.Effects.{Does, when-Does, lift-Does, >>-Does, ensuring-Does, IsPreorder}

-- What a predicate on stores needs.
pub record StoreRules (P : JobStore → Type 0) : Type 0 where
  pub cancels :
      (current : Option ℕ) (discard : Bool) (i : ℕ)
      → Does (λ s t. P s → P t) (cancel current discard i)
  pub closes : (i : ℕ) → Does (λ s t. P s → P t) (close_files false i)
  pub shuts : {s : JobStore} → P s → P (record s { closed = true })
  pub shuts_worker : {s : JobStore} → P s → P (record s { worker = close_worker s.worker })

module _ (P : JobStore → Type 0) (rules : StoreRules P) where
  abbrev pub Orderly : JobStore → JobStore → Type 0
  Orderly s t = P s → P t

  pub Orderly-IsPreorder : IsPreorder Orderly
  Orderly-IsPreorder = record { same = λ s h. h; chain = λ h k p. k (h p) }

  get_at-Orderly :
      (current : Option ℕ) (now : ℕ) (identifier : Text) (held : Option ℕ) (s : JobStore)
      → Orderly s (get_at current now identifier held s).1
  unfolding get_at
  get_at-Orderly current now identifier none s = λ h. h
  get_at-Orderly current now identifier (some i) s =
      let pre = Orderly-IsPreorder in
      let j = s.jobs i in
      when-Does pre (not (list_eq j.id identifier) || j.discard) s (err expired_error, s) _ (λ h. h)
        (when-Does pre (leb j.deadline now) s ((cancel current true i >> raise expired_error) s)
          (ok i, s)
          ((>>-Does pre (rules.cancels current true i) (lift-Does pre (err expired_error))).at s)
          (λ h. h))

  pub get-Orderly :
      (current : Option ℕ) (now : ℕ) (identifier : Text) (s : JobStore)
      → Orderly s (get current now identifier s).1
  unfolding get
  get-Orderly current now identifier s = get_at-Orderly current now identifier s.job s

  reap_job-Orderly :
      (current : Option ℕ) (now : ℕ) (held : Option ℕ) (s : JobStore)
      → Orderly s (reap_job current now held s).1
  unfolding reap_job
  reap_job-Orderly current now none s = λ h. h
  reap_job-Orderly current now (some i) s =
      when-Does Orderly-IsPreorder (leb (s.jobs i).deadline now) s
        (ok tt, (cancel current true i s).1) (ok tt, s) ((rules.cancels current true i).at s)
        (λ h. h)

  pub reap-Orderly :
      (current : Option ℕ) (now : ℕ) (s : JobStore) → Orderly s (reap current now s).1
  unfolding reap
  reap-Orderly current now s = reap_job-Orderly current now s.job s

  cancel_held-Orderly :
      (current held : Option ℕ) (s : JobStore) → Orderly s (cancel_held current held s).1
  unfolding cancel_held
  cancel_held-Orderly current none s = λ h. h
  cancel_held-Orderly current (some i) s = (rules.cancels current true i).at s

  pub begin_close-Orderly :
      (current : Option ℕ) (s : JobStore) → Orderly s (begin_close current s).1
  unfolding begin_close
  begin_close-Orderly current s h =
      cancel_held-Orderly current s.job (record s { closed = true }) (rules.shuts h)

  shut_worker-Orderly : Does Orderly shut_worker
  unfolding shut_worker
  shut_worker-Orderly = record { at = λ s. rules.shuts_worker }

  close_job-Orderly : (i : ℕ) → Does Orderly (close_job i)
  unfolding close_job
  close_job-Orderly i = record {
    at = λ s.
        when-Does Orderly-IsPreorder (s.jobs i).downloading s (ok tt, s) (close_files false i s)
          (λ h. h) ((rules.closes i).at s);
  }

  pub end_close-Orderly : (held : Option ℕ) → Does Orderly (end_close held)
  unfolding end_close
  end_close-Orderly none = shut_worker-Orderly
  end_close-Orderly (some i) =
      ensuring-Does Orderly-IsPreorder (close_job-Orderly i) shut_worker-Orderly
