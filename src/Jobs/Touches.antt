-- ===== src/Jobs/Touches.antt =====
-- What an operation on one job leaves as it was: the other jobs, their leases, and the store's job
-- unless it is this one and its lease was closed.
use quantum_encryptor.Prelude.{
  ℕ, ◌≡◌, ◌≢◌, refl, sym, ap, ◌∙◌, ◌⊎◌, inl, inr, Bool, true, false, none, some, arith, ==_refl,
  ◌==◌, if◌then◌else◌,
}
use quantum_encryptor.Failure.{ok}
use quantum_encryptor.Exec.{ensuring}
use quantum_encryptor.Worker.{CryptoWorker, release_if_finished, close_lease}
use quantum_encryptor.Jobs.{
  FileJob, JobStore, change, closed_files, close_files, forget, is_discardable, discard_if_finished,
}
use quantum_encryptor.Jobs.Harmless.{LocalRules}
use quantum_encryptor.Jobs.Effects.{IsPreorder, Does, when-Does}

abbrev pub lease_closed : JobStore → ℕ → Bool
lease_closed s l = (s.worker.leases l).closed

pub record Touches (i : ℕ) (s t : JobStore) : Type 0 where
  pub others : (k : ℕ) → k ≢ i → t.jobs k ≡ s.jobs k
  pub lease : (t.jobs i).lease ≡ (s.jobs i).lease
  pub created : t.created ≡ s.created
  pub leases_created : t.worker.created ≡ s.worker.created
  pub stays_closed : (l : ℕ) → lease_closed s l ≡ true → lease_closed t l ≡ true
  pub job :
      (t.job ≡ s.job)
      ⊎ ((s.job ≡ some i) × (t.job ≡ none) × (lease_closed t (s.jobs i).lease ≡ true))

pub Touches-IsPreorder : (i : ℕ) → IsPreorder (Touches i)
Touches-IsPreorder i = record {
  same = λ s. record {
    others = λ k h. refl;
    lease = refl;
    created = refl;
    leases_created = refl;
    stays_closed = λ l h. h;
    job = inl refl;
  };
  chain = λ {s} {t} {u} h k. record {
    others = λ n m. k.others n m ∙ h.others n m;
    lease = k.lease ∙ h.lease;
    created = k.created ∙ h.created;
    leases_created = k.leases_created ∙ h.leases_created;
    stays_closed = λ l c. k.stays_closed l (h.stays_closed l c);
    job = elim h.job [
      | inr (mine, gone, c) ↦ inr (
        mine,
        elim k.job [ inl after ↦ after ∙ gone | inr (m, g, d) ↦ g ],
        k.stays_closed (s.jobs i).lease c,
      )
      | inl before ↦ elim k.job [
        | inl after ↦ inl (after ∙ before)
        | inr (mine, gone, c) ↦ inr (sym before ∙ mine, gone, ap (lease_closed u) (sym h.lease) ∙ c)
      ]
    ];
  };
}

pub change-Touches :
    (i : ℕ) (f : FileJob → FileJob)
    → ((j : FileJob) → (f j).lease ≡ j.lease)
    → Does (Touches i) (change i f)
change-Touches i f keeps = record {
  at = λ s. record {
    others = λ k n. ground arith;
    lease = rw (==_refl i) (keeps (s.jobs i));
    created = refl;
    leases_created = refl;
    stays_closed = λ l c. c;
    job = inl refl;
  };
}

close_lease-closed :
    (l : ℕ) (w : CryptoWorker) (m : ℕ)
    → ((close_lease l w).leases m).closed ≡ (if l == m then true else (w.leases m).closed)
unfolding close_lease release_if_finished
close_lease-closed l w m = ground arith

close_lease-created : (l : ℕ) (w : CryptoWorker) → (close_lease l w).created ≡ w.created
unfolding close_lease release_if_finished
close_lease-created l w = ground arith

closed_files-lease : (keep : Bool) (j : FileJob) → (closed_files keep j).lease ≡ j.lease
unfolding closed_files
closed_files-lease keep j = ground arith

pub close_files-closes :
    (keep : Bool) (i : ℕ) (s : JobStore)
    → lease_closed (close_files keep i s).1 (s.jobs i).lease ≡ true
unfolding close_files
close_files-closes keep i s =
    close_lease-closed (s.jobs i).lease s.worker (s.jobs i).lease
    ∙ rw (==_refl (s.jobs i).lease) refl

pub close_files-Touches : (keep : Bool) (i : ℕ) → Does (Touches i) (close_files keep i)
unfolding close_files
close_files-Touches keep i = record {
  at = λ s. record {
    others = λ k n. ground arith;
    lease = rw (==_refl i) (closed_files-lease keep (s.jobs i));
    created = refl;
    leases_created = close_lease-created (s.jobs i).lease s.worker;
    stays_closed = λ l c. close_lease-closed (s.jobs i).lease s.worker l ∙ rw c (ground arith);
    job = inl refl;
  };
}

forget-job :
    (i : ℕ) (s : JobStore)
    → ((forget i s).1.job ≡ s.job) ⊎ ((s.job ≡ some i) × ((forget i s).1.job ≡ none))
unfolding forget
forget-job i s = ground arith

forget-rest :
    (i : ℕ) (s : JobStore)
    → ((forget i s).1.jobs ≡ s.jobs)
      × ((forget i s).1.created ≡ s.created)
      × ((forget i s).1.worker ≡ s.worker)
unfolding forget
forget-rest i s = ground arith

-- The store forgets a job after its lease was closed.
forget-Touches :
    (i : ℕ) (s : JobStore) → lease_closed s (s.jobs i).lease ≡ true → Touches i s (forget i s).1
forget-Touches i s c =
    let (jobs, created, worker) = forget-rest i s in
    record {
      others = λ k n. ap (λ f. f k) jobs;
      lease = ap (λ f. (f i).lease) jobs;
      created = created;
      leases_created = ap (λ (w : CryptoWorker). w.created) worker;
      stays_closed = λ l h. ap (λ (w : CryptoWorker). (w.leases l).closed) worker ∙ h;
      job = elim (forget-job i s) [
        | inl same ↦ inl same
        | inr (mine, gone) ↦
            inr
              (mine, gone, ap (λ (w : CryptoWorker). (w.leases (s.jobs i).lease).closed) worker ∙ c)
      ];
    }

pub discard_if_finished-Touches : (i : ℕ) → Does (Touches i) (discard_if_finished i)
unfolding discard_if_finished
discard_if_finished-Touches i = record {
  at = λ s.
      let pre = Touches-IsPreorder i in
      let closed = (close_files false i s).1 in
      let touched = (close_files-Touches false i).at s in
      when-Does pre (is_discardable (s.jobs i)) s (ensuring (close_files false i) (forget i) s)
        (ok tt, s)
        (pre.chain touched (
          forget-Touches i closed
            (ap (lease_closed closed) touched.lease ∙ close_files-closes false i s)))
        (pre.same s);
}

pub Touches-LocalRules : (i : ℕ) → LocalRules i (Touches i)
Touches-LocalRules i = record {
  pre = Touches-IsPreorder i;
  changes = λ f harmless. change-Touches i f harmless.lease;
  closes = λ keep_output. close_files-Touches keep_output i;
  discards = discard_if_finished-Touches i;
  stops = λ task s. record {
    others = λ k h. refl;
    lease = refl;
    created = refl;
    leases_created = refl;
    stays_closed = λ l h. h;
    job = inl refl;
  };
}
