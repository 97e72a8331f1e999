-- ===== src/Jobs/Admission.antt =====
-- At most one job is open, whatever happens in which order.
use quantum_encryptor.Prelude.{
  ℕ, ◌<◌, ◌≤◌, ◌≡◌, refl, sym, ap, ◌∙◌, inl, inr, Bool, true, false, Option, none, some, arith,
  ℕ_discrete,
}
use mathlib.Core.Path.{subst, subst₂}
use quantum_encryptor.Worker.{
  CryptoWorker, acquire, submit, release_if_finished, work_finished, close_lease, close_worker,
}
use quantum_encryptor.Worker.Step as WorkerStep
use quantum_encryptor.Jobs.{FileJob, JobStore}
use quantum_encryptor.Jobs.Touches.{Touches, lease_closed}

pub record IsAdmitted (s : JobStore) : Type 0 where
  pub held : (i : ℕ) → s.job ≡ some i → i < s.created
  pub known : (i : ℕ) → i < s.created → (s.jobs i).lease < s.worker.created
  pub holds : (i : ℕ) → i < s.created → lease_closed s (s.jobs i).lease ≡ false → s.job ≡ some i

not_both : (b : Bool) → b ≡ true → b ≡ false → ⊥
not_both b h k = cc

was_open : (a b : Bool) → (a ≡ true → b ≡ true) → b ≡ false → a ≡ false
was_open true b h c = absurd (not_both b (h refl) c)
was_open false b h c = refl

absent_is_not_present : {k : ℕ} → ◌≡◌ {A = Option ℕ} none (some k) → ⊥
absent_is_not_present e = cc

some_same : {i k : ℕ} → ◌≡◌ {A = Option ℕ} (some i) (some k) → i ≡ k
some_same e = cc

same_lease :
    {i : ℕ} {s t : JobStore} → Touches i s t → (k : ℕ) → (t.jobs k).lease ≡ (s.jobs k).lease
same_lease {i} {s} {t} d k = elim (ℕ_discrete k i) [
  | yes same ↦ subst (λ n. (t.jobs n).lease ≡ (s.jobs n).lease) (sym same) d.lease
  | no other ↦ ap (λ (j : FileJob). j.lease) (d.others k other)
]

pub Touches-IsAdmitted : {i : ℕ} {s t : JobStore} → Touches i s t → IsAdmitted s → IsAdmitted t
Touches-IsAdmitted {i} {s} {t} d h = record {
  held = λ k e. elim d.job [
    | inl same ↦ subst (λ n. k < n) (sym d.created) (h.held k (sym same ∙ e))
    | inr (mine, gone, c) ↦ absurd (absent_is_not_present (sym gone ∙ e))
  ];
  known = λ k below.
      subst₂ (λ l n. l < n) (sym (same_lease d k)) (sym d.leases_created)
        (h.known k (subst (λ n. k < n) d.created below));
  holds = λ k below c.
      let here = ap (lease_closed t) (sym (same_lease d k)) ∙ c in
      let was =
        h.holds k (subst (λ n. k < n) d.created below)
          (was_open _ _ (d.stays_closed (s.jobs k).lease) here) in
      elim d.job [
        | inl same ↦ same ∙ was
        | inr (mine, gone, closed) ↦ absurd (
            not_both (lease_closed t (s.jobs i).lease) closed (
              subst (λ n. lease_closed t (s.jobs n).lease ≡ false)
                (sym (some_same (sym mine ∙ was))) here))
      ];
}

-- What the worker's own steps leave: leases stay closed, and new ones are new.
pub record IsLater (w v : CryptoWorker) : Type 0 where
  pub more : w.created ≤ v.created
  pub same_closed :
      (l : ℕ) → l < w.created → (w.leases l).closed ≡ true → (v.leases l).closed ≡ true

pub Step-IsLater : {w v : CryptoWorker} → WorkerStep.Step w v → IsLater w v
unfolding acquire submit work_finished close_lease close_worker release_if_finished
Step-IsLater {w} WorkerStep.acquires = record {
  more = ground arith;
  same_closed = λ l below c. ground arith;
}
Step-IsLater {w} (WorkerStep.submits accepted i below) = record {
  more = ground arith;
  same_closed = λ l b c. ground arith;
}
Step-IsLater {w} (WorkerStep.finishes i before after e) = record {
  more = ground arith;
  same_closed = λ l b c. ground arith;
}
Step-IsLater {w} (WorkerStep.closes_lease i below) = record {
  more = ground arith;
  same_closed = λ l b c. ground arith;
}
Step-IsLater {w} WorkerStep.closes_worker = record { more = omega arith; same_closed = λ l b c. c }

pub IsLater-IsAdmitted :
    {s : JobStore} {v : CryptoWorker}
    → IsLater s.worker v
    → IsAdmitted s
    → IsAdmitted (record s { worker = v })
IsLater-IsAdmitted {s} {v} d h = record {
  held = h.held;
  known = λ i below. omega (arith, h.known i below, d.more);
  holds = λ i below c.
      h.holds i below (was_open _ _ (d.same_closed (s.jobs i).lease (h.known i below)) c);
}
