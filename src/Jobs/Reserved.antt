-- ===== src/Jobs/Reserved.antt =====
-- A reservation keeps the store's order.
use quantum_encryptor.Prelude.{
  ℕ, ◌+◌, ◌*◌, ◌<◌, ◌≡◌, ◌≢◌, refl, sym, ap, ◌∙◌, Bool, true, false, not, ◌||◌, Option, none, some,
  Text, arith, codes, ltb, ℕ_discrete, ◌==◌, ==_refl,
}
use quantum_encryptor.Failure.{Failure, Result, ok, err, job_error}
use quantum_encryptor.Exec.{Exec, lift, check, ◌>>=◌, ◌>>◌}
use quantum_encryptor.Worker.{CryptoWorker, is_some, acquire, close_lease, release_if_finished}
use quantum_encryptor.Worker.Step as WorkerStep
use quantum_encryptor.Jobs.{
  JobStore, Surroundings, valid_size, size_limit, new_job, place_job, add_job, acquire_lease, admit,
  reserve,
}
use quantum_encryptor.Jobs.Files.{TemporaryFile}
use quantum_encryptor.Jobs.Admission.{IsAdmitted, IsLater, Step-IsLater, IsLater-IsAdmitted}

module _ {A B : Type 0} (P : JobStore → Type 0) where
  pub lift_then :
      (r : Result A) (f : A → Exec JobStore B) (s : JobStore)
      → P s
      → ((a : A) → P (f a s).1)
      → P ((lift r >>= f) s).1
  lift_then (err e) f s p h = p
  lift_then (ok a) f s p h = h a

pub check_then :
    {B : Type 0} (P : JobStore → Type 0) (b : Bool) (e : Failure) (k : Exec JobStore B)
    (s : JobStore)
    → P s
    → (b ≡ true → P (k s).1)
    → P ((check b e >> k) s).1
check_then P true e k s p h = h refl
check_then P false e k s p h = p

new_lease :
    (env : Surroundings) (mode filename : Text) (n l ttl : ℕ) (file : TemporaryFile)
    → (new_job env mode filename n l ttl file).lease ≡ l
unfolding new_job
new_lease env mode filename n l ttl file = refl

close_lease-IsLater : (l : ℕ) (w : CryptoWorker) → IsLater w (close_lease l w)
unfolding close_lease release_if_finished
close_lease-IsLater l w = record { more = ground arith; same_closed = λ m below c. ground arith }

acquire-eq_some : (w : CryptoWorker) {l : ℕ} → (acquire w).0 ≡ some l → l < (acquire w).1.created
unfolding acquire
acquire-eq_some w h = ground arith

-- A job with a lease that exists, in a store without a job.
place_job-IsAdmitted :
    (env : Surroundings) (mode filename : Text) (n l : ℕ) (file : Option TemporaryFile)
    {s : JobStore}
    → s.job ≡ none
    → l < s.worker.created
    → IsAdmitted s
    → IsAdmitted (place_job env mode filename n l file s).1
unfolding place_job
place_job-IsAdmitted env mode filename n l none {s} free below h =
    IsLater-IsAdmitted (close_lease-IsLater l s.worker) h
place_job-IsAdmitted env mode filename n l (some file) {s} free below h = record {
  held = λ k e. ground arith;
  known = λ k older. elim (ℕ_discrete s.created k) [
    | yes same ↦ rw (same, ==_refl k) (rw (new_lease env mode filename n l s.ttl file) below)
    | no other ↦ rw (different other) (h.known k (omega arith))
  ];
  holds = λ k older c. elim (ℕ_discrete s.created k) [
    | yes same ↦ ap (λ x. some x) same
    | no other ↦ absurd (no_job (sym free ∙ h.holds k (omega arith) (rw (different other) at c)))
  ];
}
  where
    different : {k : ℕ} → s.created ≢ k → (s.created == k) ≡ false
    different h = ground arith

    no_job : {k : ℕ} → ◌≡◌ {A = Option ℕ} none (some k) → ⊥
    no_job e = cc

add_job-IsAdmitted :
    (env : Surroundings) (mode filename : Text) (n : ℕ) (o : Option ℕ) {s : JobStore}
    → s.job ≡ none
    → ((l : ℕ) → o ≡ some l → l < s.worker.created)
    → IsAdmitted s
    → IsAdmitted (add_job env mode filename n o s).1
unfolding add_job
add_job-IsAdmitted env mode filename n none free below h = h
add_job-IsAdmitted env mode filename n (some l) free below h =
    place_job-IsAdmitted env mode filename n l env.file free (below l refl) h

admit-IsAdmitted :
    (env : Surroundings) (mode filename : Text) (n : ℕ) (s : JobStore)
    → s.job ≡ none
    → IsAdmitted s
    → IsAdmitted (admit env mode filename n s).1
unfolding admit acquire_lease
admit-IsAdmitted env mode filename n s free h =
    add_job-IsAdmitted env mode filename n (acquire s.worker).0 free (λ l. acquire-eq_some s.worker)
      (IsLater-IsAdmitted (Step-IsLater WorkerStep.acquires) h)

free_store : (s : JobStore) → not (s.closed || is_some s.job) ≡ true → s.job ≡ none
free_store s h = ground arith

pub reserve-IsAdmitted :
    (env : Surroundings) (mode filename : Text) (size : Option ℕ) (s : JobStore)
    → IsAdmitted s
    → IsAdmitted (reserve env mode filename size s).1
unfolding reserve
reserve-IsAdmitted env mode filename size s h =
    lift_then IsAdmitted (valid_size mode size) _ s h (λ n.
      lift_then IsAdmitted (size_limit mode) _ s h (λ limit.
        check_then IsAdmitted (not (ltb limit n)) (job_error 413 (codes "file_too_large")) _ s h
          (λ small.
            check_then IsAdmitted (not (s.closed || is_some s.job))
              (job_error 429 (codes "server_busy")) _ s h
              (λ free.
                check_then IsAdmitted (not (ltb env.free (n * 3 + 64 * 1024 * 1024)))
                  (job_error 507 (codes "insufficient_storage")) _ s h
                  (λ space. admit-IsAdmitted env mode filename n s (free_store s free) h)))))
