-- ===== src/Worker/Step.antt =====
-- Every history of a worker: its operations in any order, and futures that are done in any order.
use quantum_encryptor.Prelude.{
  ℕ, ◌+◌, ◌<◌, ◌≡◌, ◌≢◌, Bool, true, some, List, [], ◌∷◌, ◌++◌, ◌==◌, if◌then◌else◌,
}
use quantum_encryptor.Worker.{
  CryptoWorker, new_worker, acquire, submit, work_finished, close_lease, close_worker,
}

-- How many of the futures were submitted through a lease.
abbrev pub count : ℕ → List ℕ → ℕ
count i [] = 0
count i (j ∷ js) = (if j == i then 1 else 0) + count i js

-- Only leases that exist are used. A future that is done is one of those that were not.
pub data Step (w : CryptoWorker) : CryptoWorker → Type 0 where
  acquires : Step w (acquire w).1
  submits : (accepted : Bool) (i : ℕ) → i < w.created → Step w (submit accepted i w).1
  finishes :
      (i : ℕ) (before after : List ℕ)
      → w.futures ≡ before ++ i ∷ after
      → Step w (work_finished i (record w { futures = before ++ after }))
  closes_lease : (i : ℕ) → i < w.created → Step w (close_lease i w)
  closes_worker : Step w (close_worker w)

pub data Reachable : CryptoWorker → Type 0 where
  start : Reachable new_worker
  next : {w w' : CryptoWorker} → Reachable w → Step w w' → Reachable w'

-- The lease that the worker holds is not finished, and every other lease that exists is. Each
-- lease counts its futures.
pub record IsOrderly (w : CryptoWorker) : Type 0 where
  pub held :
      (i : ℕ)
      → w.lease ≡ some i
      → (i < w.created) × ((w.leases i).closed ≡ true → 0 < (w.leases i).pending)
  pub others :
      (i : ℕ)
      → i < w.created
      → w.lease ≢ some i
      → ((w.leases i).closed ≡ true) × ((w.leases i).pending ≡ 0)
  pub counted : (i : ℕ) → i < w.created → (w.leases i).pending ≡ count i w.futures
  pub known : (i : ℕ) → 0 < count i w.futures → i < w.created
