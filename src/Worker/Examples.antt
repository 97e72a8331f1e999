-- ===== src/Worker/Examples.antt =====
-- Histories of one worker, and the theorems about workers at concrete inputs.
use quantum_encryptor.Prelude.{ℕ, ◌<◌, ◌≤◌, ◌≡◌, ◌↔◌, refl, true, false, none, some, [], ◌∷◌, arith}
use quantum_encryptor.Failure.{value_error}
use quantum_encryptor.Worker.{
  CryptoWorker, new_worker, acquire, submit, work_finished, close_lease, close_worker,
}
use quantum_encryptor.Worker.Step.{Reachable, count, acquires, submits, closes_lease, start, next}
use quantum_encryptor.Worker.Admission.{
  Onward, here, IsFinished, Reachable-exclusive, acquire_iff, closed_worker_admits_nothing,
}
use quantum_encryptor.Worker.Wait.{
  exception, interrupted, settled, cancelled_error, finish_owned, finish_owned_waits,
}

-- One request submits two functions and closes its lease before they are done.
abbrev running : CryptoWorker
running = close_lease 0 (submit true 0 (submit true 0 (acquire new_worker).1).1).1

running-Reachable : Reachable running
unfolding acquire submit
running-Reachable =
    next
      (next (next (next start acquires) (submits true 0 (omega arith)))
        (submits true 0 (omega arith)))
      (closes_lease 0 (omega arith))

busy_for_others : (acquire running).0 ≡ none
unfolding acquire submit close_lease
busy_for_others = refl

-- After both are done the worker is free.
drained : (acquire (work_finished 0 (work_finished 0 running))).0 ≡ some 1
unfolding acquire submit close_lease work_finished
drained = refl

Reachable-exclusive_example : running.lease ≡ some 0
Reachable-exclusive_example =
    Reachable-exclusive 0 running-Reachable (unfold acquire submit close_lease in omega arith)

acquire_iff_example :
    ((acquire running).0 ≡ some running.created)
    ↔ ((running.closed ≡ false) × ((i : ℕ) → i < running.created → IsFinished running i))
acquire_iff_example = acquire_iff running-Reachable

abbrev shut : CryptoWorker
shut = close_worker running

shut-Onward : Onward shut (submit true 0 shut).1
shut-Onward =
    Onward.next here
      (submits true 0 (unfold close_worker acquire submit close_lease in omega arith))

closed_worker_admits_nothing_example :
    ((acquire (submit true 0 shut).1).0 ≡ none)
    × ((submit true 0 shut).1.created ≡ shut.created)
    × ((i : ℕ) → count i (submit true 0 shut).1.futures ≤ count i shut.futures)
closed_worker_admits_nothing_example =
    closed_worker_admits_nothing {w = shut} (unfold close_worker in refl) shut-Onward

finish_owned_waits_example :
    finish_owned {A = ℕ} none (interrupted ∷ interrupted ∷ settled (exception value_error) ∷ [])
    ≡ (cancelled_error, 2)
finish_owned_waits_example = finish_owned_waits 2 (exception value_error) []
