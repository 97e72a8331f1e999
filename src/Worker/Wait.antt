-- ===== src/Worker/Wait.antt =====
-- `finish_owned` of api_worker.py: waiting for a future through cancellations of the waiting task.
-- A future settles once. While it is not done, each `await asyncio.shield(future)` is ended by a
-- cancellation of the task or by the future.
use quantum_encryptor.Prelude.{
  ℕ, zero, suc, ◌+◌, ◌≡◌, refl, ap, ◌∙◌, Bool, true, false, Option, none, some, List, [], ◌∷◌, ◌++◌,
  replicate, arith,
}
use quantum_encryptor.Failure.{Failure}

pub data Settled (A : Type 0) : Type 0 where
  value : A → Settled A
  exception : Failure → Settled A
  cancelled : Settled A

pub data Wake (A : Type 0) : Type 0 where
  interrupted : Wake A
  settled : Settled A → Wake A

-- How the call ends, with the number of calls of `on_cancel`. `waiting` is no end: the wakes that
-- are given ran out before the future was done.
pub data Outcome (A : Type 0) : Type 0 where
  returned : A → Outcome A
  raised : Failure → Outcome A
  cancelled_error : Outcome A
  waiting : Outcome A

module _ {A : Type 0} where
  -- `if interrupted: ... raise CancelledError`, else `future.result()`
  unfoldable pub after_loop : Bool → Settled A → Outcome A
  after_loop true f = cancelled_error
  after_loop false (value a) = returned a
  after_loop false (exception e) = raised e
  after_loop false cancelled = cancelled_error

  -- The loop. The await of a future that ends cancelled raises `CancelledError` here too.
  unfoldable pub wait_loop : Bool → ℕ → List (Wake A) → Outcome A × ℕ
  unfolding after_loop
  wait_loop was calls [] = (waiting, calls)
  wait_loop was calls (interrupted ∷ wakes) = wait_loop true (calls + 1) wakes
  wait_loop was calls (settled cancelled ∷ wakes) = (after_loop true cancelled, calls + 1)
  wait_loop was calls (settled f ∷ wakes) = (after_loop was f, calls)

  -- The first argument is what the future already holds when the call begins.
  unfoldable pub finish_owned : Option (Settled A) → List (Wake A) → Outcome A × ℕ
  unfolding wait_loop
  finish_owned (some f) wakes = (after_loop false f, 0)
  finish_owned none wakes = wait_loop false 0 wakes

  -- What the caller sees of a future that settled after `n` cancellations.
  abbrev pub seen : ℕ → Settled A → Outcome A
  seen zero (value a) = returned a
  seen zero (exception e) = raised e
  seen zero cancelled = cancelled_error
  seen (suc n) f = cancelled_error

  abbrev pub calls_of : Settled A → ℕ
  calls_of cancelled = 1
  calls_of _ = 0

  loop_interrupted :
      (n k : ℕ) (f : Settled A) (more : List (Wake A))
      → wait_loop true k (replicate n interrupted ++ settled f ∷ more)
        ≡ (cancelled_error, k + n + calls_of f)
  unfolding wait_loop
  loop_interrupted zero k (value a) more = ground arith
  loop_interrupted zero k (exception e) more = ground arith
  loop_interrupted zero k cancelled more = ground arith
  loop_interrupted (suc n) k f more =
      loop_interrupted n (k + 1) f more ∙ ap (λ m. (cancelled_error, m)) (omega arith)

  -- However often the waiting task is cancelled, the call ends only with the future, calls
  -- `on_cancel` once for each cancellation (and once if the future itself is cancelled), and after
  -- any cancellation raises `CancelledError`; with none it returns or raises what the future holds.
  pub finish_owned_waits :
      (n : ℕ) (f : Settled A) (more : List (Wake A))
      → finish_owned none (replicate n interrupted ++ settled f ∷ more) ≡ (seen n f, n + calls_of f)
  unfolding finish_owned
  finish_owned_waits zero (value a) more = refl
  finish_owned_waits zero (exception e) more = refl
  finish_owned_waits zero cancelled more = refl
  finish_owned_waits (suc n) f more =
      loop_interrupted n 1 f more ∙ ap (λ m. (cancelled_error, m)) (omega arith)

  -- Until the future is done the call does not end.
  pub finish_owned-not_before : (n : ℕ) → finish_owned none (replicate n interrupted) ≡ (waiting, n)
  unfolding finish_owned
  finish_owned-not_before n = loop n false 0 ∙ ap (λ m. (waiting, m)) (omega arith)
    where
      loop :
          (n : ℕ) (was : Bool) (k : ℕ)
          → wait_loop was k (replicate n interrupted) ≡ (waiting, k + n)
      loop zero was k = ground arith
      loop (suc n) was k = loop n true (k + 1) ∙ ap (λ m. (waiting, m)) (omega arith)
