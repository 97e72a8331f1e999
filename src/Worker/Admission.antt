-- ===== src/Worker/Admission.antt =====
-- What the order of the leases means for the requests that share the worker.
use native.Mathlib.Nat.{le_refl, le_trans}
use quantum_encryptor.Prelude.{
  ℕ, ◌≤◌, ◌<◌, ◌≡◌, ◌↔◌, refl, true, false, Option, none, some, arith, inl, inr, ℕ_discrete,
  Option-cases, ◌∙◌,
}
use quantum_encryptor.Worker.{
  CryptoWorker, acquire, submit, work_finished, close_lease, close_worker, release_if_finished,
}
use quantum_encryptor.Worker.Step.{
  Step, Reachable, IsOrderly, count, acquires, submits, finishes, closes_lease, closes_worker,
}
use quantum_encryptor.Worker.Orderly.{Reachable-IsOrderly, count-middle}

lease_discrete : Discrete (Option ℕ)
lease_discrete = hlevel ℕ_discrete

-- In every history, a future that is not done was submitted through the lease that the worker
-- holds: no two requests have work at once, whatever is submitted, cancelled or closed.
pub Reachable-exclusive :
    {w : CryptoWorker} (i : ℕ) → Reachable w → 0 < count i w.futures → w.lease ≡ some i
Reachable-exclusive {w} i r busy =
    let h = Reachable-IsOrderly r in
    elim (lease_discrete w.lease (some i)) [
      | yes same ↦ same
      | no other ↦
          absurd (omega (arith, h.others i (h.known i busy) other, h.counted i (h.known i busy)))
    ]

-- A lease object is finished when it is closed and none of its futures is left.
pub record IsFinished (w : CryptoWorker) (i : ℕ) : Type 0 where
  pub closed : (w.leases i).closed ≡ true
  pub done : count i w.futures ≡ 0

acquired→open :
    {w : CryptoWorker}
    → IsOrderly w
    → (acquire w).0 ≡ some w.created
    → (w.closed ≡ false) × ((i : ℕ) → i < w.created → IsFinished w i)
unfolding acquire
acquired→open {w} h e = (
  ground arith,
  λ i below.
      let free : w.lease ≡ none = ground arith in
      let (closed, idle) = h.others i below (ground arith) in
      record { closed = closed; done = omega (arith, h.counted i below) },
)

open→acquired :
    {w : CryptoWorker}
    → IsOrderly w
    → w.closed ≡ false
    → ((i : ℕ) → i < w.created → IsFinished w i)
    → (acquire w).0 ≡ some w.created
unfolding acquire
open→acquired {w} h opened all = elim (Option-cases w.lease) [
  | inl free ↦ rw (opened, free)
  | inr (i, held) ↦
      let (below, kept) = h.held i held in
      let f = all i below in absurd (omega (arith, kept f.closed, h.counted i below, f.done))
]

-- In every history, `acquire` admits a request exactly when the worker is not closed and every
-- lease handed out before is closed and has no future left.
pub acquire_iff :
    {w : CryptoWorker}
    → Reachable w
    → ((acquire w).0 ≡ some w.created)
      ↔ ((w.closed ≡ false) × ((i : ℕ) → i < w.created → IsFinished w i))
acquire_iff r =
    let h = Reachable-IsOrderly r in (acquired→open h, λ (opened, all). open→acquired h opened all)

-- A history that goes on from `w`.
pub data Onward (w : CryptoWorker) : CryptoWorker → Type 0 where
  here : Onward w w
  next : {u v : CryptoWorker} → Onward w u → Step u v → Onward w v

-- What a step may change once the worker is closed.
record IsShut (w v : CryptoWorker) : Type 0 where
  closed : v.closed ≡ true
  created : v.created ≡ w.created
  futures : (i : ℕ) → count i v.futures ≤ count i w.futures

release-IsShut : (i : ℕ) (w : CryptoWorker) → w.closed ≡ true → IsShut w (release_if_finished w i)
unfolding release_if_finished
release-IsShut i w h = record {
  closed = ground arith;
  created = ground arith;
  futures = λ j. ground arith;
}

Step-IsShut : {u v : CryptoWorker} → Step u v → u.closed ≡ true → IsShut u v
Step-IsShut {u} acquires h =
    unfold acquire in
    record { closed = ground arith; created = ground arith; futures = λ j. ground arith }
Step-IsShut {u} (submits accepted i below) h =
    unfold submit in
    record { closed = ground arith; created = ground arith; futures = λ j. ground arith }
Step-IsShut {u} (finishes i before after e) h =
    unfold work_finished in
    record {
      closed = ground arith;
      created = ground arith;
      futures = λ j. ground (arith, count-middle i j before after);
    }
Step-IsShut {u} (closes_lease i below) h =
    unfold close_lease in
    record { closed = ground arith; created = ground arith; futures = λ j. ground arith }
Step-IsShut {u} closes_worker h =
    unfold close_worker in record { closed = refl; created = refl; futures = λ j. ground arith }

refused : (v : CryptoWorker) → v.closed ≡ true → (acquire v).0 ≡ none
unfolding acquire
refused v h = rw h

Onward-IsShut : {w v : CryptoWorker} → w.closed ≡ true → Onward w v → IsShut w v
Onward-IsShut h here = record { closed = h; created = refl; futures = λ i. le_refl _ }
Onward-IsShut h (next o s) =
    let before = Onward-IsShut h o in
    let after = Step-IsShut s before.closed in
    record {
      closed = after.closed;
      created = after.created ∙ before.created;
      futures = λ i. le_trans (after.futures i) (before.futures i);
    }

-- Once the worker is closed, no later operation hands out a lease or adds a future: the work that
-- is left only becomes less, and `acquire` goes on to answer none.
pub closed_worker_admits_nothing :
    {w v : CryptoWorker}
    → w.closed ≡ true
    → Onward w v
    → ((acquire v).0 ≡ none)
      × (v.created ≡ w.created)
      × ((i : ℕ) → count i v.futures ≤ count i w.futures)
closed_worker_admits_nothing {v} h o =
    let s = Onward-IsShut h o in (refused v s.closed, s.created, s.futures)
