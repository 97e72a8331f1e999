-- ===== src/Worker.antt =====
-- api_worker.py: one worker thread, and the lease that admits one request to it.
-- A lease object is a number, and `leases` is the heap of lease objects. `futures` stands for the
-- futures of the executor that are not done, each with the lease it was submitted through: the
-- executor is a library, so which of them is done next is a choice of the environment.
-- Every operation holds `_lock` from its first read to its last write, so each is one step.
pub mod Step
pub mod Orderly
pub mod Admission
pub mod Wait
mod Examples
use quantum_encryptor.Prelude.{
  ℕ, zero, suc, ◌+◌, ◌-◌, Bool, true, false, ◌&&◌, ◌||◌, Option, none, some, List, [], ◌∷◌, ◌==◌,
  if◌then◌else◌,
}
use quantum_encryptor.Failure.{Result, ok, err, runtime_error, unexpected_error}

pub record CryptoLease : Type 0 where
  pub closed : Bool
  pub pending : ℕ

pub record CryptoWorker : Type 0 where
  pub closed : Bool
  pub lease : Option ℕ
  pub leases : ℕ → CryptoLease
  pub created : ℕ
  pub futures : List ℕ

abbrev pub new_worker : CryptoWorker
new_worker = record {
  closed = false;
  lease = none;
  leases = λ i. record { closed = false; pending = 0 };
  created = 0;
  futures = [];
}

-- `self._lease is lease`
abbrev pub is_lease : Option ℕ → ℕ → Bool
is_lease none i = false
is_lease (some j) i = j == i

abbrev pub is_some : Option ℕ → Bool
is_some none = false
is_some (some i) = true

abbrev pub put : CryptoWorker → ℕ → CryptoLease → CryptoWorker
put w i l = record w { leases = λ j. if i == j then l else w.leases j }

unfoldable pub acquire : CryptoWorker → Option ℕ × CryptoWorker
acquire w = if w.closed || is_some w.lease then (none, w) else (
  some w.created,
  record w {
    lease = some w.created;
    leases = λ j. if w.created == j then record { closed = false; pending = 0 } else w.leases j;
    created = w.created + 1;
  },
)

unfoldable pub release_if_finished : CryptoWorker → ℕ → CryptoWorker
release_if_finished w i =
    if is_lease w.lease i && (w.leases i).closed && (w.leases i).pending == 0
    then record w { lease = none }
    else w

-- `accepted` is false where the executor's own `submit` raises.
unfoldable pub submit : Bool → ℕ → CryptoWorker → Result (Unit {0}) × CryptoWorker
unfolding release_if_finished
submit accepted i w =
    let l = w.leases i in
    let counted = put w i (record l { pending = l.pending + 1 }) in
    let uncounted = put counted i (record l { pending = l.pending + 1 - 1 }) in
    if l.closed || w.closed
    then (err runtime_error, w)
    else if accepted
    then (ok tt, record counted { futures = i ∷ w.futures })
    else (err unexpected_error, release_if_finished uncounted i)

-- The callback of a future that is done.
unfoldable pub work_finished : ℕ → CryptoWorker → CryptoWorker
unfolding release_if_finished
work_finished i w =
    let l = w.leases i in release_if_finished (put w i (record l { pending = l.pending - 1 })) i

-- `CryptoLease.close`
unfoldable pub close_lease : ℕ → CryptoWorker → CryptoWorker
unfolding release_if_finished
close_lease i w = let l = w.leases i in release_if_finished (put w i (record l { closed = true })) i

-- `CryptoWorker.close`, up to the shutdown of the executor, which settles the futures one by one.
unfoldable pub close_worker : CryptoWorker → CryptoWorker
close_worker w = record w { closed = true }
