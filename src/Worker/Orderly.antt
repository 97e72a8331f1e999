-- ===== src/Worker/Orderly.antt =====
-- Every step of a worker keeps its leases in order.
use quantum_encryptor.Prelude.{
  ℕ, ◌+◌, ◌-◌, ◌<◌, ◌≡◌, ◌≢◌, refl, Bool, true, false, ◌||◌, some, List, [], ◌∷◌, ◌++◌, arith, inl,
  inr, Bool-cases, ◌==◌, if◌then◌else◌,
}
use quantum_encryptor.Worker.{
  CryptoWorker, new_worker, acquire, submit, work_finished, close_lease, close_worker,
  release_if_finished, put,
}
use quantum_encryptor.Worker.Step.{
  Step, Reachable, IsOrderly, count, acquires, submits, finishes, closes_lease, closes_worker,
  start, next,
}

new_worker-IsOrderly : IsOrderly new_worker
new_worker-IsOrderly = record {
  held = λ i e. cc;
  others = λ i h. absurd (omega arith);
  counted = λ i h. absurd (omega arith);
  known = λ i h. absurd (omega arith);
}

acquire-IsOrderly : {w : CryptoWorker} → IsOrderly w → IsOrderly (acquire w).1
unfolding acquire
acquire-IsOrderly {w} h = record {
  held = λ i e. ground (arith, h.held i);
  others = λ i below e. ground (arith, h.others i);
  counted = λ i below. ground (arith, h.counted i, h.known i);
  known = λ i some_future. ground (arith, h.known i);
}

-- The same, except that the lease `i` may be finished and still held.
record IsUnreleased (i : ℕ) (w : CryptoWorker) : Type 0 where
  exists : (j : ℕ) → w.lease ≡ some j → j < w.created
  busy : (j : ℕ) → w.lease ≡ some j → j ≢ i → (w.leases j).closed ≡ true → 0 < (w.leases j).pending
  others :
      (j : ℕ)
      → j < w.created
      → w.lease ≢ some j
      → ((w.leases j).closed ≡ true) × ((w.leases j).pending ≡ 0)
  counted : (j : ℕ) → j < w.created → (w.leases j).pending ≡ count j w.futures
  known : (j : ℕ) → 0 < count j w.futures → j < w.created

release_if_finished-IsOrderly :
    (i : ℕ) {w : CryptoWorker} → IsUnreleased i w → IsOrderly (release_if_finished w i)
unfolding release_if_finished
release_if_finished-IsOrderly i {w} h = record {
  held = λ j e. ground (arith, h.exists j, h.busy j);
  others = λ j below e. ground (arith, h.others j);
  counted = λ j below. ground (arith, h.counted j);
  known = λ j some_future. ground (arith, h.known j);
}

pub count-middle :
    (i j : ℕ) (before after : List ℕ)
    → count j (before ++ i ∷ after) ≡ (if i == j then 1 else 0) + count j (before ++ after)
count-middle i j [] after = refl
count-middle i j (x ∷ before) after = omega (arith, count-middle i j before after)

finish-IsUnreleased :
    (i : ℕ) (before after : List ℕ) {w : CryptoWorker}
    → w.futures ≡ before ++ i ∷ after
    → IsOrderly w
    → IsUnreleased i (
        put
          (record w { futures = before ++ after })
          i
          (record { closed = (w.leases i).closed; pending = (w.leases i).pending - 1 }))
finish-IsUnreleased i before after {w} e h = record {
  exists = λ j held. ground (arith, h.held j);
  busy = λ j held other. ground (arith, h.held j);
  others = λ j below away.
      ground (arith, h.others j below away, h.counted j, count-middle i j before after);
  counted = λ j below. ground (arith, h.counted j, count-middle i j before after);
  known = λ j some_future. ground (arith, h.known j, count-middle i j before after);
}

close-IsUnreleased :
    (i : ℕ) {w : CryptoWorker}
    → i < w.created
    → IsOrderly w
    → IsUnreleased i (put w i (record { closed = true; pending = (w.leases i).pending }))
close-IsUnreleased i {w} below h = record {
  exists = λ j held. ground (arith, h.held j);
  busy = λ j held other. ground (arith, h.held j);
  others = λ j below away. ground (arith, h.others j below away);
  counted = λ j below. ground (arith, h.counted j);
  known = λ j some_future. ground (arith, h.known j);
}

uncounted-IsUnreleased :
    (i : ℕ) {w : CryptoWorker}
    → i < w.created
    → (w.leases i).closed ≡ false
    → IsOrderly w
    → IsUnreleased i (
        put
          (put w i (record { closed = (w.leases i).closed; pending = (w.leases i).pending + 1 }))
          i
          (record { closed = (w.leases i).closed; pending = (w.leases i).pending + 1 - 1 }))
uncounted-IsUnreleased i {w} below opened h = record {
  exists = λ j held. ground (arith, h.held j);
  busy = λ j held other. ground (arith, h.held j);
  others = λ j below' away. ground (arith, h.others j below' away);
  counted = λ j below'. ground (arith, h.counted j);
  known = λ j some_future. ground (arith, h.known j);
}

counted-IsOrderly :
    (i : ℕ) {w : CryptoWorker}
    → i < w.created
    → (w.leases i).closed ≡ false
    → IsOrderly w
    → IsOrderly
        (record (put w i
          (record { closed = (w.leases i).closed; pending = (w.leases i).pending + 1 })) {
            futures = i ∷ w.futures;
          })
counted-IsOrderly i {w} below opened h = record {
  held = λ j held. ground (arith, h.held j);
  others = λ j below' away. ground (arith, h.others j below' away);
  counted = λ j below'. ground (arith, h.counted j);
  known = λ j some_future. ground (arith, h.known j);
}

submit-IsOrderly :
    (accepted : Bool) (i : ℕ) {w : CryptoWorker}
    → i < w.created
    → IsOrderly w
    → IsOrderly (submit accepted i w).1
unfolding submit
submit-IsOrderly accepted i {w} below h = elim (Bool-cases ((w.leases i).closed || w.closed)) [
  | inl refused ↦ rw refused h
  | inr admitted ↦
      let opened : (w.leases i).closed ≡ false = ground arith in
      elim (Bool-cases accepted) [
        | inl taken ↦ rw (admitted, taken) (counted-IsOrderly i below opened h)
        | inr raised ↦
            rw (admitted, raised)
              (release_if_finished-IsOrderly i (uncounted-IsUnreleased i below opened h))
      ]
]

Step-IsOrderly : {w w' : CryptoWorker} → Step w w' → IsOrderly w → IsOrderly w'
Step-IsOrderly acquires h = acquire-IsOrderly h
Step-IsOrderly (submits accepted i below) h = submit-IsOrderly accepted i below h
Step-IsOrderly (finishes i before after e) h =
    unfold work_finished in release_if_finished-IsOrderly i (finish-IsUnreleased i before after e h)
Step-IsOrderly (closes_lease i below) h =
    unfold close_lease in release_if_finished-IsOrderly i (close-IsUnreleased i below h)
Step-IsOrderly closes_worker h =
    unfold close_worker in
    record { held = h.held; others = h.others; counted = h.counted; known = h.known }

-- In every history the worker stays orderly.
pub Reachable-IsOrderly : {w : CryptoWorker} → Reachable w → IsOrderly w
Reachable-IsOrderly start = new_worker-IsOrderly
Reachable-IsOrderly (next r s) = Step-IsOrderly s (Reachable-IsOrderly r)
