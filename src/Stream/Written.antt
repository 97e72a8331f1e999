-- ===== src/Stream/Written.antt =====
-- What `_write_all` leaves in its file, however the file splits, refuses or the caller cancels.
use quantum_encryptor.Prelude.{
  ℕ, zero, suc, ◌-◌, ◌≤◌, ◌<◌, ◌≡◌, ◌≢◌, refl, sym, ap, ◌∙◌, Bool, true, false, List, [], ◌∷◌, ◌++◌,
  arith, Bytes, length, take, drop, length-drop, take-append-drop, take-eq_self, inl, inr, ◌⊎◌,
  append-nil, append_assoc,
}
use quantum_encryptor.Failure.{Failure, Result, ok, err, os_error, operation_cancelled, out_of_fuel}
use quantum_encryptor.Exec.{proceed}
use quantum_encryptor.Stream.Files.{Sink, Session, sink_write, checkpoint}
use quantum_encryptor.Stream.Writer.{
  Target, to_sink, to_snapshot, file, with_file, push, accepted, write_loop, write_all,
}

abbrev pub other : Target → Target
other to_sink = to_snapshot
other to_snapshot = to_sink

-- Nothing changed but the file, its script and the schedule of cancellations.
pub record Framed (t : Target) (s s' : Session) : Type 0 where
  pub reader : s'.reader ≡ s.reader
  pub reports : s'.reports ≡ s.reports
  pub other_file : file (other t) s' ≡ file (other t) s

-- A front `p` of the data was added to the file; all of it if the call returned.
pub record Wrote (t : Target) (d : Bytes) (s : Session) (r : Result (Unit {0})) (s' : Session)
    : Type 0 where
  pub front : Bytes
  pub back : Bytes
  pub cut : d ≡ front ++ back
  pub added : (file t s').written ≡ (file t s).written ++ front
  pub complete : r ≡ ok tt → back ≡ []
  pub ended : r ≢ err out_of_fuel
  pub framed : Framed t s s'

sink_kept :
    (d : Bytes) (f : Sink) (k : ℕ)
    → accepted (length d) (sink_write d f).0 ≡ ok k
    → ((sink_write d f).1.written ≡ f.written ++ take k d) × (0 < k) × (k ≤ length d)
unfolding accepted sink_write
sink_kept d f k e = ground (arith, take-eq_self k d)

sink_refused :
    (d : Bytes) (f : Sink) (e : Failure)
    → accepted (length d) (sink_write d f).0 ≡ err e
    → 0 < length d
    → ((sink_write d f).1.written ≡ f.written) × (e ≡ os_error)
unfolding accepted sink_write
sink_refused d f e h some_data = ground arith

-- One round: it fails and adds nothing, or it adds the first `k` bytes and goes on.
data Round (t : Target) (fuel : ℕ) (d : Bytes) (s : Session) : Type 0 where
  stops :
      (e : Failure) (s' : Session)
      → write_loop t (suc fuel) d s ≡ (err e, s')
      → e ≢ out_of_fuel
      → (file t s').written ≡ (file t s).written
      → Framed t s s'
      → Round t fuel d s
  goes_on :
      (k : ℕ) (s' : Session)
      → write_loop t (suc fuel) d s ≡ write_loop t fuel (drop k d) s'
      → 0 < k
      → k ≤ length d
      → (file t s').written ≡ (file t s).written ++ take k d
      → Framed t s s'
      → Round t fuel d s

with_file-Framed : (t : Target) (f : Sink) (s : Session) → Framed t s (with_file t f s)
with_file-Framed to_sink f s = record { reader = refl; reports = refl; other_file = refl }
with_file-Framed to_snapshot f s = record { reader = refl; reports = refl; other_file = refl }

file-with_file : (t : Target) (f : Sink) (s : Session) → file t (with_file t f s) ≡ f
file-with_file to_sink f s = refl
file-with_file to_snapshot f s = refl

with_cancels-Framed :
    (t : Target) (c : List Bool) (s : Session) → Framed t s (record s { cancels = c })
with_cancels-Framed to_sink c s = record { reader = refl; reports = refl; other_file = refl }
with_cancels-Framed to_snapshot c s = record { reader = refl; reports = refl; other_file = refl }

file-with_cancels :
    (t : Target) (c : List Bool) (s : Session) → file t (record s { cancels = c }) ≡ file t s
file-with_cancels to_sink c s = refl
file-with_cancels to_snapshot c s = refl

Framed-trans : (t : Target) {a b c : Session} → Framed t a b → Framed t b c → Framed t a c
Framed-trans t h k = record {
  reader = k.reader ∙ h.reader;
  reports = k.reports ∙ h.reports;
  other_file = k.other_file ∙ h.other_file;
}

-- A checkpoint goes on, or stops with a cancellation; it changes the schedule alone.
pub checkpoint-cases :
    (s : Session)
    → (c : List Bool) × ((checkpoint s ≡ (ok tt, record s { cancels = c }))
        ⊎ (checkpoint s ≡ (err operation_cancelled, record s { cancels = c })))
unfolding checkpoint
checkpoint-cases s = cases s.cancels refl
  where
    cases :
        (later : List Bool)
        → s.cancels ≡ later
        → (c : List Bool) × ((checkpoint s ≡ (ok tt, record s { cancels = c }))
            ⊎ (checkpoint s ≡ (err operation_cancelled, record s { cancels = c })))
    cases [] e = ([], inl (rw (e, checkpoint) (λ i. (ok tt, record s { cancels = e i }))))
    cases (true ∷ later) e = (later, inr (rw (e, checkpoint)))
    cases (false ∷ later) e = (later, inl (rw (e, checkpoint)))

os_error-ne : {e : Failure} → e ≡ os_error → e ≢ out_of_fuel
os_error-ne p q = cc

stop_run :
    (t : Target) (fuel : ℕ) (b : ℕ) (bs : Bytes) (s s1 : Session)
    → checkpoint s ≡ (err operation_cancelled, s1)
    → write_loop t (suc fuel) (b ∷ bs) s ≡ (err operation_cancelled, s1)
unfolding write_loop
stop_run t fuel b bs s s1 stopped = rw stopped

round_run :
    (t : Target) (fuel : ℕ) (b : ℕ) (bs : Bytes) (s s1 : Session) (r : Result ℕ)
    → checkpoint s ≡ (ok tt, s1)
    → accepted (length (b ∷ bs)) (sink_write (b ∷ bs) (file t s1)).0 ≡ r
    → write_loop t (suc fuel) (b ∷ bs) s
      ≡ proceed
          (λ k. write_loop t fuel (drop k (b ∷ bs)))
          r
          (with_file t (sink_write (b ∷ bs) (file t s1)).1 s1)
unfolding write_loop push
round_run t fuel b bs s s1 r passed judged = rw (passed, judged)

push-Round :
    (t : Target) (fuel : ℕ) (b : ℕ) (bs : Bytes) (s s1 : Session)
    → checkpoint s ≡ (ok tt, s1)
    → Framed t s s1
    → file t s1 ≡ file t s
    → Round t fuel (b ∷ bs) s
push-Round t fuel b bs s s1 passed framed same =
    judge (accepted (length d) (sink_write d (file t s1)).0) refl
  where
    d : Bytes
    d = b ∷ bs

    s2 : Session
    s2 = with_file t (sink_write d (file t s1)).1 s1

    framed2 : Framed t s s2
    framed2 = Framed-trans t framed (with_file-Framed t (sink_write d (file t s1)).1 s1)

    kept : file t s2 ≡ (sink_write d (file t s1)).1
    kept = file-with_file t (sink_write d (file t s1)).1 s1

    judge :
        (r : Result ℕ)
        → accepted (length d) (sink_write d (file t s1)).0 ≡ r
        → Round t fuel (b ∷ bs) s
    judge (err e) q =
        let (nothing, cause) = sink_refused d (file t s1) e q (omega arith) in
        stops e s2 (round_run t fuel b bs s s1 (err e) passed q) (λ x. os_error-ne cause x)
          (ap (λ (f : Sink). f.written) kept ∙ nothing ∙ ap (λ (f : Sink). f.written) same) framed2
    judge (ok k) q =
        let (added, some_bytes, fits) = sink_kept d (file t s1) k q in
        goes_on k s2 (round_run t fuel b bs s s1 (ok k) passed q) some_bytes fits
          (ap (λ (f : Sink). f.written) kept
            ∙ added
            ∙ ap (λ (f : Sink). f.written ++ take k (b ∷ bs)) same)
          framed2

write-Round : (t : Target) (fuel : ℕ) (b : ℕ) (bs : Bytes) (s : Session) → Round t fuel (b ∷ bs) s
write-Round t fuel b bs s =
    let (c, outcome) = checkpoint-cases s in
    elim outcome [
      | inl passed ↦
          push-Round t fuel b bs s (record s { cancels = c }) passed (with_cancels-Framed t c s)
            (file-with_cancels t c s)
      | inr stopped ↦
          stops operation_cancelled (record s { cancels = c }) (stop_run t fuel b bs s _ stopped)
            (λ p. cc) (ap (λ (f : Sink). f.written) (file-with_cancels t c s))
            (with_cancels-Framed t c s)
    ]

drop_fits : (k n fuel : ℕ) → 0 < k → n ≤ suc fuel → n - k ≤ fuel
drop_fits k n fuel low room = omega arith

with_nothing-Framed : (t : Target) (s : Session) → Framed t s s
with_nothing-Framed to_sink s = record { reader = refl; reports = refl; other_file = refl }
with_nothing-Framed to_snapshot s = record { reader = refl; reports = refl; other_file = refl }

stopped-Wrote :
    (t : Target) (d : Bytes) (s : Session) (e : Failure) (s' : Session)
    (q : Result (Unit {0}) × Session)
    → q ≡ (err e, s')
    → e ≢ out_of_fuel
    → (file t s').written ≡ (file t s).written
    → Framed t s s'
    → Wrote t d s q.0 q.1
stopped-Wrote t d s e s' q run fine same framed = rw run (record {
  front = [];
  back = d;
  cut = refl;
  added = same ∙ sym (append-nil (file t s).written);
  complete = λ p. cc;
  ended = λ p. fine (cc);
  framed = framed;
})

continued-Wrote :
    (t : Target) (d : Bytes) (s s' : Session) (k : ℕ) (q q' : Result (Unit {0}) × Session)
    → q ≡ q'
    → (file t s').written ≡ (file t s).written ++ take k d
    → Framed t s s'
    → Wrote t (drop k d) s' q'.0 q'.1
    → Wrote t d s q.0 q.1
continued-Wrote t d s s' k q q' run added framed w = rw run (record {
  front = take k d ++ w.front;
  back = w.back;
  cut =
      sym (take-append-drop k d)
      ∙ ap (λ x. take k d ++ x) w.cut
      ∙ sym (append_assoc (take k d) w.front w.back);
  added =
      w.added ∙ ap (λ x. x ++ w.front) added ∙ append_assoc (file t s).written (take k d) w.front;
  complete = w.complete;
  ended = w.ended;
  framed = Framed-trans t framed w.framed;
})

-- The rounds of a loop with enough fuel.
write_loop-Wrote :
    (t : Target) (fuel : ℕ) (d : Bytes) (s : Session)
    → length d ≤ fuel
    → Wrote t d s (write_loop t fuel d s).0 (write_loop t fuel d s).1
unfolding write_loop
write_loop-Wrote t fuel [] s room = record {
  front = [];
  back = [];
  cut = refl;
  added = sym (append-nil (file t s).written);
  complete = λ p. refl;
  ended = λ p. cc;
  framed = with_nothing-Framed t s;
}
write_loop-Wrote t zero (b ∷ bs) s room = absurd (omega arith)
write_loop-Wrote t (suc fuel) (b ∷ bs) s room = elim (write-Round t fuel b bs s) [
  | stops e s' run fine same framed ↦ stopped-Wrote t (b ∷ bs) s e s' _ run fine same framed
  | goes_on k s' run low high added framed ↦
      continued-Wrote t (b ∷ bs) s s' k _ _ run added framed (
        write_loop-Wrote t fuel (drop k (b ∷ bs)) s'
          (rw (length-drop k (b ∷ bs)) (drop_fits k (length (b ∷ bs)) fuel low room)))
]

-- `_write_all` ends, and has added a front of the data to its file: all of it if it returned. It
-- changes nothing else but the schedule of cancellations.
pub write_all-Wrote :
    (t : Target) (d : Bytes) (s : Session) → Wrote t d s (write_all t d s).0 (write_all t d s).1
unfolding write_all
write_all-Wrote t d s = write_loop-Wrote t (length d) d s (omega arith)
