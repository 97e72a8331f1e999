-- ===== src/Stream/Untouched.antt =====
-- The stages of `decrypt_stream` before the release leave the sink alone, and those that
-- only read leave the snapshot alone too, whatever their outcome.
use quantum_encryptor.Prelude.{
  ap, arith, take, leb, is_empty, ◌+◌, ◌∙◌, ◌-◌, ℕ, zero, suc, ◌≡◌, refl, inl, inr, Option, none,
  some, Bool, true, false, List, [], ◌∷◌, ◌++◌, Bytes, if◌then◌else◌, ltb, length, ◌==◌, drop,
}
use quantum_encryptor.Config.{aes_tag_bytes}
use quantum_encryptor.Failure.{Result, ok, err, size_limit_error, file_format_error}
use quantum_encryptor.Exec.{Exec, proceed}
use quantum_encryptor.Exec.Keeps.{Keeps, lift-Keeps, if-Keeps, >>=-Keeps, >>-Keeps}
use quantum_encryptor.Backend.{Aead}
use quantum_encryptor.Stream.Files.{Source, Sink, Session, Phase, checkpoint, report}
use quantum_encryptor.Stream.Reader.{
  start_reader, asked_size, open_reader, reader_read, as_source, pull, add_count, within_limit,
  received, exceeds, remaining_size,
}
use quantum_encryptor.Stream.Writer.{to_snapshot, write_all}
use quantum_encryptor.Stream.Written.{checkpoint-cases, write_all-Wrote}
use quantum_encryptor.Stream.Payload.{
  expected_payload, read_loop, each_chunk, check_payload_size, payload_count, count_chunk, Progress,
  feed, process_chunk, process_payload,
}

abbrev pub sink_of : Session → Sink
sink_of s = s.sink

abbrev pub files_of : Session → Sink × Sink
files_of s = (s.sink, s.snapshot)

-- What leaves both files alone leaves the sink alone.
pub sink-Keeps : {A : Type 0} {m : Exec Session A} → Keeps files_of m → Keeps sink_of m
sink-Keeps h = record { at = λ s. ap (λ (f : Sink × Sink). f.0) (h.at s) }

pub checkpoint-Keeps : Keeps files_of checkpoint
checkpoint-Keeps = record {
  at = λ s.
      let (c, outcome) = checkpoint-cases s in
      elim outcome [ inl e ↦ rw e refl | inr e ↦ rw e refl ];
}

within_limit-Keeps : Keeps files_of within_limit
unfolding within_limit
within_limit-Keeps = record { at = λ s. either s (ltb s.reader.limit s.reader.count) }
  where
    outcome : Bool → Session → Result (Unit {0}) × Session
    outcome b s = if b then (err size_limit_error, s) else (ok tt, s)

    either : (s : Session) (b : Bool) → files_of (outcome b s).1 ≡ files_of s
    either s true = refl
    either s false = refl

start_reader-Keeps : (source : Source) (limit : ℕ) → Keeps files_of (start_reader source limit)
unfolding start_reader
start_reader-Keeps source limit = record { at = λ s. refl }

pub open_reader-Keeps : (source : Source) (limit : ℕ) → Keeps files_of (open_reader source limit)
unfolding open_reader
open_reader-Keeps source limit = >>-Keeps checkpoint-Keeps (
    >>-Keeps (start_reader-Keeps source limit)
      (if-Keeps (exceeds (remaining_size source) limit) (lift-Keeps _) (lift-Keeps _)))

asked_size-Keeps : (n : Option ℕ) → Keeps files_of (asked_size n)
unfolding asked_size
asked_size-Keeps n = record { at = λ s. refl }

pull-Keeps : (n : ℕ) → Keeps files_of (pull n)
unfolding pull
pull-Keeps n = record { at = λ s. refl }

add_count-Keeps : (n : ℕ) → Keeps files_of (add_count n)
unfolding add_count
add_count-Keeps n = record { at = λ s. refl }

reader_read-Keeps : (n : Option ℕ) → Keeps files_of (reader_read n)
unfolding reader_read
reader_read-Keeps n = >>-Keeps checkpoint-Keeps (
    >>=-Keeps (asked_size-Keeps n) (λ k. >>=-Keeps (pull-Keeps k) (λ reply.
      >>=-Keeps (lift-Keeps (received k reply)) (λ got.
        >>-Keeps (add_count-Keeps (length got))
          (>>-Keeps within_limit-Keeps (>>-Keeps checkpoint-Keeps (lift-Keeps (ok got))))))))

as_source_view :
    (f : Session → Sink × Sink) (r : Result Bytes) (s : Session)
    → f (proceed (λ got s'. (ok (some got), s')) r s).1 ≡ f s
as_source_view f (err e) s = refl
as_source_view f (ok got) s = refl

pub as_source-Keeps : (n : ℕ) → Keeps files_of (as_source n)
unfolding as_source
as_source-Keeps n = record {
  at = λ s.
      as_source_view files_of (reader_read (some n) s).0 (reader_read (some n) s).1
      ∙ (reader_read-Keeps (some n)).at s;
}

pub check_payload_size-Keeps : (n : ℕ) → Keeps files_of (check_payload_size n)
unfolding check_payload_size
check_payload_size-Keeps n = record { at = λ s. ground arith }

expected_payload-Keeps : Keeps files_of expected_payload
unfolding expected_payload
expected_payload-Keeps = record { at = λ s. refl }

pub report-Keeps : (phase : Phase) (n m : ℕ) → Keeps files_of (report phase n m)
unfolding report
report-Keeps phase n m = record { at = λ s. refl }

pub snapshot_write-Keeps : (d : Bytes) → Keeps sink_of (write_all to_snapshot d)
snapshot_write-Keeps d = record { at = λ s. (write_all-Wrote to_snapshot d s).framed.other_file }

module _ {X : Type 0} {view : Session → X} (reads : Keeps view (reader_read none)) {A : Type 0}
    {body : Bytes → A → Exec Session A}
    (keeps : (got : Bytes) (acc : A) → Keeps view (body got acc)) where
  read_loop-Keeps : (fuel : ℕ) (acc : A) → Keeps view (read_loop body fuel acc)
  unfolding read_loop
  read_loop-Keeps zero acc = lift-Keeps _
  read_loop-Keeps (suc fuel) acc = >>=-Keeps reads (λ got.
      if-Keeps (is_empty got) (lift-Keeps (ok acc))
        (>>=-Keeps (keeps got acc) (read_loop-Keeps fuel)))

  each_chunk-Keeps : (acc : A) → Keeps view (each_chunk body acc)
  unfolding each_chunk
  each_chunk-Keeps acc = record {
    at = λ s. (read_loop-Keeps (suc (length s.reader.source.rest)) acc).at s;
  }

count_chunk-Keeps :
    (n : ℕ) (keep : Bool) (got : Bytes) (count : ℕ) → Keeps sink_of (count_chunk n keep got count)
unfolding count_chunk
count_chunk-Keeps n keep got count =
    if-Keeps (ltb (n + aes_tag_bytes) (count + length got)) (lift-Keeps _) (
      >>-Keeps (if-Keeps keep (snapshot_write-Keeps got) (lift-Keeps (ok tt)))
        (lift-Keeps (ok (count + length got))))

pub payload_count-Keeps : (n : ℕ) (keep : Bool) → Keeps sink_of (payload_count n keep)
unfolding payload_count
payload_count-Keeps n keep = >>-Keeps (sink-Keeps (check_payload_size-Keeps n)) (
    >>=-Keeps (each_chunk-Keeps (sink-Keeps (reader_read-Keeps none)) (count_chunk-Keeps n keep) 0)
      (λ count. if-Keeps (ltb count aes_tag_bytes) (lift-Keeps _) (lift-Keeps (ok count))))

module _ {C : Type 0} (aead : Aead C) where
  feed-Keeps : (payload : Bytes) (cs : List C) → Keeps files_of (feed aead false payload cs)
  unfolding feed
  feed-Keeps payload [] = lift-Keeps (ok [])
  feed-Keeps payload (c ∷ cs) = >>-Keeps (lift-Keeps (ok tt)) (
      >>=-Keeps (feed-Keeps payload cs)
        (λ later. lift-Keeps (ok ((aead.update c payload).1 ∷ later))))

  process_chunk-Keeps :
      (n : ℕ) (phase : Phase) (total : ℕ) (got : Bytes) (p : Progress aead)
      → Keeps files_of (process_chunk aead n phase false total got p)
  unfolding process_chunk
  process_chunk-Keeps n phase total got p =
      let combined = p.tail ++ got in
      let cut = length combined - aes_tag_bytes in
      if-Keeps (leb (length combined) aes_tag_bytes)
        (lift-Keeps
          (ok (record { tail = combined; processed = p.processed; contexts = p.contexts })))
        (if-Keeps (ltb n (p.processed + cut)) (lift-Keeps (err size_limit_error)) (
          >>=-Keeps (feed-Keeps (take cut combined) p.contexts) (λ cs.
            >>-Keeps (report-Keeps phase (p.processed + cut) total) (
              lift-Keeps (
                ok (record {
                  tail = drop cut combined;
                  processed = p.processed + cut;
                  contexts = cs;
                }))))))

  pub process_payload-Keeps :
      (cs : List C) (n : ℕ) (phase : Phase) → Keeps files_of (process_payload aead cs n phase false)
  unfolding process_payload
  process_payload-Keeps cs n phase = >>=-Keeps expected_payload-Keeps (λ total.
      >>-Keeps (report-Keeps phase 0 total) (
        >>=-Keeps
          (each_chunk-Keeps (reader_read-Keeps none) (process_chunk-Keeps n phase total)
            (record { tail = []; processed = 0; contexts = cs }))
          (λ p.
            >>-Keeps
              (if-Keeps (length p.tail == aes_tag_bytes) (lift-Keeps (ok tt))
                (lift-Keeps (err file_format_error)))
              (>>-Keeps checkpoint-Keeps (lift-Keeps (ok p))))))
