-- ===== src/Jobs/Delivered.antt =====
-- A download delivers what was written to the output.
use quantum_encryptor.Prelude.{
  min, Option, none, some, ==_refl, ℕ, zero, suc, ◌+◌, ◌<◌, ◌≡◌, refl, sym, ap, ◌∙◌, Bool, true,
  false, List, [], ◌∷◌, ◌++◌, arith, Bytes, length, length-drop, take, drop, take-append-drop,
  is_empty, inl, inr, Bool-cases, if◌then◌else◌,
}
use quantum_encryptor.Config.{stream_chunk_bytes}
use quantum_encryptor.Prelude.Strings.{join}
use quantum_encryptor.Failure.{Result, ok}
use quantum_encryptor.Exec.{proceed}
use quantum_encryptor.Jobs.{JobStore, set_job}
use quantum_encryptor.Jobs.Execute.{with_output}
use quantum_encryptor.Jobs.Files.{TemporaryFile, content_of, rewind, read_chunk}
use quantum_encryptor.Jobs.Download.{chunk_of, next_chunk, rewind_output, download_loop, download}

drop-nil : (n : ℕ) (d : Bytes) → d ≡ [] → drop n d ≡ d
drop-nil zero d h = refl
drop-nil (suc n) [] h = refl
drop-nil (suc n) (b ∷ bs) h = cc

same_position : (n k : ℕ) → k ≡ 0 + n → n ≡ k
same_position n k h = omega arith

drop-drop : (n m k : ℕ) (d : Bytes) → k ≡ m + n → drop n (drop m d) ≡ drop k d
drop-drop n zero k d h = ap (λ j. drop j d) (same_position n k h)
drop-drop n (suc m) zero d h = absurd (omega arith)
drop-drop n (suc m) (suc k) [] h = drop-nil n [] refl
drop-drop n (suc m) (suc k) (b ∷ bs) h = drop-drop n m k bs (omega arith)

-- A position after what was taken.
drop-length-take : (n : ℕ) (d : Bytes) → drop (length (take n d)) d ≡ drop n d
drop-length-take zero d = refl
drop-length-take (suc n) [] = refl
drop-length-take (suc n) (b ∷ bs) = drop-length-take n bs

take_empty : (n : ℕ) (d : Bytes) → 0 < n → is_empty (take n d) ≡ true → d ≡ []
take_empty zero d h e = absurd (omega arith)
take_empty (suc n) [] h e = refl
take_empty (suc n) (b ∷ bs) h e = cc

drop_shrinks : (n : ℕ) (d : Bytes) → is_empty (take n d) ≡ false → length (drop n d) < length d
drop_shrinks zero d h = cc
drop_shrinks (suc n) [] h = cc
drop_shrinks (suc n) (b ∷ bs) h = omega (arith, length-drop n bs)

rest_of : TemporaryFile → Bytes
rest_of f = drop f.position f.sink.written

-- How many bytes a read gives at most.
abbrev asked : ℕ → ℕ
asked short = min stream_chunk_bytes (short + 1)

rest_of-read_chunk :
    (short : ℕ) (f : TemporaryFile)
    → rest_of (read_chunk short f).1 ≡ drop (asked short) (rest_of f)
unfolding rest_of read_chunk
rest_of-read_chunk short f =
    sym (drop-drop (length (take (asked short) (rest_of f))) f.position _ f.sink.written refl)
    ∙ drop-length-take (asked short) (rest_of f)

taken : (short : ℕ) (f : TemporaryFile) → (read_chunk short f).0 ≡ take (asked short) (rest_of f)
unfolding rest_of read_chunk
taken short f = refl

module _ (i : ℕ) where
  -- The job `i` is not cancelled and has this output.
  record Delivers (s : JobStore) (f : TemporaryFile) : Type 0 where
    goes_on : (s.jobs i).cancel ≡ false
    output : (s.jobs i).output ≡ some f

  read_on : ℕ → TemporaryFile → JobStore → JobStore
  read_on short f s = set_job s i (with_output (read_chunk short f).1 (s.jobs i))

  next_chunk-eq :
      (short : ℕ) (s : JobStore) (f : TemporaryFile)
      → Delivers s f
      → next_chunk short i s ≡ (
        ok (if is_empty (read_chunk short f).0 then none else some (read_chunk short f).0),
        read_on short f s,
      )
  unfolding next_chunk read_on
  next_chunk-eq short s f d =
      ap (λ (b : Bool). if b then (ok none, s) else chunk_of short (s.jobs i).output i s) d.goes_on
      ∙ ap (λ (o : Option TemporaryFile). chunk_of short o i s) d.output

  with_output-Delivers :
      (s : JobStore) (f g : TemporaryFile)
      → Delivers s f
      → Delivers (set_job s i (with_output g (s.jobs i))) g
  with_output-Delivers s f g d = record {
    goes_on = rw (==_refl i) d.goes_on;
    output = rw (==_refl i) refl;
  }

  rewound : JobStore → TemporaryFile → JobStore
  rewound s f = set_job s i (with_output (rewind f) (s.jobs i))

  -- What the loop yields is what is left, with a round for each byte of it and one more.
  record Yields (d : Bytes) (run : Result (List Bytes) × JobStore) : Type 0 where
    chunks : List Bytes
    returned : run.0 ≡ ok chunks
    whole : join chunks ≡ d

  consed :
      (c : Bytes) (r : Result (List Bytes)) (t : JobStore) {later : List Bytes}
      → r ≡ ok later
      → (proceed (λ l s. (ok (c ∷ l), s)) r t).0 ≡ ok (c ∷ later)
  consed c r t h = rw h refl

  loop_end :
      (short : ℕ → ℕ) (fuel : ℕ) (s : JobStore) (f : TemporaryFile)
      → Delivers s f
      → is_empty (read_chunk (short fuel) f).0 ≡ true
      → (download_loop short (suc fuel) i s).0 ≡ ok []
  unfolding download_loop
  loop_end short fuel s f d e = rw (next_chunk-eq (short fuel) s f d) (rw e refl)

  loop_on :
      (short : ℕ → ℕ) (fuel : ℕ) (s : JobStore) (f : TemporaryFile) {later : List Bytes}
      → Delivers s f
      → is_empty (read_chunk (short fuel) f).0 ≡ false
      → (download_loop short fuel i (read_on (short fuel) f s)).0 ≡ ok later
      → (download_loop short (suc fuel) i s).0 ≡ ok ((read_chunk (short fuel) f).0 ∷ later)
  unfolding download_loop
  loop_on short fuel s f d e h = rw (next_chunk-eq (short fuel) s f d) (rw e (consed _ _ _ h))

  download_loop-Yields :
      (short : ℕ → ℕ) (fuel : ℕ) (s : JobStore) (f : TemporaryFile)
      → Delivers s f
      → length (rest_of f) < fuel
      → Yields (rest_of f) (download_loop short fuel i s)
  unfolding join read_on
  download_loop-Yields short zero s f d h = absurd (omega arith)
  download_loop-Yields short (suc fuel) s f d h =
      elim (Bool-cases (is_empty (read_chunk (short fuel) f).0)) [
        | inl e ↦ record {
          chunks = [];
          returned = loop_end short fuel s f d e;
          whole = sym (
              take_empty (asked (short fuel)) (rest_of f) (omega arith)
                (sym (ap is_empty (taken (short fuel) f)) ∙ e));
        }
        | inr e ↦
            let g = (read_chunk (short fuel) f).1 in
            let moved = rest_of-read_chunk (short fuel) f in
            let fewer =
              drop_shrinks (asked (short fuel)) (rest_of f)
                (sym (ap is_empty (taken (short fuel) f)) ∙ e) in
            let y =
              download_loop-Yields short fuel (read_on (short fuel) f s) g
                (with_output-Delivers s f g d) (omega (arith, fewer, ap length moved)) in
            record {
              chunks = (read_chunk (short fuel) f).0 ∷ y.chunks;
              returned = loop_on short fuel s f d e y.returned;
              whole =
                  ap (λ bs. (read_chunk (short fuel) f).0 ++ bs) (y.whole ∙ moved)
                  ∙ ap (λ bs. bs ++ drop (asked (short fuel)) (rest_of f)) (taken (short fuel) f)
                  ∙ take-append-drop (asked (short fuel)) (rest_of f);
            }
      ]

  -- A download that nobody cancels returns, and the chunks it yields are the bytes of the job's
  -- output, in their order, wherever the file was read before and however short its reads are.
  pub download-eq_ok :
      (short : ℕ → ℕ) (s : JobStore) (f : TemporaryFile)
      → (s.jobs i).cancel ≡ false
      → (s.jobs i).output ≡ some f
      → (chunks : List Bytes) × ((download short i s).0 ≡ ok chunks)
        × (join chunks ≡ f.sink.written)
  unfolding download rewind_output rewound rewind rest_of content_of
  download-eq_ok short s f goes_on output =
      let y =
        download_loop-Yields short (suc (length f.sink.written)) (rewound s f) (rewind f)
          (with_output-Delivers s f (rewind f) (record { goes_on = goes_on; output = output }))
          (omega arith) in
      (y.chunks, rw output y.returned, y.whole)
