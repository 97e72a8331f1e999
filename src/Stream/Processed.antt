-- ===== src/Stream/Processed.antt =====
-- `_process_payload` that returned: it split what was left of its source into payload and tag, and
-- fed the payload to its contexts, however the source was cut into chunks.
use quantum_encryptor.Prelude.{
  ℕ, ◌+◌, ◌-◌, ◌≡◌, refl, sym, ap, ◌∙◌, inl, inr, Bool, true, false, List, [], ◌∷◌, ◌++◌, arith,
  Bytes, length, take, drop, length-take, length-append, take-append-drop, ltb, leb, ◌==◌, ==_iff,
  if◌then◌else◌, append_assoc,
}
use mathlib.Core.Path.{ap₂, subst, subst₂}
use quantum_encryptor.Config.{aes_tag_bytes}
use quantum_encryptor.Failure.{Result, ok, size_limit_error, file_format_error}
use quantum_encryptor.Exec.{
  pure, raise, ◌>>=◌, ◌>>◌, >>=-eq_ok, if-eq, unless-eq_ok, when-eq_ok, outcome_value,
  outcome_state,
}
use quantum_encryptor.Backend.{Aead, StreamingLaw}
use quantum_encryptor.Stream.Files.{Session, Reader, Phase, checkpoint, report}
use quantum_encryptor.Stream.Writer.{to_sink, write_all}
use quantum_encryptor.Stream.Written.{write_all-Wrote}
use quantum_encryptor.Stream.Taken.{rest_of}
use quantum_encryptor.Stream.Consumed.{each_chunk_all}
use quantum_encryptor.Stream.Payload.{
  Progress, feed, process_chunk, process_payload, expected_payload, each_chunk,
}

module _ {C : Type 0} (aead : Aead C) where
  abbrev pub advance : Bytes → List C → List C
  advance d [] = []
  advance d (c ∷ cs) = (aead.update c d).1 ∷ advance d cs

  -- The loop has fed all of `seen` but the tail that it holds back.
  pub record Held (cs : List C) (seen : Bytes) (p : Progress aead) : Type 0 where
    pub payload : Bytes
    pub cut : seen ≡ payload ++ p.tail
    pub counted : p.processed ≡ length payload
    pub fed : p.contexts ≡ advance payload cs

  report_ok :
      (phase : Phase) (n m : ℕ) (s t : Session) {u : Unit {0}}
      → report phase n m s ≡ (ok u, t)
      → t.reader ≡ s.reader
  unfolding report
  report_ok phase n m s t e = ap (λ (x : Session). x.reader) (sym (outcome_state e))

  write_ok :
      (d : Bytes) (s t : Session) {u : Unit {0}}
      → write_all to_sink d s ≡ (ok u, t)
      → t.reader ≡ s.reader
  write_ok d s t e =
      ap (λ (q : Result (Unit {0}) × Session). q.1.reader) (sym e)
      ∙ (write_all-Wrote to_sink d s).framed.reader

  write_some_ok :
      (b : Bool) (d : Bytes) (s t : Session) {u : Unit {0}}
      → (if b then write_all to_sink d else pure tt) s ≡ (ok u, t)
      → t.reader ≡ s.reader
  write_some_ok true d s t e = write_ok d s t e
  write_some_ok false d s t e = ap (λ (x : Session). x.reader) (sym (outcome_state e))

  feed_ok :
      (b : Bool) (d : Bytes) (cs cs' : List C) (s s' : Session)
      → feed aead b d cs s ≡ (ok cs', s')
      → (cs' ≡ advance d cs) × (s'.reader ≡ s.reader)
  unfolding feed
  feed_ok b d [] cs' s s' e =
      (sym (outcome_value e), ap (λ (x : Session). x.reader) (sym (outcome_state e)))
  feed_ok b d (c ∷ cs) cs' s s' e =
      let (_, s1, run1, e1) =
        >>=-eq_ok (if b then write_all to_sink (aead.update c d).0 else pure tt) _ s e in
      let (later, s2, run2, e2) = >>=-eq_ok (feed aead b d cs) _ s1 e1 in
      let (fed, same) = feed_ok b d cs later s1 s2 run2 in
      (
        sym (outcome_value e2) ∙ ap (λ l. (aead.update c d).1 ∷ l) fed,
        ap (λ (x : Session). x.reader) (sym (outcome_state e2))
            ∙ same
            ∙ write_some_ok b (aead.update c d).0 s s1 run1,
      )

  -- What one chunk does: it joins the tail, or a cut of both is fed.
  record Fed (got : Bytes) (p p' : Progress aead) : Type 0 where
    fresh : Bytes
    parted : p.tail ++ got ≡ fresh ++ p'.tail
    counted : p'.processed ≡ p.processed + length fresh
    contexts : p'.contexts ≡ advance fresh p.contexts

  module _ (law : StreamingLaw aead) where
    advance_nothing : (cs : List C) → advance [] cs ≡ cs
    advance_nothing [] = refl
    advance_nothing (c ∷ cs) =
        ap₂ (λ x xs. x ∷ xs) (ap (λ (q : Bytes × C). q.1) (law.nothing c)) (advance_nothing cs)

    advance-append : (d e : Bytes) (cs : List C) → advance (d ++ e) cs ≡ advance e (advance d cs)
    advance-append d e [] = refl
    advance-append d e (c ∷ cs) =
        ap₂ (λ x xs. x ∷ xs) (ap (λ (q : Bytes × C). q.1) (law.pieces c d e))
          (advance-append d e cs)

    length-front : (d : Bytes) (n : ℕ) → length (take (length d - n) d) ≡ length d - n
    length-front d n = omega (arith, length-take (length d - n) d)

    Fed-to : {got : Bytes} {p q q' : Progress aead} → q ≡ q' → Fed got p q → Fed got p q'
    Fed-to {got} {p} same h = subst (Fed got p) same h

    large_ok :
        (phase : Phase) (b : Bool) (total cut : ℕ) (got : Bytes) (p p' : Progress aead)
        (s s' : Session)
        → cut ≡ length (p.tail ++ got) - aes_tag_bytes
        → (feed aead b (take cut (p.tail ++ got)) p.contexts >>= λ contexts.
              report phase (p.processed + cut) total
              >> pure (record {
                tail = drop cut (p.tail ++ got);
                processed = p.processed + cut;
                contexts = contexts;
              }))
            s
          ≡ (ok p', s')
        → Fed got p p' × (s'.reader ≡ s.reader)
    large_ok phase b total cut got p p' s s' size e =
        let combined = p.tail ++ got in
        let (cs, s1, run1, e1) = >>=-eq_ok (feed aead b (take cut combined) p.contexts) _ s e in
        let (_, s2, run2, e2) = >>=-eq_ok (report phase (p.processed + cut) total) _ s1 e1 in
        let (fed, same) = feed_ok b (take cut combined) p.contexts cs s s1 run1 in
        (
          Fed-to (outcome_value e2) (record {
            fresh = take cut combined;
            parted = sym (take-append-drop cut combined);
            counted =
                ap (λ k. p.processed + k)
                  (size
                    ∙ sym (length-front combined aes_tag_bytes)
                    ∙ ap (λ k. length (take k combined)) (sym size));
            contexts = fed;
          }),
          ap (λ (x : Session). x.reader) (sym (outcome_state e2))
              ∙ report_ok phase (p.processed + cut) total s1 s2 run2
              ∙ same,
        )

    chunk_ok :
        (n : ℕ) (phase : Phase) (b : Bool) (total : ℕ) (got : Bytes) (p p' : Progress aead)
        (s s' : Session)
        → process_chunk aead n phase b total got p s ≡ (ok p', s')
        → Fed got p p' × (s'.reader ≡ s.reader)
    unfolding process_chunk
    chunk_ok n phase b total got p p' s s' e =
        elim (if-eq (leb (length (p.tail ++ got)) aes_tag_bytes) _ _ s e) [
          | inl (small, e1) ↦ (
            Fed-to (outcome_value e1) (record {
              fresh = [];
              parted = refl;
              counted = omega arith;
              contexts = sym (advance_nothing p.contexts);
            }),
            ap (λ (x : Session). x.reader) (sym (outcome_state e1)),
          )
          | inr (large, e1) ↦
              let (fits, e2) =
                unless-eq_ok (ltb n (p.processed + (length (p.tail ++ got) - aes_tag_bytes)))
                  size_limit_error _ s e1 in
              large_ok phase b total (length (p.tail ++ got) - aes_tag_bytes) got p p' s s' refl e2
        ]

    -- A chunk fed keeps what is held in step with what was seen.
    Held-append :
        (cs : List C) (seen got : Bytes) (p p' : Progress aead)
        → Held cs seen p
        → Fed got p p'
        → Held cs (seen ++ got) p'
    Held-append cs seen got p p' h k = record {
      payload = h.payload ++ k.fresh;
      cut =
          ap (λ d. d ++ got) h.cut
          ∙ append_assoc h.payload p.tail got
          ∙ ap (λ d. h.payload ++ d) k.parted
          ∙ sym (append_assoc h.payload k.fresh p'.tail);
      counted = omega (arith, k.counted, h.counted, length-append h.payload k.fresh);
      fed = k.contexts ∙ ap (advance k.fresh) h.fed ∙ sym (advance-append h.payload k.fresh cs);
    }

    Held-start : (cs : List C) → Held cs [] (record { tail = []; processed = 0; contexts = cs })
    Held-start cs = record {
      payload = [];
      cut = refl;
      counted = refl;
      fed = sym (advance_nothing cs);
    }

    expected_payload_ok : (s t : Session) {n : ℕ} → expected_payload s ≡ (ok n, t) → t ≡ s
    unfolding expected_payload
    expected_payload_ok s t e = sym (outcome_state e)

    -- With contexts that may be fed in pieces: `_process_payload` that returns has split what its
    -- source held into a payload and a tag of 16 bytes, has counted the payload and has fed it to
    -- every context, however the source was cut into chunks.
    pub process_payload_ok :
        (cs : List C) (n : ℕ) (phase : Phase) (b : Bool) (p : Progress aead) (s s' : Session)
        → process_payload aead cs n phase b s ≡ (ok p, s')
        → Held cs (rest_of s) p × (length p.tail ≡ aes_tag_bytes)
    unfolding process_payload
    process_payload_ok cs n phase b p s s' e =
        let (total, s1, run1, e1) = >>=-eq_ok expected_payload _ s e in
        let (_, s2, run2, e2) = >>=-eq_ok (report phase 0 total) _ s1 e1 in
        let start : Progress aead = record { tail = []; processed = 0; contexts = cs } in
        let (q, s3, run3, e3) =
          >>=-eq_ok (each_chunk (process_chunk aead n phase b total) start) _ s2 e2 in
        let (_, s4, run4, e4) =
          >>=-eq_ok (if length q.tail == aes_tag_bytes then pure tt else raise file_format_error) _
            s3 e3 in
        let (_, s5, run5, e5) = >>=-eq_ok checkpoint _ s4 e4 in
        let full =
          ((==_iff (length q.tail) aes_tag_bytes).0
            (when-eq_ok (length q.tail == aes_tag_bytes) file_format_error (pure tt) s3 run4).0) in
        let held : Held cs (rest_of s2) q =
          each_chunk_all (process_chunk aead n phase b total) (Held cs)
            (λ got acc acc' t t' h. (chunk_ok n phase b total got acc acc' t t' h).1)
            (λ seen got acc acc' t t' h k.
              Held-append cs seen got acc acc' h (chunk_ok n phase b total got acc acc' t t' k).0)
            start q s2 s3 (Held-start cs) run3 in
        let same : rest_of s2 ≡ rest_of s =
          ap (λ (r : Reader). r.source.rest) (report_ok phase 0 total s1 s2 run2)
          ∙ ap (λ (x : Session). rest_of x) (expected_payload_ok s s1 run1) in
        subst₂ (λ d q'. Held cs d q' × (length q'.tail ≡ aes_tag_bytes)) same (outcome_value e5)
          (held, full)
