-- ===== src/Stream/Consumed.antt =====
-- A payload loop that returned has seen all that its source held, in order, however it was cut.
use mathlib.Core.Path.{subst, subst₂}
use quantum_encryptor.Prelude.{
  ℕ, zero, suc, ◌≡◌, sym, ap, ◌∙◌, none, [], ◌∷◌, ◌++◌, Bytes, length, is_empty, if◌then◌else◌,
  append-nil, append_assoc,
}
use quantum_encryptor.Failure.{ok}
use quantum_encryptor.Exec.{Exec, pure, ◌>>=◌, >>=-eq_ok, outcome_value}
use quantum_encryptor.Stream.Files.{Session, Reader}
use quantum_encryptor.Stream.Reader.{reader_read}
use quantum_encryptor.Stream.Taken.{reader_read-Took, chunk_ended, rest_of}
use quantum_encryptor.Stream.Payload.{read_loop, each_chunk}

module _ {A : Type 0} (body : Bytes → A → Exec Session A) (P : Bytes → A → Type 0)
    (settled : (got : Bytes) (acc acc' : A) (s s' : Session)
      → body got acc s ≡ (ok acc', s')
      → s'.reader ≡ s.reader)
    (step : (seen got : Bytes) (acc acc' : A) (s s' : Session)
      → P seen acc
      → body got acc s ≡ (ok acc', s')
      → P (seen ++ got) acc') where
  shift :
      (seen got : Bytes) (s s1 s2 : Session) {acc : A}
      → rest_of s ≡ got ++ rest_of s1
      → s2.reader ≡ s1.reader
      → P ((seen ++ got) ++ rest_of s2) acc
      → P (seen ++ rest_of s) acc
  shift seen got s s1 s2 {acc} took same h =
      subst (λ d. P d acc)
        (append_assoc seen got (rest_of s2)
          ∙ ap (λ (r : Reader). seen ++ (got ++ r.source.rest)) same
          ∙ ap (λ d. seen ++ d) (sym took))
        h

  -- One round that ended, or that went on to rounds of which the claim holds.
  on_chunk :
      (fuel : ℕ) (seen : Bytes) (acc acc' : A) (s s' : Session) (got : Bytes) (s1 : Session)
      → ((acc2 : A) (s2 : Session)
          → P (seen ++ got) acc2
          → read_loop body fuel acc2 s2 ≡ (ok acc', s')
          → P ((seen ++ got) ++ rest_of s2) acc')
      → P seen acc
      → reader_read none s ≡ (ok got, s1)
      → (if is_empty got then pure acc else (body got acc >>= read_loop body fuel)) s1
        ≡ (ok acc', s')
      → P (seen ++ rest_of s) acc'
  on_chunk fuel seen acc acc' s s' [] s1 later h run e1 =
      subst₂ P (sym (append-nil seen) ∙ ap (λ d. seen ++ d) (sym (chunk_ended s s1 run)))
        (outcome_value e1) h
  on_chunk fuel seen acc acc' s s' (b ∷ bs) s1 later h run e1 =
      let (acc2, s2, ran, e2) = >>=-eq_ok (body (b ∷ bs) acc) _ s1 e1 in
      shift seen (b ∷ bs) s s1 s2 (reader_read-Took none s s1 run).rest
        (settled (b ∷ bs) acc acc2 s1 s2 ran)
        (later acc2 s2 (step seen (b ∷ bs) acc acc2 s1 s2 h ran) e2)

  read_loop_all :
      (fuel : ℕ) (seen : Bytes) (acc acc' : A) (s s' : Session)
      → P seen acc
      → read_loop body fuel acc s ≡ (ok acc', s')
      → P (seen ++ rest_of s) acc'
  unfolding read_loop
  read_loop_all zero seen acc acc' s s' h e = cc
  read_loop_all (suc fuel) seen acc acc' s s' h e =
      let (got, s1, run, e1) = >>=-eq_ok (reader_read none) _ s e in
      on_chunk fuel seen acc acc' s s' got s1
        (λ acc2 s2 h2. read_loop_all fuel (seen ++ got) acc2 acc' s2 s' h2) h run e1

  pub each_chunk_all :
      (acc acc' : A) (s s' : Session)
      → P [] acc
      → each_chunk body acc s ≡ (ok acc', s')
      → P (rest_of s) acc'
  unfolding each_chunk
  each_chunk_all acc acc' s s' h e =
      read_loop_all (suc (length s.reader.source.rest)) [] acc acc' s s' h e
