-- ===== src/Jobs/Earned.antt =====
-- The result of a job is that of a run of `_process` on the job, which released a verified file.
use quantum_encryptor.Prelude.{
  ℕ, ◌<◌, ◌≡◌, sym, ap, inl, inr, List, [], length, ◌∙◌, Option, none, some, Bytes, Text, codes,
  list_eq,
}
use mathlib.Core.Path.{subst}
use quantum_encryptor.Config.{max_stream_file_bytes}
use quantum_encryptor.Failure.{Failure, Result, ok, err, ok-injective}
use quantum_encryptor.Exec.{lift, >>=-eq_ok, outcome_value, outcome_state}
use quantum_encryptor.Backend.{Primitives, AesGcm, Aead, Oqs}
use quantum_encryptor.Container.{EncryptedFileMetadata}
use quantum_encryptor.Pem.Files.{LoadedKey}
use quantum_encryptor.Stream.Files.{Source, Sink, ReadReply, Session, checkpoint}
use quantum_encryptor.Stream.Untouched.{checkpoint-Keeps}
use quantum_encryptor.Stream.Payload.{decrypt_stream}
use quantum_encryptor.Stream.Release.{ReleasedAfter, decrypt_stream_verifies_first}
use quantum_encryptor.Jobs.{Request, FileJob, JobStore, JobResult}
use quantum_encryptor.Jobs.Files.{content_of}
use quantum_encryptor.Jobs.Requests.{
  produced, is_encryption, loaded_key, check_recipient, required_input,
}
use quantum_encryptor.Jobs.Process.{process, transformed, input_of}
use quantum_encryptor.Jobs.Step.{Processed, Reachable, Follows}
use quantum_encryptor.Jobs.Kept.{Reachable-IsEarned}

returned_is_not_raised :
    {A S : Type 0} {q : Result A × S} {a : A} {t : S} {e : Failure}
    → q ≡ (ok a, t)
    → q.0 ≡ err e
    → ⊥
returned_is_not_raised h raised = ok_is_not_err (sym (ap (λ (q : Result _ × _). q.0) h) ∙ raised)
  where
    ok_is_not_err : {A : Type 0} {a : A} {e : Failure} → ◌≡◌ {A = Result A} (ok a) (err e) → ⊥
    ok_is_not_err h = cc

result_of : {q r : JobResult} → produced q ≡ produced r → q ≡ r
result_of e = cc

module _ (folded : Text → Text) (scrypt : Bytes → Bytes → Bytes) (aes : AesGcm) {C : Type 0}
    (aead : Aead C) (lib : Primitives) (backend : Option Oqs) where
  -- What a run of `_process` that gave `r` on a job of the mode `decrypt` has done: under a key that
  -- was loaded from the arguments of its task, it decrypted the job's input onto an empty sink, and
  -- released what `_verify` had accepted; `r` has the size of what is in the job's output and the
  -- name that was asked for.
  pub record JobDecryption (j : FileJob) (r : JobResult) : Type 0 where
    pub request : Request
    pub k : LoadedKey
    pub replies : List ReadReply
    pub source : Source
    pub found : EncryptedFileMetadata
    pub s : Session
    pub t : Session
    pub asked : j.arguments ≡ some request
    pub loaded : loaded_key folded scrypt aes lib (codes "decrypt") request ≡ ok k
    pub input : input_of replies j.input ≡ some source
    pub empty : s.sink.written ≡ []
    pub released :
        ReleasedAfter aead lib backend k.raw
          (some k.kem_alg)
          max_stream_file_bytes
          s
          (decrypt_stream aead lib backend source k.raw (some k.kem_alg) max_stream_file_bytes s)
    pub returned :
        decrypt_stream aead lib backend source k.raw (some k.kem_alg) max_stream_file_bytes s
        ≡ (ok found, t)
    pub stored : content_of j.output ≡ t.sink.written
    pub size : r.size ≡ length (content_of j.output)
    pub name : r.filename ≡ request.output_filename

  -- `decrypt_stream` that returned has released what was verified.
  decrypt_stream-Released :
      (source : Source) (key : Bytes) (expected : Option Text) (n : ℕ) (s : Session)
      {m : EncryptedFileMetadata} {t : Session}
      → decrypt_stream aead lib backend source key expected n s ≡ (ok m, t)
      → ReleasedAfter aead lib backend key expected n s
          (decrypt_stream aead lib backend source key expected n s)
  decrypt_stream-Released source key expected n s e =
      elim (decrypt_stream_verifies_first aead lib backend key expected n source s) [
        | inl raised ↦ absurd (returned_is_not_raised e raised.raised)
        | inr released ↦ released
      ]

  required-eq_ok :
      (o : Option Source) {source : Source}
      → required_input folded scrypt aes lib o ≡ ok source
      → o ≡ some source
  unfolding required_input
  required-eq_ok none e = cc
  required-eq_ok (some source) e = ap (λ (x : Source). some x) (ok-injective e)

  Processed-JobDecryption :
      (j : FileJob) (r : JobResult)
      → j.mode ≡ codes "decrypt"
      → Processed folded scrypt aes aead lib backend j (produced r)
      → JobDecryption j r
  unfolding process transformed is_encryption list_eq
  Processed-JobDecryption j r mode p =
      let ran =
        subst
          (λ m.
            process folded scrypt aes aead lib backend m p.entropy (input_of p.replies j.input)
              p.request p.before
            ≡ (ok (produced r), p.after))
          mode p.ran in
      let (u1, s1, p1, e1) = >>=-eq_ok checkpoint _ p.before ran in
      let (k, s2, p2, e2) =
        >>=-eq_ok (lift (loaded_key folded scrypt aes lib (codes "decrypt") p.request)) _ s1 e1 in
      let (u3, s3, p3, e3) =
        >>=-eq_ok
          (lift (check_recipient folded scrypt aes lib p.request.expected_recipient_fingerprint k))
          _ s2 e2 in
      let (source, s4, p4, e4) =
        >>=-eq_ok (lift (required_input folded scrypt aes lib (input_of p.replies j.input))) _ s3
          e3 in
      let (found, s5, p5, e5) =
        >>=-eq_ok
          (decrypt_stream aead lib backend source k.raw (some k.kem_alg) max_stream_file_bytes) _ s4
          e4 in
      let same_after = outcome_state e5 in
      let stored = p.stored ∙ ap (λ (x : Session). x.sink.written) (sym same_after) in
      let same_result = result_of (outcome_value e5) in
      record {
        request = p.request;
        k = k;
        replies = p.replies;
        source = source;
        found = found;
        s = s4;
        t = s5;
        asked = p.asked;
        loaded = ap (λ (q : Result LoadedKey × Session). q.0) p2;
        input =
            required-eq_ok (input_of p.replies j.input)
              (ap (λ (q : Result Source × Session). q.0) p4);
        empty =
            sym (
              ap (λ (f : Sink × Sink). f.0.written) (sym (checkpoint-Keeps.at p.before))
              ∙ ap (λ (q : Result (Unit {0}) × Session). q.1.sink.written) p1
              ∙ ap (λ (q : Result LoadedKey × Session). q.1.sink.written) p2
              ∙ ap (λ (q : Result (Unit {0}) × Session). q.1.sink.written) p3
              ∙ ap (λ (q : Result Source × Session). q.1.sink.written) p4)
            ∙ p.started;
        released =
            decrypt_stream-Released source k.raw (some k.kem_alg) max_stream_file_bytes s4 p5;
        returned = p5;
        stored = stored;
        size = ap (λ (x : JobResult). x.size) (sym same_result) ∙ ap length (sym stored);
        name = ap (λ (x : JobResult). x.filename) (sym same_result);
      }

  -- In every history of a store, when a job of the mode `decrypt` has a result, the history has a
  -- store at which a run of `_process` on this job gave this result: the run decrypted the job's own
  -- input under a key that the arguments of its task unlock, and released into the job's own output
  -- the snapshot that `_verify` had accepted. So whatever the order of uploads, cancellations,
  -- downloads and expiries, no result stands for a file that was not verified.
  pub Reachable-decrypted_after_verify :
      {ttl : ℕ} {s : JobStore}
      → Reachable folded scrypt aes aead lib backend ttl s
      → (i : ℕ) (r : JobResult) → i < s.created
      → (s.jobs i).mode ≡ codes "decrypt"
      → (s.jobs i).result ≡ some r
      → (then : JobStore) × Reachable folded scrypt aes aead lib backend ttl then
        × Follows folded scrypt aes aead lib backend then s
        × (i < then.created)
        × JobDecryption (then.jobs i) r
  Reachable-decrypted_after_verify h i r below mode e =
      let ran = (Reachable-IsEarned folded scrypt aes aead lib backend h).result i r below e in
      (
        ran.then,
        ran.reachable,
        ran.earlier,
        ran.below,
        Processed-JobDecryption (ran.then.jobs i) r (ran.same_mode ∙ mode) ran.processed,
      )
