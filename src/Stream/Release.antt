-- ===== src/Stream/Release.antt =====
-- `decrypt_stream` writes to its sink only what it releases after `_verify` returned for its snapshot.
use quantum_encryptor.Prelude.{
  ◌+◌, ℕ, ◌≡◌, refl, ◌⊎◌, inl, inr, ap, ◌∙◌, [], Option, none, some, true, Bytes, Text,
}
use quantum_encryptor.Config.{aes_tag_bytes}
use quantum_encryptor.Failure.{ok, err, authentication_failed_error, Failure, Result}
use quantum_encryptor.Exec.{Exec, proceed, ◌>>=◌}
use quantum_encryptor.Exec.Keeps.{Keeps, lift-Keeps, >>=-Keeps, >>-Keeps}
use quantum_encryptor.Backend.{Primitives, Oqs, Aead}
use quantum_encryptor.Container.{metadata, EncryptedFileHeader, EncryptedFileMetadata}
use quantum_encryptor.Container.Leaves.{read_encrypted_file_header-Keeps}
use quantum_encryptor.Stream.Untouched.{
  sink_of, files_of, sink-Keeps, report-Keeps, open_reader-Keeps, as_source-Keeps,
  check_payload_size-Keeps, snapshot_write-Keeps, payload_count-Keeps, process_payload-Keeps,
  checkpoint-Keeps,
}
use quantum_encryptor.Stream.Files.{Source, Sink, Session, verifying}
use quantum_encryptor.Stream.Suite.{encrypted_size_limit, candidate_keys}
use quantum_encryptor.Stream.Payload.{
  clear_snapshot, decryptors, accepting, accept, Verified, verify, snapshot_from, release,
  decrypt_stream,
}

module _ {C : Type 0} (aead : Aead C) (lib : Primitives) (backend : Option Oqs) where
  accept-Keeps :
      (header : EncryptedFileHeader) (n : ℕ) (key : Option Bytes)
      → Keeps files_of (accept aead lib backend header n key)
  unfolding accept
  accept-Keeps header n none = lift-Keeps (err authentication_failed_error)
  accept-Keeps header n (some key) = >>-Keeps (report-Keeps verifying n n) (
      >>-Keeps checkpoint-Keeps (
        lift-Keeps (
          ok (record { header = header; found = metadata header (n + aes_tag_bytes); key = key }))))

  pub verify-Keeps :
      (source : Source) (private_key : Bytes) (expected : Option Text) (n : ℕ)
      → Keeps files_of (verify aead lib backend source private_key expected n)
  unfolding verify
  verify-Keeps source private_key expected n =
      >>=-Keeps (lift-Keeps (encrypted_size_limit n)) (λ limit.
        >>-Keeps (open_reader-Keeps source limit) (
          >>=-Keeps (read_encrypted_file_header-Keeps as_source-Keeps) (λ header.
            >>-Keeps (check_payload_size-Keeps n) (
              >>=-Keeps (lift-Keeps (candidate_keys lib backend header private_key expected))
                (λ keys.
                  >>=-Keeps (process_payload-Keeps aead (decryptors aead header keys) n verifying)
                    (λ p.
                      accept-Keeps header p.processed (accepting aead p.tail keys p.contexts)))))))

  clear_snapshot-Keeps : Keeps sink_of clear_snapshot
  unfolding clear_snapshot
  clear_snapshot-Keeps = record { at = λ s. refl }

  -- The snapshot that a state holds, from its first byte.
  abbrev pub snapshot_of : Session → Source
  snapshot_of s = record { rest = s.snapshot.written; seekable = true; replies = [] }

  module _ (private_key : Bytes) (expected : Option Text) (n : ℕ) where
    -- A run that began at `s`: from the state `copied`, `_verify` returned `v` for the snapshot that
    -- was there. It left the snapshot as it was and the sink as it had been at `s`, and all that
    -- the run did after it was to release under `v`.
    pub record ReleasedAfter (s : Session) (run : Result EncryptedFileMetadata × Session)
        : Type 0 where
      pub v : Verified aead lib backend
      pub copied : Session
      pub checked : Session
      pub verified :
          verify aead lib backend (snapshot_of copied) private_key expected n copied
          ≡ (ok v, checked)
      pub same_snapshot : checked.snapshot ≡ copied.snapshot
      pub same_sink : checked.sink ≡ s.sink
      pub released : run ≡ release aead lib backend v n checked

    -- A run that began at `s` raised, and its sink is as it was.
    pub record Raised (s : Session) (run : Result EncryptedFileMetadata × Session) : Type 0 where
      pub failure : Failure
      pub raised : run.0 ≡ err failure
      pub kept_sink : run.1.sink ≡ s.sink

    -- A run of `m` from `s` changes the sink in such a release only.
    record Guards (m : Exec Session EncryptedFileMetadata) (s : Session) : Type 0 where
      at : Raised s (m s) ⊎ ReleasedAfter s (m s)

    -- A stage before, which leaves the sink alone.
    before :
        {A : Type 0} {m : Exec Session A} {f : A → Exec Session EncryptedFileMetadata} {s : Session}
        → Keeps sink_of m
        → ((a : A) (t : Session) → m s ≡ (ok a, t) → Guards (f a) t)
        → Guards (m >>= f) s
    before {m = m} {f = f} {s = s} keeps rest = record { at = stage (m s) refl (keeps.at s) }
      where
        stage :
            (r : Result _ × Session)
            → m s ≡ r
            → r.1.sink ≡ s.sink
            → Raised s (proceed f r.0 r.1) ⊎ ReleasedAfter s (proceed f r.0 r.1)
        stage (err e, t) p same = inl (record { failure = e; raised = refl; kept_sink = same })
        stage (ok a, t) p same = elim (rest a t p).at [
          | inl r ↦
              inl
                (record { failure = r.failure; raised = r.raised; kept_sink = r.kept_sink ∙ same })
          | inr d ↦ inr (record {
            v = d.v;
            copied = d.copied;
            checked = d.checked;
            verified = d.verified;
            same_snapshot = d.same_snapshot;
            same_sink = d.same_sink ∙ same;
            released = d.released;
          })
        ]

    verified_then :
        (s : Session)
        → Guards
            (verify aead lib backend (snapshot_of s) private_key expected n >>= λ v.
              release aead lib backend v n)
            s
    verified_then s = record {
      at =
          stage (verify aead lib backend (snapshot_of s) private_key expected n s) refl
            ((verify-Keeps (snapshot_of s) private_key expected n).at s);
    }
      where
        stage :
            (r : Result (Verified aead lib backend) × Session)
            → verify aead lib backend (snapshot_of s) private_key expected n s ≡ r
            → files_of r.1 ≡ files_of s
            → Raised s (proceed (λ v. release aead lib backend v n) r.0 r.1)
              ⊎ ReleasedAfter s (proceed (λ v. release aead lib backend v n) r.0 r.1)
        stage (err e, t) p same =
            inl (record {
              failure = e;
              raised = refl;
              kept_sink = ap (λ (f : Sink × Sink). f.0) same;
            })
        stage (ok v, t) p same = inr (record {
          v = v;
          copied = s;
          checked = t;
          verified = p;
          same_snapshot = ap (λ (f : Sink × Sink). f.1) same;
          same_sink = ap (λ (f : Sink × Sink). f.0) same;
          released = refl;
        })

    decrypt_stream-Guards :
        (source : Source) (s : Session)
        → Guards (decrypt_stream aead lib backend source private_key expected n) s
    unfolding decrypt_stream snapshot_from
    decrypt_stream-Guards source s = before (lift-Keeps (encrypted_size_limit n)) (λ limit s1 p1.
        before (sink-Keeps (open_reader-Keeps source limit)) (λ u s2 p2.
          before (sink-Keeps (read_encrypted_file_header-Keeps as_source-Keeps)) (λ header s3 p3.
            before clear_snapshot-Keeps (λ u4 s4 p4.
              before (snapshot_write-Keeps header.header_aad) (λ u5 s5 p5.
                before (payload_count-Keeps n true)
                  (λ count s6 p6. record { at = (verified_then s6).at }))))))

    -- Whatever the source, the backend, the replies of the files and the cancellations: either
    -- `decrypt_stream` raises and leaves its sink exactly as it was, or `_verify` returned for the snapshot
    -- that the run holds, with the sink still as it was, and all the rest of the run is the release
    -- of this snapshot, unchanged, under the header and the key that were verified.
    pub decrypt_stream_verifies_first :
        (source : Source) (s : Session)
        → Raised s (decrypt_stream aead lib backend source private_key expected n s)
          ⊎ ReleasedAfter s (decrypt_stream aead lib backend source private_key expected n s)
    decrypt_stream_verifies_first source s = (decrypt_stream-Guards source s).at
