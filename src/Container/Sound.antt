-- ===== src/Container/Sound.antt =====
-- What the header reader returns is a header of the format, spelled by the bytes it took.
use mathlib.Core.Path.{subst₂}
use quantum_encryptor.Prelude.{
  ℕ, ◌≤◌, ◌<◌, ◌≡◌, refl, ap, ◌∙◌, true, [], ◌++◌, Bytes, Text, length, All, IsByte,
}
use quantum_encryptor.Config.{max_kem_ciphertext_bytes, aes_nonce_bytes}
use quantum_encryptor.Failure.{ok}
use quantum_encryptor.Exec.{>>=-eq_ok, outcome_value, outcome_state}
use quantum_encryptor.Container.Source.{BinaryReader, IsFaithful}
use quantum_encryptor.Container.Format.{
  IsLegal, layout, version_bytes, suite_bytes, ciphertext_bytes, x25519_length,
}
use quantum_encryptor.Container.{
  ReadState, EncryptedFileHeader, read_exact, read_version, read_suite, read_ciphertext,
  read_x25519, read_fields, read_encrypted_file_header, version_supported, suite_allowed,
}
use quantum_encryptor.Container.Took.{
  Took, Took-append, exact-Took, taken-IsByte, version-Took, suite-Took, ciphertext-Took,
  x25519-Took,
}

abbrev header_with : ℕ → Text → Bytes → Bytes → Bytes → Bytes → EncryptedFileHeader
header_with v suite ct x nonce aad = record {
  version = v;
  kem_alg = suite;
  header_aad = aad;
  ciphertext_kem = ct;
  x25519_ephemeral_public = x;
  nonce = nonce;
}

module _ {S : Type 0} (read : BinaryReader S) (remaining : S → Bytes)
    (faithful : IsFaithful read remaining) where
  Finished-to :
      {h h' : EncryptedFileHeader} {start : S} {st st' : ReadState S}
      → h ≡ h'
      → st ≡ st'
      → IsLegal h × (remaining start ≡ layout h ++ remaining st.source)
      → IsLegal h' × (remaining start ≡ layout h' ++ remaining st'.source)
  Finished-to {start} p q =
      subst₂ (λ k s. IsLegal k × (remaining start ≡ layout k ++ remaining s.source)) p q

  -- The stages together.
  stages-IsLegal :
      (v : ℕ) (suite : Text) (ct x nonce : Bytes) {s0 s1 s2 s3 s4 s5 : ReadState S}
      → s0.header ≡ []
      → Took read remaining faithful (version_bytes v) s0 s1 × (version_supported v ≡ true)
      → Took read remaining faithful (suite_bytes suite) s1 s2 × (suite_allowed v suite ≡ true)
      → Took read remaining faithful (ciphertext_bytes ct) s2 s3
        × (0 < length ct)
        × (length ct ≤ max_kem_ciphertext_bytes)
      → Took read remaining faithful x s3 s4 × (length x ≡ x25519_length v)
      → Took read remaining faithful nonce s4 s5 × (length nonce ≡ aes_nonce_bytes)
      → IsLegal (header_with v suite ct x nonce s5.header)
        × (remaining s0.source
            ≡ layout (header_with v suite ct x nonce s5.header) ++ remaining s5.source)
  stages-IsLegal v suite ct x nonce {s5} start (t1, p1) (t2, p2) (t3, p3, q3) (t4, p4) (t5, p5) =
      let t45 = Took-append read remaining faithful x nonce t4 t5 in
      let t35 = Took-append read remaining faithful (ciphertext_bytes ct) (x ++ nonce) t3 t45 in
      let t25 =
        Took-append read remaining faithful (suite_bytes suite)
          (ciphertext_bytes ct ++ (x ++ nonce)) t2 t35 in
      let h = header_with v suite ct x nonce s5.header in
      let took =
        Took-append read remaining faithful (version_bytes v)
          (suite_bytes suite ++ (ciphertext_bytes ct ++ (x ++ nonce))) t1 t25 in
      (
        record {
          version = p1;
          suite = p2;
          ciphertext_some = p3;
          ciphertext_fits = q3;
          x25519 = p4;
          nonce = p5;
          aad = took.header ∙ ap (λ (l : Bytes). l ++ layout h) start;
        },
        took.left,
      )

  -- The bytes that the reader took spell the header that it returned.
  fields-IsLegal :
      {h : EncryptedFileHeader} {st st' : ReadState S}
      → read_fields read st ≡ (ok h, st')
      → st.header ≡ []
      → All IsByte (remaining st.source)
      → IsLegal h × (remaining st.source ≡ layout h ++ remaining st'.source)
  unfolding read_fields
  fields-IsLegal {h} {st} {st'} e start bytes =
      let (v, s1, run1, e1) = >>=-eq_ok (read_version read) _ st e in
      let first = version-Took read remaining faithful run1 bytes in
      let bytes1 = (taken-IsByte read remaining faithful (version_bytes v) first.0 bytes).1 in
      let (suite, s2, run2, e2) = >>=-eq_ok (read_suite read v) _ s1 e1 in
      let second = suite-Took read remaining faithful v run2 bytes1 in
      let bytes2 = (taken-IsByte read remaining faithful (suite_bytes suite) second.0 bytes1).1 in
      let (ct, s3, run3, e3) = >>=-eq_ok (read_ciphertext read) _ s2 e2 in
      let (x, s4, run4, e4) = >>=-eq_ok (read_x25519 read v) _ s3 e3 in
      let (nonce, s5, run5, e5) = >>=-eq_ok (read_exact read aes_nonce_bytes) _ s4 e4 in
      Finished-to (outcome_value e5) (outcome_state e5) (
        stages-IsLegal v suite ct x nonce start first second
          (ciphertext-Took read remaining faithful run3 bytes2)
          (x25519-Took read remaining faithful v run4)
          (exact-Took read remaining faithful aes_nonce_bytes run5))

  -- On any faithful source of bytes, with short reads, failures or bad replies: a header that the
  -- reader returns is one of the format, and its layout is the front of what the source held.
  pub read_header-IsLegal :
      {h : EncryptedFileHeader} {s t : S}
      → read_encrypted_file_header read s ≡ (ok h, t)
      → All IsByte (remaining s)
      → IsLegal h × (remaining s ≡ layout h ++ remaining t)
  unfolding read_encrypted_file_header
  read_header-IsLegal {h} {s} {t} e bytes =
      let start : ReadState S = record { source = s; header = [] } in
      let end : ReadState S = (read_fields read start).1 in
      let (valid, left) =
        fields-IsLegal {st = start} {st' = end} (ap (λ r. (r, end)) (ap (λ q. q.0) e)) refl bytes in
      (valid, left ∙ ap (λ (u : S). layout h ++ remaining u) (ap (λ q. q.1) e))
