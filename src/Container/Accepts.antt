-- ===== src/Container/Accepts.antt =====
-- The header reader returns every header of the format, from any steady source.
use quantum_encryptor.Prelude.{
  ℕ, ◌^◌, ◌≤◌, ◌<◌, ◌≡◌, sym, ap, ◌∙◌, true, [], ◌++◌, append-nil, append_assoc, arith, inl, inr,
  Bool-cases, Bytes, Text, length, length-to_be, nil_of_length, list_eq_refl, to_be, from_be,
  from_be-to_be_u16, from_be-to_be_u32, ◌==◌,
}
use quantum_encryptor.Prelude.Utf8.{decode_utf8_ascii}
use quantum_encryptor.Config.{
  magic_bytes, format_version, header_base_bytes, max_kem_alg_name_bytes, max_kem_ciphertext_bytes,
  x25519_key_bytes, aes_nonce_bytes,
}
use quantum_encryptor.Failure.{Result, ok, file_format_error}
use quantum_encryptor.Container.Source.{BinaryReader, IsSteady}
use quantum_encryptor.Container.Format.{
  IsLegal, layout, version_bytes, suite_bytes, ciphertext_bytes, x25519_length,
}
use quantum_encryptor.Container.Suites.{IsSuite, suite_allowed-IsSuite}
use quantum_encryptor.Container.Steady.{read_exact_steady}
use quantum_encryptor.Container.{
  ReadState, EncryptedFileHeader, read_exact, read_version, read_suite, read_ciphertext,
  read_x25519, read_fields, read_encrypted_file_header, version_supported, suite_allowed, plausible,
  decoded_suite,
}
use quantum_encryptor.Container.Consumes.{Consumes, Consumes-bind, Consumes-check, Consumes-then}

-- The numbers that a header spells out.
length-version_bytes : (v : ℕ) → length (version_bytes v) ≡ header_base_bytes
length-version_bytes v = omega (arith, length-to_be 2 v)

supported_small : (v : ℕ) → version_supported v ≡ true → v < 2 ^ 16
unfolding version_supported
supported_small v h = ground arith

plausible_lem : (limit n : ℕ) → 0 < n → n ≤ limit → plausible limit n ≡ true
unfolding plausible
plausible_lem limit n h k = ground arith

decoded_suite-IsSuite : (t : Text) → IsSuite t → decoded_suite t ≡ ok t
unfolding decoded_suite
decoded_suite-IsSuite t s = rw (decode_utf8_ascii t s.ascii, decoded_suite)

spelled : (a b c d e : Bytes) → (((a ++ b) ++ c) ++ d) ++ e ≡ a ++ (b ++ (c ++ (d ++ e)))
spelled a b c d e = simp append_assoc

same_header :
    {S : Type 0} (h : EncryptedFileHeader) {aad : Bytes} {s : S}
    → aad ≡ h.header_aad
    → ◌≡◌ {A = Result EncryptedFileHeader × S} (ok (record h { header_aad = aad }), s) (ok h, s)
same_header h {s} e = λ i. (ok (record h { header_aad = e i }), s)

module _ {S : Type 0} (read : BinaryReader S) (remaining : S → Bytes) {Good : S → Type 0}
    (steady : IsSteady read remaining Good) where
  -- `st` holds `d`, and then `r`.
  abbrev Holds : Bytes → Bytes → ReadState S → Type 0
  Holds d r st = Good st.source × (remaining st.source ≡ d ++ r)

  exact :
      (size : ℕ) (d r : Bytes) (st : ReadState S)
      → length d ≡ size
      → Holds d r st
      → Consumes remaining Good (read_exact read size) d d r st
  exact size d r st whole (good, held) =
      let (t, run, good', left) =
        read_exact_steady read remaining steady size d r st whole good held in
      record { end = t; run = run; good = good'; left = left }

  version-Consumes :
      (v : ℕ) (r : Bytes) (st : ReadState S)
      → version_supported v ≡ true
      → Holds (version_bytes v) r st
      → Consumes remaining Good (read_version read) v (version_bytes v) r st
  unfolding read_version
  version-Consumes v r st h held =
      let c = exact header_base_bytes (version_bytes v) r st (length-version_bytes v) held in
      Consumes-then remaining Good (read_exact read header_base_bytes) _ c
        (rw (list_eq_refl magic_bytes, from_be-to_be_u16 v (supported_small v h), h))

  suite-Consumes :
      (v : ℕ) (t : Text) (r : Bytes) (st : ReadState S)
      → suite_allowed v t ≡ true
      → Holds (suite_bytes t) r st
      → Consumes remaining Good (read_suite read v) t (suite_bytes t) r st
  unfolding read_suite
  suite-Consumes v t r st h (good, held) =
      let s = suite_allowed-IsSuite v t h in
      let number : from_be (to_be 2 (length t)) ≡ length t =
        from_be-to_be_u16 (length t) (omega (arith, s.fits)) in
      let c =
        exact 2 (to_be 2 (length t)) (t ++ r) st (length-to_be 2 (length t))
          (good, held ∙ append_assoc (to_be 2 (length t)) t r) in
      Consumes-bind remaining Good (read_exact read 2) _ c (
        Consumes-check remaining Good _ file_format_error _
          (rw number (plausible_lem max_kem_alg_name_bytes (length t) s.some_name s.fits))
          (Consumes-then remaining Good (read_exact read (from_be (to_be 2 (length t)))) _
            (exact _ t r (record { source = c.end; header = st.header ++ to_be 2 (length t) })
              (sym number) (c.good, c.left))
            (rw (decoded_suite-IsSuite t s, h))))

  ciphertext-Consumes :
      (ct r : Bytes) (st : ReadState S)
      → 0 < length ct
      → length ct ≤ max_kem_ciphertext_bytes
      → Holds (ciphertext_bytes ct) r st
      → Consumes remaining Good (read_ciphertext read) ct (ciphertext_bytes ct) r st
  unfolding read_ciphertext
  ciphertext-Consumes ct r st some_bytes fits (good, held) =
      let number : from_be (to_be 4 (length ct)) ≡ length ct =
        from_be-to_be_u32 (length ct) (omega arith) in
      let c =
        exact 4 (to_be 4 (length ct)) (ct ++ r) st (length-to_be 4 (length ct))
          (good, held ∙ append_assoc (to_be 4 (length ct)) ct r) in
      Consumes-bind remaining Good (read_exact read 4) _ c (
        Consumes-check remaining Good _ file_format_error _
          (rw number (plausible_lem max_kem_ciphertext_bytes (length ct) some_bytes fits))
          (exact _ ct r (record { source = c.end; header = st.header ++ to_be 4 (length ct) })
            (sym number) (c.good, c.left)))

  x25519-Consumes :
      (v : ℕ) (x r : Bytes) (st : ReadState S)
      → length x ≡ x25519_length v
      → Holds x r st
      → Consumes remaining Good (read_x25519 read v) x x r st
  unfolding read_x25519
  x25519-Consumes v x r st whole held = elim (Bool-cases (v == format_version)) [
    | inl current ↦ rw current (exact x25519_key_bytes x r st (rw current at whole) held)
    | inr legacy ↦
        let nothing : x ≡ [] = nil_of_length x (rw legacy at whole) in
        let (good, rest) = held in
        record {
          end = st.source;
          run = rw (legacy, nothing, append-nil);
          good = good;
          left = rest ∙ ap (λ (d : Bytes). d ++ r) nothing;
        }
  ]

  -- The whole reader, on a source that holds the layout of `h`.
  fields-Consumes :
      (h : EncryptedFileHeader) (r : Bytes) (s : S)
      → IsLegal h
      → Good s
      → remaining s ≡ layout h ++ r
      → Consumes remaining Good
          (read_fields read)
          h
          (layout h)
          r
          (record { source = s; header = [] })
  unfolding read_fields
  fields-Consumes h r s valid good held =
      let vb = version_bytes h.version in
      let sb = suite_bytes h.kem_alg in
      let cb = ciphertext_bytes h.ciphertext_kem in
      let xb = h.x25519_ephemeral_public in
      let nb = h.nonce in
      let st : ReadState S = record { source = s; header = [] } in
      let c1 =
        version-Consumes h.version ((sb ++ (cb ++ (xb ++ nb))) ++ r) st valid.version
          (good, held ∙ append_assoc vb (sb ++ (cb ++ (xb ++ nb))) r) in
      let st1 : ReadState S = record { source = c1.end; header = vb } in
      let c2 =
        suite-Consumes h.version h.kem_alg ((cb ++ (xb ++ nb)) ++ r) st1 valid.suite
          (c1.good, c1.left ∙ append_assoc sb (cb ++ (xb ++ nb)) r) in
      let st2 : ReadState S = record { source = c2.end; header = vb ++ sb } in
      let c3 =
        ciphertext-Consumes h.ciphertext_kem ((xb ++ nb) ++ r) st2 valid.ciphertext_some
          valid.ciphertext_fits (c2.good, c2.left ∙ append_assoc cb (xb ++ nb) r) in
      let st3 : ReadState S = record { source = c3.end; header = (vb ++ sb) ++ cb } in
      let c4 =
        x25519-Consumes h.version xb (nb ++ r) st3 valid.x25519
          (c3.good, c3.left ∙ append_assoc xb nb r) in
      let st4 : ReadState S = record { source = c4.end; header = ((vb ++ sb) ++ cb) ++ xb } in
      let c5 = exact aes_nonce_bytes nb r st4 valid.nonce (c4.good, c4.left) in
      Consumes-bind remaining Good (read_version read) _ c1 (
        Consumes-bind remaining Good (read_suite read h.version) _ c2 (
          Consumes-bind remaining Good (read_ciphertext read) _ c3 (
            Consumes-bind remaining Good (read_x25519 read h.version) _ c4 (
              Consumes-then remaining Good (read_exact read aes_nonce_bytes) _ c5
                (same_header h (spelled vb sb cb xb nb ∙ sym valid.aad))))))

  -- From a steady source that holds the layout of a header of the format, and then `r`, the reader
  -- returns that header and leaves `r`, however the source cuts its bytes into parts.
  pub read_header_complete :
      (h : EncryptedFileHeader) (r : Bytes) (s : S)
      → IsLegal h
      → Good s
      → remaining s ≡ layout h ++ r
      → (t : S) × (read_encrypted_file_header read s ≡ (ok h, t)) × Good t × (remaining t ≡ r)
  unfolding read_encrypted_file_header
  read_header_complete h r s valid good held =
      let c = fields-Consumes h r s valid good held in (c.end, rw c.run, c.good, c.left)
