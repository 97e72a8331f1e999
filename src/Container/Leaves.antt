-- ===== src/Container/Leaves.antt =====
-- The header reader touches nothing that its source leaves alone.
use quantum_encryptor.Prelude.{
  ℕ, zero, suc, ◌-◌, refl, [], ◌++◌, Bytes, length, take, drop, from_be, list_eq, ltb, ◌==◌,
}
use quantum_encryptor.Config.{
  magic_bytes, header_base_bytes, x25519_key_bytes, aes_nonce_bytes, format_version,
}
use quantum_encryptor.Failure.{
  ok, err, ensure, file_format_error, unsupported_algorithm_error, out_of_fuel,
}
use quantum_encryptor.Exec.{modify}
use quantum_encryptor.Exec.Keeps.{Keeps, lift-Keeps, if-Keeps, cond-Keeps, >>=-Keeps, >>-Keeps}
use quantum_encryptor.Container.Source.{BinaryReader}
use quantum_encryptor.Container.{
  decoded_suite, ReadState, fetch, checked_part, version_supported, read_exact_loop, read_exact,
  read_version, read_suite, read_ciphertext, read_x25519, read_fields, read_encrypted_file_header,
}

module _ {S X : Type 0} {view : S → X} {read : BinaryReader S}
    (keeps : (n : ℕ) → Keeps view (read n)) where
  abbrev of_source : ReadState S → X
  of_source st = view st.source

  fetch-Keeps : (n : ℕ) → Keeps of_source (fetch read n)
  unfolding fetch
  fetch-Keeps n = record { at = λ st. (keeps n).at st.source }

  read_exact_loop-Keeps :
      (fuel size : ℕ) (got : Bytes) → Keeps of_source (read_exact_loop read fuel size got)
  unfolding read_exact_loop
  read_exact_loop-Keeps zero size got =
      if-Keeps (ltb (length got) size) (lift-Keeps (err out_of_fuel)) (lift-Keeps (ok got))
  read_exact_loop-Keeps (suc fuel) size got =
      cond-Keeps (ltb (length got) size)
        (>>=-Keeps (fetch-Keeps (size - length got)) (λ reply.
          >>=-Keeps (lift-Keeps (checked_part (size - length got) reply))
            (λ part. read_exact_loop-Keeps fuel size (got ++ part))))
        (lift-Keeps (ok got))

  extend-Keeps :
      (got : Bytes) → Keeps of_source (modify (λ st. record st { header = st.header ++ got }))
  extend-Keeps got = record { at = λ st. refl }

  read_exact-Keeps : (size : ℕ) → Keeps of_source (read_exact read size)
  unfolding read_exact
  read_exact-Keeps size =
      >>=-Keeps (read_exact_loop-Keeps size size [])
        (λ got. >>-Keeps (extend-Keeps got) (lift-Keeps (ok got)))

  read_version-Keeps : Keeps of_source (read_version read)
  unfolding read_version
  read_version-Keeps = >>=-Keeps (read_exact-Keeps header_base_bytes) (λ fixed.
      >>-Keeps (lift-Keeps (ensure (list_eq (take 6 fixed) magic_bytes) file_format_error)) (
        >>-Keeps
          (lift-Keeps (ensure (version_supported (from_be (drop 6 fixed))) file_format_error))
          (lift-Keeps (ok (from_be (drop 6 fixed))))))

  read_suite-Keeps : (version : ℕ) → Keeps of_source (read_suite read version)
  unfolding read_suite
  read_suite-Keeps version = >>=-Keeps (read_exact-Keeps 2) (λ alg_len.
      >>-Keeps (lift-Keeps (ensure _ file_format_error)) (
        >>=-Keeps (read_exact-Keeps (from_be alg_len)) (λ name.
          >>=-Keeps (lift-Keeps (decoded_suite name)) (λ kem_alg.
            >>-Keeps (lift-Keeps (ensure _ unsupported_algorithm_error))
              (lift-Keeps (ok kem_alg))))))

  read_ciphertext-Keeps : Keeps of_source (read_ciphertext read)
  unfolding read_ciphertext
  read_ciphertext-Keeps = >>=-Keeps (read_exact-Keeps 4) (λ kem_ct_len.
      >>-Keeps (lift-Keeps (ensure _ file_format_error)) (read_exact-Keeps (from_be kem_ct_len)))

  read_x25519-Keeps : (version : ℕ) → Keeps of_source (read_x25519 read version)
  unfolding read_x25519
  read_x25519-Keeps version =
      if-Keeps (version == format_version) (read_exact-Keeps x25519_key_bytes) (lift-Keeps (ok []))

  read_fields-Keeps : Keeps of_source (read_fields read)
  unfolding read_fields
  read_fields-Keeps = >>=-Keeps read_version-Keeps (λ version.
      >>=-Keeps (read_suite-Keeps version) (λ kem_alg.
        >>=-Keeps read_ciphertext-Keeps (λ ciphertext.
          >>=-Keeps (read_x25519-Keeps version) (λ x25519_public.
            >>=-Keeps (read_exact-Keeps aes_nonce_bytes) (λ nonce. record { at = λ st. refl })))))

  pub read_encrypted_file_header-Keeps : Keeps view (read_encrypted_file_header read)
  unfolding read_encrypted_file_header
  read_encrypted_file_header-Keeps = record {
    at = λ s. read_fields-Keeps.at (record { source = s; header = [] });
  }
