-- ===== src/Stream/Examples.antt =====
-- Concrete runs of the stream code, and its theorems at concrete inputs.
use quantum_encryptor.Prelude.{
  ◌≡◌, ◌⊎◌, refl, none, some, [], ◌∷◌, ◌++◌, arith, true, false, Bytes, Text, replicate, length,
  codes, All, IsByte, list_eq, one_of, from_be,
}
use quantum_encryptor.Prelude.Utf8.{decode_utf8}
use quantum_encryptor.Failure.{Result, ok}
use quantum_encryptor.Algorithms.{
  is_hybrid_key_algorithm, is_allowed_kem_algorithm, is_allowed_key_algorithm,
}
use quantum_encryptor.Backend.{Primitives, Oqs, Aead, StreamingLaw}
use quantum_encryptor.Keys.{
  validate_key_material, validate_key_length, expected_key_bytes, validate_mlkem_private_key,
  validate_mlkem_public_key, mlkem_key_component, embedded_public_key, embedded_hash,
  coefficients_canonical,
}
use quantum_encryptor.Kem.{
  require_oqs, listed, enabled_kem_mechanisms, resolve_kem_algorithm,
  resolve_decryption_kem_algorithms, derive_symmetric_key_hkdf,
}
use quantum_encryptor.Container.{
  EncryptedFileHeader, metadata, version_supported, suite_allowed, read_encrypted_file_header,
  read_fields, read_version, read_suite, read_ciphertext, read_x25519, read_exact, read_exact_loop,
  fetch, checked_part, plausible, decoded_suite,
}
use quantum_encryptor.Stream.Files.{
  Source, Sink, Session, gives, wrote, verifying, source_read, checkpoint, report,
}
use quantum_encryptor.Stream.Reader.{
  start_reader, asked_size, open_reader, reader_read, as_source, pull, add_count, within_limit,
  received, read_size, remaining_size,
}
use quantum_encryptor.Stream.Writer.{to_sink, write_all}
use quantum_encryptor.Stream.Written.{Wrote, write_all-Wrote}
use quantum_encryptor.Stream.Suite.{
  encrypted_size_limit, candidate_keys, shares, content_key, fits_mechanism, agrees, keys_of,
  some_key, expected_suite,
}
use quantum_encryptor.Stream.Processed.{Held, process_payload_ok}
use quantum_encryptor.Stream.Authentic.{Authentic, verify-Authentic}
use quantum_encryptor.Stream.Release.{Raised, ReleasedAfter, decrypt_stream_verifies_first}
use quantum_encryptor.Stream.Payload.{
  read_loop, each_chunk, check_payload_size, payload_total, Progress, feed, process_chunk,
  process_payload, expected_payload, decryptor, decryptors, accepting, accept, Verified, verify,
  decrypt_stream,
}

-- A backend that answers with constants, and contexts that copy.
abbrev pub toy_primitives : Primitives
toy_primitives = record {
  sha3_256 = λ d. replicate 32 0;
  hkdf_sha256 = λ n salt info secret. replicate 32 5;
  x25519_public = λ d. replicate 32 1;
  x25519_exchange = λ a b. some (replicate 32 3);
}

abbrev pub kyber : Text
kyber = codes "Kyber768"

abbrev pub toy_oqs : Oqs
toy_oqs = record {
  enabled = some (kyber ∷ []);
  length_public_key = λ k. none;
  length_secret_key = λ k. some 2400;
  length_ciphertext = λ k. none;
  encap_secret = λ k r d. (7 ∷ [], replicate 32 4);
  decap_secret = λ k sk ct. ok (replicate 32 4);
  generate_keypair = λ k r. ([], []);
}

abbrev pub copying : Aead (Unit {0})
copying = record {
  encryptor = λ key nonce aad. tt;
  decryptor = λ key nonce aad. tt;
  update = λ c d. (d, c);
  finalize = λ c. ([], replicate 16 0);
  finalize_with_tag = λ c tag. some [];
}

copying-StreamingLaw : StreamingLaw copying
copying-StreamingLaw = record { nothing = λ c. refl; pieces = λ c d e. refl }

-- A version 3 container of three bytes of plaintext, read in pieces of five bytes at first.
abbrev pub old_container : Bytes
old_container =
    codes "PQCENC"
    ++ 0 ∷ 3 ∷ 0 ∷ 8 ∷ kyber
    ++ 0 ∷ 0 ∷ 0 ∷ 1 ∷ 7 ∷ replicate 12 2
    ++ 65 ∷ 66 ∷ 67 ∷ replicate 16 0

old_bytes : All IsByte old_container
old_bytes = omega arith

abbrev pub file_of : Bytes → Source
file_of d = record { rest = d; seekable = true; replies = gives 4 ∷ gives 4 ∷ [] }

abbrev pub empty_file : Sink
empty_file = record { written = []; replies = [] }

abbrev pub idle : Session
idle = record {
  reader = record {
    source = file_of (1 ∷ 2 ∷ replicate 16 0);
    limit = 100;
    count = 0;
    total = none;
  };
  sink = record { written = 9 ∷ []; replies = wrote 1 ∷ wrote 0 ∷ [] };
  snapshot = empty_file;
  cancels = [];
  reports = [];
}

write_all-Wrote_example :
    Wrote to_sink
      (1 ∷ 2 ∷ 3 ∷ [])
      idle
      (write_all to_sink (1 ∷ 2 ∷ 3 ∷ []) idle).0
      (write_all to_sink (1 ∷ 2 ∷ 3 ∷ []) idle).1
write_all-Wrote_example = write_all-Wrote to_sink (1 ∷ 2 ∷ 3 ∷ []) idle

abbrev pub old_key : Bytes
old_key = replicate 2400 0

abbrev processed_run : Result (Progress copying) × Session
processed_run = process_payload copying (tt ∷ []) 100 verifying true idle

-- The progress of `processed_run`.
abbrev two_bytes : Progress copying
two_bytes = record { tail = replicate 16 0; processed = 2; contexts = tt ∷ [] }

abbrev after : Session
after = record {
  reader = record {
    source = record { rest = []; seekable = true; replies = [] };
    limit = 100;
    count = 18;
    total = none;
  };
  sink = record { written = 9 ∷ []; replies = wrote 1 ∷ wrote 0 ∷ [] };
  snapshot = empty_file;
  cancels = [];
  reports =
      record { phase = verifying; processed = 0; total = 0 }
      ∷ record { phase = verifying; processed = 2; total = 0 }
      ∷ [];
}

run_of_two : process_payload copying (tt ∷ []) 100 verifying false idle ≡ (ok two_bytes, after)
unfolding process_payload expected_payload payload_total report each_chunk read_loop reader_read
    asked_size read_size checkpoint pull source_read received add_count within_limit process_chunk
    feed
run_of_two = refl

process_payload_ok_example :
    Held copying (tt ∷ []) (1 ∷ 2 ∷ replicate 16 0) two_bytes × (length two_bytes.tail ≡ 16)
process_payload_ok_example =
    process_payload_ok copying copying-StreamingLaw (tt ∷ []) 100 verifying false two_bytes idle
      after run_of_two

decrypt_stream_verifies_first_example :
    Raised copying toy_primitives (some toy_oqs) old_key none 100 idle (
      decrypt_stream copying toy_primitives
        (some toy_oqs)
        (file_of old_container)
        old_key
        none
        100
        idle)
    ⊎ ReleasedAfter copying toy_primitives (some toy_oqs) old_key none 100 idle (
        decrypt_stream copying toy_primitives
          (some toy_oqs)
          (file_of old_container)
          old_key
          none
          100
          idle)
decrypt_stream_verifies_first_example =
    decrypt_stream_verifies_first copying toy_primitives (some toy_oqs) old_key none 100
      (file_of old_container) idle

abbrev old_header : EncryptedFileHeader
old_header = record {
  version = 3;
  kem_alg = kyber;
  header_aad = codes "PQCENC" ++ 0 ∷ 3 ∷ 0 ∷ 8 ∷ kyber ++ 0 ∷ 0 ∷ 0 ∷ 1 ∷ 7 ∷ replicate 12 2;
  ciphertext_kem = 7 ∷ [];
  x25519_ephemeral_public = [];
  nonce = replicate 12 2;
}

abbrev old_verified : Verified copying toy_primitives (some toy_oqs)
unfolding metadata
old_verified = record { header = old_header; found = metadata old_header 19; key = replicate 32 5 }

abbrev old_run : Result (Verified copying toy_primitives (some toy_oqs)) × Session
old_run = verify copying toy_primitives (some toy_oqs) (file_of old_container) old_key none 100 idle

run_of_old : old_run.0 ≡ ok old_verified
unfolding verify encrypted_size_limit open_reader start_reader remaining_size checkpoint
    read_encrypted_file_header read_fields read_version read_suite read_ciphertext read_x25519
    read_exact read_exact_loop fetch checked_part plausible decoded_suite decode_utf8
    version_supported suite_allowed as_source reader_read asked_size read_size pull source_read
    received add_count within_limit check_payload_size candidate_keys expected_suite
    validate_key_material validate_key_length expected_key_bytes validate_mlkem_private_key
    validate_mlkem_public_key mlkem_key_component embedded_public_key embedded_hash
    coefficients_canonical shares resolve_decryption_kem_algorithms resolve_kem_algorithm
    enabled_kem_mechanisms require_oqs listed keys_of fits_mechanism agrees content_key
    derive_symmetric_key_hkdf some_key decryptors decryptor process_payload expected_payload
    payload_total report each_chunk read_loop process_chunk feed accepting accept metadata
    is_hybrid_key_algorithm is_allowed_kem_algorithm is_allowed_key_algorithm list_eq one_of from_be
run_of_old = refl

abbrev pub paired : {X Y : Type 0} {a : X} {p : X × Y} → p.0 ≡ a → p ≡ (a, p.1)
paired {p = p} e i = (e i, p.1)

verify-Authentic_example :
    Authentic copying toy_primitives (some toy_oqs) old_key none old_container old_verified
verify-Authentic_example =
    verify-Authentic copying toy_primitives (some toy_oqs) copying-StreamingLaw
      (file_of old_container) old_key none 100 idle old_run.1 old_bytes (paired run_of_old)
