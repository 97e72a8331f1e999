-- ===== src/Stream/Payload.antt =====
-- crypto_stream.py: the payload loops and the four operations on a whole file.
use quantum_encryptor.Prelude.{
  ℕ, zero, suc, ◌+◌, ◌-◌, Bool, true, false, Option, none, some, List, [], ◌∷◌, ◌++◌, Bytes, Text,
  length, take, drop, is_empty, ltb, leb, ◌==◌, if◌then◌else◌,
}
use quantum_encryptor.Config.{aes_tag_bytes}
use quantum_encryptor.Failure.{
  Result, ok, err, size_limit_error, file_format_error, authentication_failed_error, out_of_fuel,
}
use quantum_encryptor.Exec.{Exec, pure, raise, lift, modify, ◌>>=◌, ◌>>◌}
use quantum_encryptor.Backend.{Primitives, Oqs, Aead}
use quantum_encryptor.Container.{
  EncryptedFileHeader, EncryptedFileMetadata, metadata, read_encrypted_file_header,
}
use quantum_encryptor.Stream.Files.{
  Source, Session, Phase, encrypting, verifying, decrypting, checkpoint, report,
}
use quantum_encryptor.Stream.Reader.{open_reader, reader_read, as_source}
use quantum_encryptor.Stream.Writer.{to_sink, to_snapshot, write_all}
use quantum_encryptor.Stream.Suite.{
  Entropy, encrypted_size_limit, new_encryption_header, candidate_keys,
}

-- `while data := reader.read(): body`. A chunk is never empty, so the bytes that are left, and one
-- more round for the end, bound the rounds.
unfoldable pub read_loop : {A : Type 0} → (Bytes → A → Exec Session A) → ℕ → A → Exec Session A
read_loop body zero acc = raise out_of_fuel
read_loop body (suc fuel) acc = do
  got ← reader_read none
  (if is_empty got then pure acc else (body got acc >>= read_loop body fuel))

unfoldable pub each_chunk : {A : Type 0} → (Bytes → A → Exec Session A) → A → Exec Session A
each_chunk body acc s = read_loop body (suc (length s.reader.source.rest)) acc s

-- `reader.total or 0`
unfoldable pub total_or_zero : Option ℕ → ℕ
total_or_zero none = 0
total_or_zero (some total) = total

unfoldable pub reader_count : Exec Session ℕ
reader_count s = (ok s.reader.count, s)

unfoldable pub reader_total : Exec Session (Option ℕ)
reader_total s = (ok s.reader.total, s)

unfoldable pub check_payload_size : ℕ → Exec Session (Unit {0})
check_payload_size max_file_bytes s = elim s.reader.total [
  | none ↦ (ok tt, s)
  | some total ↦
      if ltb total (s.reader.count + aes_tag_bytes)
      then (err file_format_error, s)
      else if ltb (max_file_bytes + aes_tag_bytes) (total - s.reader.count)
      then (err size_limit_error, s)
      else (ok tt, s)
]

-- The body of the loop of `_payload_count`; `true` if there is a snapshot to write.
unfoldable pub count_chunk : ℕ → Bool → Bytes → ℕ → Exec Session ℕ
count_chunk max_file_bytes keep got count =
    if ltb (max_file_bytes + aes_tag_bytes) (count + length got)
    then raise size_limit_error
    else ((if keep then write_all to_snapshot got else pure tt) >> pure (count + length got))

unfoldable pub payload_count : ℕ → Bool → Exec Session ℕ
payload_count max_file_bytes keep = do
  check_payload_size max_file_bytes
  count ← each_chunk (count_chunk max_file_bytes keep) 0
  (if ltb count aes_tag_bytes then raise file_format_error else pure count)

-- `max(0, reader.total - reader.count - cfg.AES_TAG_BYTES)`, or 0 without a total.
unfoldable pub payload_total : Session → ℕ
payload_total s = elim s.reader.total [
  | none ↦ 0
  | some total ↦ total - s.reader.count - aes_tag_bytes
]

unfoldable pub expected_payload : Exec Session ℕ
expected_payload s = (ok (payload_total s), s)

unfoldable pub clear_snapshot : Exec Session (Unit {0})
clear_snapshot =
    modify (λ s. record s { snapshot = record { written = []; replies = s.snapshot.replies } })

module _ {C : Type 0} (aead : Aead C) where
  -- The locals of `_process_payload`.
  pub record Progress : Type 0 where
    pub tail : Bytes
    pub processed : ℕ
    pub contexts : List C

  -- `for context in contexts`: each is fed, and what comes out is written if there is a sink.
  unfoldable pub feed : Bool → Bytes → List C → Exec Session (List C)
  feed release payload [] = pure []
  feed release payload (c ∷ cs) = do
    (if release then write_all to_sink (aead.update c payload).0 else pure tt)
    later ← feed release payload cs
    pure ((aead.update c payload).1 ∷ later)

  -- The body of the loop of `_process_payload`.
  unfoldable pub process_chunk : ℕ → Phase → Bool → ℕ → Bytes → Progress → Exec Session Progress
  process_chunk max_file_bytes phase release total got p =
      let combined = p.tail ++ got in
      let cut = length combined - aes_tag_bytes in
      if leb (length combined) aes_tag_bytes
      then pure (record { tail = combined; processed = p.processed; contexts = p.contexts })
      else if ltb max_file_bytes (p.processed + cut)
      then raise size_limit_error
      else (do
        contexts ← feed release (take cut combined) p.contexts
        report phase (p.processed + cut) total
        pure (record {
          tail = drop cut combined;
          processed = p.processed + cut;
          contexts = contexts;
        }))

  unfoldable pub process_payload : List C → ℕ → Phase → Bool → Exec Session Progress
  process_payload contexts max_file_bytes phase release = do
    total ← expected_payload
    report phase 0 total
    p ←
        each_chunk (process_chunk max_file_bytes phase release total)
          (record { tail = []; processed = 0; contexts = contexts })
    (if length p.tail == aes_tag_bytes then pure tt else raise file_format_error)
    checkpoint
    pure p

  unfoldable pub decryptor : EncryptedFileHeader → Bytes → C
  decryptor header key = aead.decryptor key header.nonce header.header_aad

  unfoldable pub decryptors : EncryptedFileHeader → List Bytes → List C
  decryptors header [] = []
  decryptors header (key ∷ keys) = decryptor header key ∷ decryptors header keys

  -- The first key whose context accepts the tag.
  unfoldable pub accepting : Bytes → List Bytes → List C → Option Bytes
  accepting tag [] contexts = none
  accepting tag (key ∷ keys) [] = none
  accepting tag (key ∷ keys) (c ∷ cs) = elim (aead.finalize_with_tag c tag) [
    | some rest ↦ some key
    | none ↦ accepting tag keys cs
  ]

  -- The body of the loop of `encrypt_stream`.
  unfoldable pub encrypt_chunk : Bytes → C → Exec Session C
  encrypt_chunk got c = do
    write_all to_sink (aead.update c got).0
    count ← reader_count
    total ← reader_total
    report encrypting count (total_or_zero total)
    pure (aead.update c got).1

  module _ (lib : Primitives) (backend : Option Oqs) where
    unfoldable pub encrypt_stream :
        Entropy → Source → Bytes → Text → ℕ → Exec Session EncryptedFileMetadata
    encrypt_stream entropy source public_key kem_alg max_file_bytes = do
      limit ← lift (encrypted_size_limit max_file_bytes)
      open_reader source max_file_bytes
      made ← lift (new_encryption_header lib backend entropy public_key kem_alg)
      total ← reader_total
      report encrypting 0 (total_or_zero total)
      write_all to_sink made.0.header_aad
      c ← each_chunk encrypt_chunk (aead.encryptor made.1 made.0.nonce made.0.header_aad)
      checkpoint
      write_all to_sink (aead.finalize c).0
      write_all to_sink (aead.finalize c).1
      count ← reader_count
      report encrypting count count
      checkpoint
      pure (metadata made.0 (count + aes_tag_bytes))

    unfoldable pub inspect_stream : Source → ℕ → Exec Session EncryptedFileMetadata
    inspect_stream source max_file_bytes = do
      limit ← lift (encrypted_size_limit max_file_bytes)
      open_reader source limit
      header ← read_encrypted_file_header as_source
      count ← payload_count max_file_bytes false
      pure (metadata header count)

    -- The header, the metadata and the key of `_verify`.
    pub record Verified : Type 0 where
      pub header : EncryptedFileHeader
      pub found : EncryptedFileMetadata
      pub key : Bytes

    unfoldable pub accept : EncryptedFileHeader → ℕ → Option Bytes → Exec Session Verified
    accept header processed none = raise authentication_failed_error
    accept header processed (some key) = do
      report verifying processed processed
      checkpoint
      pure (record {
        header = header;
        found = metadata header (processed + aes_tag_bytes);
        key = key;
      })

    unfoldable pub verify : Source → Bytes → Option Text → ℕ → Exec Session Verified
    verify source private_key expected max_file_bytes = do
      limit ← lift (encrypted_size_limit max_file_bytes)
      open_reader source limit
      header ← read_encrypted_file_header as_source
      check_payload_size max_file_bytes
      keys ← lift (candidate_keys lib backend header private_key expected)
      p ← process_payload (decryptors header keys) max_file_bytes verifying false
      accept header p.processed (accepting p.tail keys p.contexts)

    unfoldable pub verify_stream :
        Source → Bytes → Option Text → ℕ → Exec Session EncryptedFileMetadata
    verify_stream source private_key expected max_file_bytes = do
      v ← verify source private_key expected max_file_bytes
      pure v.found

    -- The snapshot from `position` on, which the operating system reads whole and can seek.
    unfoldable pub snapshot_from : ℕ → Exec Session Source
    snapshot_from position s =
        (ok (record { rest = drop position s.snapshot.written; seekable = true; replies = [] }), s)

    unfoldable pub final_bytes : List C → Bytes → Result Bytes
    final_bytes [] tag = err authentication_failed_error
    final_bytes (c ∷ cs) tag = elim (aead.finalize_with_tag c tag) [
      | some rest ↦ ok rest
      | none ↦ err authentication_failed_error
    ]

    -- The second pass of `decrypt_stream`, over the authenticated snapshot.
    unfoldable pub release : Verified → ℕ → Exec Session EncryptedFileMetadata
    release v max_file_bytes = do
      sealed ← snapshot_from v.found.header_bytes
      open_reader sealed v.found.encrypted_payload_bytes
      p ← process_payload (decryptor v.header v.key ∷ []) max_file_bytes decrypting true
      final ← lift (final_bytes p.contexts p.tail)
      write_all to_sink final
      report decrypting p.processed p.processed
      checkpoint
      pure v.found

    unfoldable pub decrypt_stream :
        Source → Bytes → Option Text → ℕ → Exec Session EncryptedFileMetadata
    decrypt_stream source private_key expected max_file_bytes = do
      limit ← lift (encrypted_size_limit max_file_bytes)
      open_reader source limit
      header ← read_encrypted_file_header as_source
      clear_snapshot
      write_all to_snapshot header.header_aad
      count ← payload_count max_file_bytes true
      snapshot ← snapshot_from 0
      v ← verify snapshot private_key expected max_file_bytes
      release v max_file_bytes
