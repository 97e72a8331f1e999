-- ===== src/Container.antt =====
-- crypto_core.py: the encrypted-file container, its header reader over any binary source, and the
-- parser of a whole container in memory. The children prove what they say by their names.
pub mod Source
pub mod Format
pub mod Rounds
pub mod Steady
pub mod Faithful
mod Suites
mod Consumes
pub mod Accepts
mod Took
pub mod Sound
pub mod Leaves
pub mod Memory
mod Examples
use quantum_encryptor.Prelude.{
  ℕ, zero, suc, ◌+◌, ◌-◌, ◌*◌, Bool, true, false, ◌||◌, not, Option, none, some, List, [], ◌∷◌,
  ◌++◌, Bytes, Text, length, take, drop, is_empty, list_eq, from_be, ltb, leb, ◌==◌, if◌then◌else◌,
}
use quantum_encryptor.Prelude.Utf8.{decode_utf8}
use quantum_encryptor.Config.{
  magic_bytes, format_version, legacy_format_version, header_base_bytes, max_kem_alg_name_bytes,
  max_kem_ciphertext_bytes, x25519_key_bytes, aes_nonce_bytes, aes_tag_bytes, max_file_bytes,
  max_encrypted_file_bytes,
}
use quantum_encryptor.Failure.{
  Failure, Result, ok, err, ensure, os_error, file_format_error, unsupported_algorithm_error,
  size_limit_error, out_of_fuel,
}
use quantum_encryptor.Exec.{Exec, pure, raise, lift, check, modify, ◌>>=◌, ◌>>◌}
use quantum_encryptor.Algorithms.{is_hybrid_key_algorithm, is_allowed_kem_algorithm}
use quantum_encryptor.Container.Source.{BinaryReader}

pub record EncryptedFileMetadata : Type 0 where
  pub version : ℕ
  pub kem_alg : Text
  pub header_bytes : ℕ
  pub kem_ciphertext_bytes : ℕ
  pub x25519_ciphertext_bytes : ℕ
  pub encrypted_payload_bytes : ℕ
  pub total_bytes : ℕ

pub record EncryptedFileHeader : Type 0 where
  pub version : ℕ
  pub kem_alg : Text
  pub header_aad : Bytes
  pub ciphertext_kem : Bytes
  pub x25519_ephemeral_public : Bytes
  pub nonce : Bytes

unfoldable pub metadata : EncryptedFileHeader → ℕ → EncryptedFileMetadata
metadata h payload_bytes = record {
  version = h.version;
  kem_alg = h.kem_alg;
  header_bytes = length h.header_aad;
  kem_ciphertext_bytes = length h.ciphertext_kem;
  x25519_ciphertext_bytes = length h.x25519_ephemeral_public;
  encrypted_payload_bytes = payload_bytes;
  total_bytes = length h.header_aad + payload_bytes;
}

pub record EncryptedFileParts : Type 0 where
  pub metadata : EncryptedFileMetadata
  pub header_aad : Bytes
  pub ciphertext_kem : Bytes
  pub x25519_ephemeral_public : Bytes
  pub nonce : Bytes
  pub encrypted_data_aes : Bytes

-- The source, and the local `header` of `_read_encrypted_file_header`.
pub record ReadState (S : Type 0) : Type 0 where
  pub source : S
  pub header : Bytes

-- The tests that `read_exact` makes on each part it reads.
unfoldable pub checked_part : ℕ → Option Bytes → Result Bytes
checked_part wanted none = err os_error
checked_part wanted (some part) =
    if ltb wanted (length part)
    then err os_error
    else if is_empty part
    then err file_format_error
    else ok part

unfoldable pub decoded_suite : Bytes → Result Text
decoded_suite name = elim (decode_utf8 name) [ none ↦ err file_format_error | some t ↦ ok t ]

unfoldable pub version_supported : ℕ → Bool
version_supported version = version == legacy_format_version || version == format_version

unfoldable pub suite_allowed : ℕ → Text → Bool
suite_allowed version kem_alg =
    if version == format_version
    then is_hybrid_key_algorithm (some kem_alg)
    else is_allowed_kem_algorithm (some kem_alg)

-- A length field is neither zero nor above its limit.
unfoldable pub plausible : ℕ → ℕ → Bool
plausible limit n = not (n == 0 || ltb limit n)

module _ {S : Type 0} (read : BinaryReader S) where
  unfoldable pub fetch : ℕ → Exec (ReadState S) (Option Bytes)
  fetch n st = let (r, s) = read n st.source in (r, record st { source = s })

  -- The loop of `read_exact`. A part is never empty, so `size` rounds are enough.
  unfoldable pub read_exact_loop : ℕ → ℕ → Bytes → Exec (ReadState S) Bytes
  read_exact_loop zero size got = if ltb (length got) size then raise out_of_fuel else pure got
  read_exact_loop (suc fuel) size got = elim (ltb (length got) size) [
    | false ↦ pure got
    | true ↦ do
      reply ← fetch (size - length got)
      part ← lift (checked_part (size - length got) reply)
      read_exact_loop fuel size (got ++ part)
  ]

  unfoldable pub read_exact : ℕ → Exec (ReadState S) Bytes
  read_exact size = do
    got ← read_exact_loop size size []
    modify (λ st. record st { header = st.header ++ got })
    pure got

  -- The stages of `_read_encrypted_file_header`, in its order.
  unfoldable pub read_version : Exec (ReadState S) ℕ
  read_version = do
    fixed ← read_exact header_base_bytes
    check (list_eq (take 6 fixed) magic_bytes) file_format_error
    let version = from_be (drop 6 fixed)
    check (version_supported version) file_format_error
    pure version

  unfoldable pub read_suite : ℕ → Exec (ReadState S) Text
  read_suite version = do
    alg_len ← read_exact 2
    check (plausible max_kem_alg_name_bytes (from_be alg_len)) file_format_error
    name ← read_exact (from_be alg_len)
    kem_alg ← lift (decoded_suite name)
    check (suite_allowed version kem_alg) unsupported_algorithm_error
    pure kem_alg

  unfoldable pub read_ciphertext : Exec (ReadState S) Bytes
  read_ciphertext = do
    kem_ct_len ← read_exact 4
    check (plausible max_kem_ciphertext_bytes (from_be kem_ct_len)) file_format_error
    read_exact (from_be kem_ct_len)

  unfoldable pub read_x25519 : ℕ → Exec (ReadState S) Bytes
  read_x25519 version = if version == format_version then read_exact x25519_key_bytes else pure []

  unfoldable pub read_fields : Exec (ReadState S) EncryptedFileHeader
  read_fields = do
    version ← read_version
    kem_alg ← read_suite version
    ciphertext_kem ← read_ciphertext
    x25519_public ← read_x25519 version
    nonce ← read_exact aes_nonce_bytes
    λ st. (
      ok (record {
        version = version;
        kem_alg = kem_alg;
        header_aad = st.header;
        ciphertext_kem = ciphertext_kem;
        x25519_ephemeral_public = x25519_public;
        nonce = nonce;
      }),
      st,
    )

  unfoldable pub read_encrypted_file_header : Exec S EncryptedFileHeader
  read_encrypted_file_header s =
      let (r, st) = read_fields (record { source = s; header = [] }) in (r, st.source)

-- `io.BytesIO`: the state is what is left to read.
unfoldable pub bytes_io : BinaryReader Bytes
bytes_io n s = (ok (some (take n s)), drop n s)

-- The second half of `_parse_encrypted_file_parts`: the payload is what the header left.
unfoldable pub payload_parts : Result EncryptedFileHeader × Bytes → Result EncryptedFileParts
payload_parts (err e, rest) = err e
payload_parts (ok header, rest) =
    if ltb (length rest) aes_tag_bytes
    then err file_format_error
    else if ltb (max_file_bytes + aes_tag_bytes) (length rest)
    then err size_limit_error
    else ok (record {
      metadata = metadata header (length rest);
      header_aad = header.header_aad;
      ciphertext_kem = header.ciphertext_kem;
      x25519_ephemeral_public = header.x25519_ephemeral_public;
      nonce = header.nonce;
      encrypted_data_aes = rest;
    })

unfoldable pub parse_encrypted_file_parts : Bytes → Result EncryptedFileParts
parse_encrypted_file_parts blob =
    if is_empty blob
    then err file_format_error
    else if ltb max_encrypted_file_bytes (length blob)
    then err size_limit_error
    else payload_parts (read_encrypted_file_header bytes_io blob)

unfoldable pub inspect_encrypted_file_strict : Bytes → Result EncryptedFileMetadata
inspect_encrypted_file_strict blob = elim (parse_encrypted_file_parts blob) [
  | err e ↦ err e
  | ok parts ↦ ok parts.metadata
]
