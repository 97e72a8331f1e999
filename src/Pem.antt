-- ===== src/Pem.antt =====
-- crypto_core.py: the strict parser of PEM key files. `ALLOW_LEGACY_PRIVATE_KEY_PEM` is false.
pub mod Metadata
pub mod Files
pub mod Layout
pub mod Taking
pub mod Parsed
pub mod Envelope
pub mod Written
pub mod RoundTrip
pub mod Rewrapped
pub mod Examples
use quantum_encryptor.Prelude.{
  ℕ, ◌+◌, Bool, true, false, ◌&&◌, ◌||◌, not, Option, none, some, List, [], ◌∷◌, ◌++◌, Bytes, Text,
  length, take, drop, is_empty, list_eq, codes, ltb, ◌==◌, if◌then◌else◌,
}
use quantum_encryptor.Prelude.Strings.{
  canonical_number, strip, splitlines, starts_with, join, split, cut,
}
use quantum_encryptor.Prelude.Base64.{b64encode, b64decode}
use quantum_encryptor.Config.{
  pem_public_header, pem_public_footer, pem_private_header, pem_private_footer,
  pem_private_key_format_header, pem_algorithm_header, pem_kdf_header, pem_proc_type_header,
  pem_dek_info_header, private_key_kdf_alg, scrypt_n, scrypt_r, scrypt_p,
  supported_private_key_format_versions, max_pem_bytes, max_raw_key_bytes, scrypt_salt_bytes,
  aes_nonce_bytes, aes_tag_bytes,
}
use quantum_encryptor.Failure.{
  Failure, Result, ok, err, ensure, invalid_key_format_error, unsupported_kdf_error, ◌>>=◌, ◌>>◌,
}
use quantum_encryptor.Algorithms.{is_allowed_key_algorithm}
use quantum_encryptor.Backend.{Primitives}
use quantum_encryptor.Keys.{KeyType, public, private, expected_key_bytes, validate_key_material}
use quantum_encryptor.PrivateKey.{contains}
use quantum_encryptor.Fingerprint.{all_ascii}
use quantum_encryptor.Pem.Metadata.{
  ParsedPrivateKeyEnvelope, after, parse_private_key_format_line, parse_private_key_kdf_line,
  decode_pem_base64,
}

pub record ParsedKeyPem : Type 0 where
  pub kem_alg : Text
  pub key_type : KeyType
  pub is_encrypted : Bool
  pub payload : Bytes
  pub private_envelope : Option ParsedPrivateKeyEnvelope

-- The local variables that the lines of a file fill in.
pub record Lines : Type 0 where
  pub kem_alg : Option Text
  pub format_line : Option Text
  pub proc_type_seen : Bool
  pub dek_line : Option Text
  pub kdf_line : Option Text
  pub payload_lines : List Text

unfoldable pub no_lines : Lines
no_lines = record {
  kem_alg = none;
  format_line = none;
  proc_type_seen = false;
  dek_line = none;
  kdf_line = none;
  payload_lines = [];
}

unfoldable pub is_private : KeyType → Bool
is_private public = false
is_private private = true

unfoldable pub present : Option Text → Bool
present none = false
present (some t) = true

-- A line that may stand once, and in a private key only where `private_only`.
unfoldable pub once : Bool → Bool → Lines → Result Lines
once allowed seen l = if allowed && not seen then ok l else err invalid_key_format_error

unfoldable pub read_line : KeyType → Text → Lines → Result Lines
read_line key_type line l =
    if is_empty line
    then ok l
    else if starts_with pem_algorithm_header line
    then once true (present l.kem_alg)
        (record l { kem_alg = some (strip (after pem_algorithm_header line)) })
    else if starts_with pem_private_key_format_header line
    then once (is_private key_type) (present l.format_line) (record l { format_line = some line })
    else if list_eq line pem_proc_type_header
    then once (is_private key_type) l.proc_type_seen (record l { proc_type_seen = true })
    else if starts_with pem_dek_info_header line
    then once (is_private key_type) (present l.dek_line) (record l { dek_line = some line })
    else if starts_with pem_kdf_header line
    then once (is_private key_type) (present l.kdf_line) (record l { kdf_line = some line })
    else ok (record l { payload_lines = l.payload_lines ++ line ∷ [] })

unfoldable pub read_lines : KeyType → List Text → Lines → Result Lines
read_lines key_type [] l = ok l
read_lines key_type (raw ∷ raws) l = do
  l' ← read_line key_type (strip raw) l
  read_lines key_type raws l'

-- The type that the boundaries of a file tell: its first and its last line.
unfoldable pub boundary_type : Text → Text → Result KeyType
boundary_type header footer =
    if list_eq header pem_public_header && list_eq footer pem_public_footer
    then ok public
    else if list_eq header pem_private_header && list_eq footer pem_private_footer
    then ok private
    else err invalid_key_format_error

unfoldable pub last_line : Text → List Text → Text
last_line l [] = l
last_line l (m ∷ ms) = last_line m ms

-- `lines[1:-1]`, of the lines after the first.
unfoldable pub but_last : List Text → List Text
but_last [] = []
but_last (l ∷ []) = []
but_last (l ∷ m ∷ ms) = l ∷ but_last (m ∷ ms)

unfoldable pub declared_algorithm : Option Text → Result Text
declared_algorithm none = err invalid_key_format_error
declared_algorithm (some t) =
    if is_allowed_key_algorithm (some t) then ok t else err invalid_key_format_error

unfoldable pub required_line : Failure → Option Text → Result Text
required_line failure none = err failure
required_line failure (some line) = ok line

unfoldable pub dek_parts : Option (Text × Text) → Result (Text × Text)
dek_parts none = err invalid_key_format_error
dek_parts (some parts) = ok parts

-- The envelope of an encrypted private key.
unfoldable pub read_envelope : Lines → Result ParsedPrivateKeyEnvelope
read_envelope l = do
  format_line ← required_line invalid_key_format_error l.format_line
  format_version ← parse_private_key_format_line format_line
  dek_line ← required_line invalid_key_format_error l.dek_line
  kdf_line ← required_line unsupported_kdf_error l.kdf_line
  parts ← dek_parts (cut 44 (after pem_dek_info_header dek_line))
  salt ← decode_pem_base64 parts.0
  nonce ← decode_pem_base64 parts.1
  ensure (length salt == scrypt_salt_bytes && length nonce == aes_nonce_bytes)
      invalid_key_format_error
  parse_private_key_kdf_line kdf_line
  ok (record {
    format_version = some format_version;
    kdf_name = private_key_kdf_alg;
    kdf_n = scrypt_n;
    kdf_r = scrypt_r;
    kdf_p = scrypt_p;
    salt = salt;
    nonce = nonce;
  })

-- No envelope for a public key, nor for a private key with no line about encryption.
unfoldable pub private_envelope_of : KeyType → Lines → Result (Option ParsedPrivateKeyEnvelope)
private_envelope_of public l = ok none
private_envelope_of private l =
    if l.proc_type_seen
    then (read_envelope l >>= λ e. ok (some e))
    else if present l.format_line || present l.dek_line || present l.kdf_line
    then err invalid_key_format_error
    else ok none

unfoldable pub has_envelope : Option ParsedPrivateKeyEnvelope → Bool
has_envelope none = false
has_envelope (some e) = true

module _ (lib : Primitives) where
  unfoldable pub validate_payload : Bytes → Text → KeyType → Bool → Result (Unit {0})
  validate_payload payload kem_alg public encrypted =
      validate_key_material lib payload kem_alg public
  validate_payload payload kem_alg private true = do
    expected ← expected_key_bytes kem_alg private
    ensure (length payload == expected + aes_tag_bytes) invalid_key_format_error
  validate_payload payload kem_alg private false = validate_key_material lib payload kem_alg private

  -- From the lines between the boundaries on.
  unfoldable pub parse_lines : KeyType → List Text → Result ParsedKeyPem
  parse_lines key_type raws = do
    l ← read_lines key_type raws no_lines
    kem_alg ← declared_algorithm l.kem_alg
    ensure (not (is_empty l.payload_lines)) invalid_key_format_error
    envelope ← private_envelope_of key_type l
    payload ← decode_pem_base64 (join l.payload_lines)
    ensure (not (ltb max_raw_key_bytes (length payload))) invalid_key_format_error
    validate_payload payload kem_alg key_type (has_envelope envelope)
    ok (record {
      kem_alg = kem_alg;
      key_type = key_type;
      is_encrypted = has_envelope envelope;
      payload = payload;
      private_envelope = envelope;
    })

  unfoldable pub parse_all_lines : List Text → Result ParsedKeyPem
  parse_all_lines [] = err invalid_key_format_error
  parse_all_lines (header ∷ rest) = do
    key_type ← boundary_type (strip header) (strip (last_line header rest))
    parse_lines key_type (but_last rest)

  unfoldable pub parse_key_pem_strict : Text → Result ParsedKeyPem
  parse_key_pem_strict pem_content = do
    ensure (all_ascii pem_content) invalid_key_format_error
    ensure (not (ltb max_pem_bytes (length pem_content))) invalid_key_format_error
    parse_all_lines (splitlines (strip pem_content))
