-- ===== src/Pem/Metadata.antt =====
-- The lines of metadata of a PEM key file, and its base64.
use quantum_encryptor.Prelude.{
  ℕ, Bool, false, ◌&&◌, Option, none, some, List, [], ◌∷◌, Bytes, Text, length, drop, list_eq,
  codes, ◌==◌, if◌then◌else◌,
}
use quantum_encryptor.Prelude.Strings.{canonical_number, strip, starts_with, split, cut}
use quantum_encryptor.Prelude.Base64.{b64encode, b64decode}
use quantum_encryptor.Config.{
  pem_private_key_format_header, pem_kdf_header, private_key_kdf_alg, scrypt_n, scrypt_r, scrypt_p,
  supported_private_key_format_versions,
}
use quantum_encryptor.Failure.{
  Result, ok, err, ensure, invalid_key_format_error, unsupported_kdf_error, ◌>>=◌, ◌>>◌,
}
use quantum_encryptor.PrivateKey.{contains}

pub record ParsedPrivateKeyEnvelope : Type 0 where
  pub format_version : Option ℕ
  pub kdf_name : Text
  pub kdf_n : ℕ
  pub kdf_r : ℕ
  pub kdf_p : ℕ
  pub salt : Bytes
  pub nonce : Bytes

-- The value of a line that begins with `prefix`.
abbrev pub after : Text → Text → Text
after prefix line = drop (length prefix) line

unfoldable pub supported_format : Option ℕ → Result ℕ
supported_format none = err invalid_key_format_error
supported_format (some n) =
    if contains n supported_private_key_format_versions then ok n else err invalid_key_format_error

unfoldable pub parse_private_key_format_line : Text → Result ℕ
parse_private_key_format_line line =
    if starts_with pem_private_key_format_header line
    then supported_format (canonical_number (strip (after pem_private_key_format_header line)))
    else err invalid_key_format_error

-- The dictionary `parsed`, whose name is the only one that is supported.
pub record KdfParameters : Type 0 where
  pub n : Option ℕ
  pub r : Option ℕ
  pub p : Option ℕ

-- `if name in parsed` raise, and else `parsed[name] = value`.
unfoldable pub set_once : Option ℕ → ℕ → (ℕ → KdfParameters) → Result KdfParameters
set_once (some old) value set = err unsupported_kdf_error
set_once none value set = ok (set value)

-- A negative number in canonical form differs from the policy in the end.
unfoldable pub add_parameter : Text → Option ℕ → KdfParameters → Result KdfParameters
add_parameter name none d = err unsupported_kdf_error
add_parameter name (some value) d =
    if list_eq name (codes "n")
    then set_once d.n value (λ v. record d { n = some v })
    else if list_eq name (codes "r")
    then set_once d.r value (λ v. record d { r = some v })
    else if list_eq name (codes "p")
    then set_once d.p value (λ v. record d { p = some v })
    else err unsupported_kdf_error

unfoldable pub parse_parameter : Option (Text × Text) → KdfParameters → Result KdfParameters
parse_parameter none d = err unsupported_kdf_error
parse_parameter (some (name, value)) d = add_parameter name (canonical_number value) d

unfoldable pub parse_parameters : List Text → KdfParameters → Result KdfParameters
parse_parameters [] d = ok d
parse_parameters (part ∷ parts) d = do
  d' ← parse_parameter (cut 61 part) d
  parse_parameters parts d'

unfoldable pub is_set_to : Option ℕ → ℕ → Bool
is_set_to none n = false
is_set_to (some m) n = m == n

unfoldable pub required_parameters : KdfParameters → Bool
required_parameters d = is_set_to d.n scrypt_n && is_set_to d.r scrypt_r && is_set_to d.p scrypt_p

unfoldable pub parse_kdf_parts : List Text → Result (Unit {0})
parse_kdf_parts [] = err unsupported_kdf_error
parse_kdf_parts (name ∷ parts) = do
  ensure (list_eq name private_key_kdf_alg) unsupported_kdf_error
  d ← parse_parameters parts (record { n = none; r = none; p = none })
  ensure (required_parameters d) unsupported_kdf_error

-- What it returns is always the required parameters.
unfoldable pub parse_private_key_kdf_line : Text → Result (Unit {0})
parse_private_key_kdf_line line =
    if starts_with pem_kdf_header line
    then parse_kdf_parts (split 44 (after pem_kdf_header line))
    else err unsupported_kdf_error

unfoldable pub canonical_base64 : Text → Option Bytes → Result Bytes
canonical_base64 value none = err invalid_key_format_error
canonical_base64 value (some decoded) =
    if list_eq (b64encode decoded) value then ok decoded else err invalid_key_format_error

unfoldable pub decode_pem_base64 : Text → Result Bytes
decode_pem_base64 value = canonical_base64 value (b64decode value)
