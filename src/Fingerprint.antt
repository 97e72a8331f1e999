-- ===== src/Fingerprint.antt =====
-- crypto_core.py: the fingerprint of a public key, and the check of a fingerprint that was received
-- from elsewhere.
pub mod Canonical
mod Examples
use quantum_encryptor.Prelude.{
  ℕ, zero, suc, ◌+◌, ◌/◌, ◌%◌, Bool, true, false, ◌&&◌, ◌||◌, Option, none, some, List, [], ◌∷◌,
  ◌++◌, Bytes, Text, codes, length, take, drop, list_eq, to_be, ltb, leb, ◌==◌, if◌then◌else◌,
}
use quantum_encryptor.Failure.{
  Failure, Result, ok, err, ensure, value_error, invalid_recipient_fingerprint_error,
  recipient_fingerprint_mismatch_error, ◌>>=◌, ◌>>◌,
}
use quantum_encryptor.Backend.{Primitives}
use quantum_encryptor.Keys.{public, validate_key_material, get_public_key_from_private}

-- `PUBLIC_KEY_FINGERPRINT_DOMAIN`
abbrev pub public_key_fingerprint_domain : Bytes
public_key_fingerprint_domain = codes "QuantumEncryptor-PublicKey-Fingerprint-v1" ++ 0 ∷ []

abbrev pub fingerprint_prefix : Text
fingerprint_prefix = codes "QE1-SHA3-256:"

unfoldable pub hex_digit : ℕ → ℕ
hex_digit n = if ltb n 10 then 48 + n else 87 + n

-- `digest.hex()`
unfoldable pub hex : Bytes → Text
hex [] = []
hex (b ∷ bs) = hex_digit (b / 16) ∷ hex_digit (b % 16) ∷ hex bs

-- `[0-9a-f]`
unfoldable pub is_hex_digit : ℕ → Bool
is_hex_digit c = (leb 48 c && leb c 57) || (leb 97 c && leb c 102)

unfoldable pub all_hex : Text → Bool
all_hex [] = true
all_hex (c ∷ cs) = is_hex_digit c && all_hex cs

-- `text.encode("ascii")`, which raises a `ValueError` for other characters.
unfoldable pub all_ascii : Text → Bool
all_ascii [] = true
all_ascii (c ∷ cs) = ltb c 128 && all_ascii cs

unfoldable pub encode_ascii : Text → Result Bytes
encode_ascii t = if all_ascii t then ok t else err value_error

unfoldable pub fingerprint_input : Bytes → Bytes → Bytes
fingerprint_input algorithm key =
    public_key_fingerprint_domain
    ++ to_be 2 (length algorithm)
    ++ algorithm
    ++ to_be 4 (length key)
    ++ key

module _ (lib : Primitives) where
  unfoldable pub get_public_key_fingerprint : Bytes → Text → Result Text
  get_public_key_fingerprint key kem_alg = do
    validate_key_material lib key kem_alg public
    algorithm ← encode_ascii kem_alg
    ok (fingerprint_prefix ++ hex (lib.sha3_256 (fingerprint_input algorithm key)))

  -- The match with `QE1-SHA3-256:[0-9a-f]{64}`.
  unfoldable pub canonical_fingerprint : Text → Bool
  canonical_fingerprint t =
      list_eq (take 13 t) fingerprint_prefix && length (drop 13 t) == 64 && all_hex (drop 13 t)

  unfoldable pub validate_recipient_fingerprint : Text → Result Text
  validate_recipient_fingerprint t =
      if canonical_fingerprint t then ok t else err invalid_recipient_fingerprint_error

  unfoldable pub compared : Text → Option Text → Result Text
  compared actual none = ok actual
  compared actual (some expected) =
      if list_eq actual expected then ok actual else err recipient_fingerprint_mismatch_error

  unfoldable pub validated : Option Text → Result (Unit {0})
  validated none = ok tt
  validated (some expected) = validate_recipient_fingerprint expected >> ok tt

  unfoldable pub verify_recipient_fingerprint : Bytes → Text → Option Text → Result Text
  verify_recipient_fingerprint key kem_alg expected = do
    validated expected
    actual ← get_public_key_fingerprint key kem_alg
    compared actual expected

  unfoldable pub get_private_key_public_fingerprint : Bytes → Text → Result Text
  get_private_key_public_fingerprint key kem_alg = do
    public_key ← get_public_key_from_private lib key kem_alg
    get_public_key_fingerprint public_key kem_alg
