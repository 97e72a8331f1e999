-- ===== src/Kem.antt =====
-- crypto_core.py: which KEM of the backend stands for an identifier, decapsulation, and the
-- derivation of the content key.
use quantum_encryptor.Prelude.{
  Bool, true, false, ◌&&◌, not, Option, none, some, List, [], ◌∷◌, ◌++◌, Bytes, Text, length,
  replicate, list_eq, one_of, is_empty, leb, ◌==◌, if◌then◌else◌,
}
use quantum_encryptor.Prelude.Utf8.{encode_utf8}
use quantum_encryptor.Config.{
  kem_alg, legacy_kem_algs, legacy_hybrid_kem_alg, hybrid_kem_alg, x25519_key_bytes, aes_key_bytes,
  hkdf_salt, hkdf_info_aes, hybrid_kdf_domain,
}
use quantum_encryptor.Failure.{
  Result, ok, err, ensure, unsupported_algorithm_error, crypto_dependency_error, value_error, ◌>>=◌,
  ◌>>◌,
}
use quantum_encryptor.Algorithms.{is_allowed_kem_algorithm, is_hybrid_key_algorithm}
use quantum_encryptor.Backend.{Primitives, Oqs}

-- The backend that `_load_oqs_module` found, if any.
unfoldable pub require_oqs : Option Oqs → Result Oqs
require_oqs none = err crypto_dependency_error
require_oqs (some oqs) = ok oqs

unfoldable pub listed : Option (List Text) → Result (List Text)
listed none = err crypto_dependency_error
listed (some names) = ok names

unfoldable pub enabled_kem_mechanisms : Option Oqs → Result (List Text)
enabled_kem_mechanisms backend = do oqs ← require_oqs backend; listed oqs.enabled

-- `kem_alg or cfg.KEM_ALG`
abbrev pub requested_kem : Option Text → Text
requested_kem none = kem_alg
requested_kem (some name) = if is_empty name then kem_alg else name

unfoldable pub resolve_kem_algorithm : Option Oqs → Option Text → Result Text
resolve_kem_algorithm backend name = do
  ensure (is_allowed_kem_algorithm (some (requested_kem name))) unsupported_algorithm_error
  enabled ← enabled_kem_mechanisms backend
  (if one_of (requested_kem name) enabled
      then ok (requested_kem name)
      else err crypto_dependency_error)

-- `tuple(candidate for candidate in candidates if candidate in enabled)`
unfoldable pub those_enabled : List Text → List Text → List Text
those_enabled enabled [] = []
those_enabled enabled (c ∷ cs) =
    let rest = those_enabled enabled cs in if one_of c enabled then c ∷ rest else rest

unfoldable pub available_decryption_kem_algorithms : Option Oqs → Result (List Text)
available_decryption_kem_algorithms backend = do
  enabled ← enabled_kem_mechanisms backend
  ok (those_enabled enabled (kem_alg ∷ legacy_kem_algs))

unfoldable pub some_available : List Text → Result (List Text)
some_available [] = err crypto_dependency_error
some_available (c ∷ cs) = ok (c ∷ cs)

unfoldable pub resolve_decryption_kem_algorithms : Option Oqs → Text → Result (List Text)
resolve_decryption_kem_algorithms backend suite =
    if list_eq suite hybrid_kem_alg
    then (resolve_kem_algorithm backend (some kem_alg) >>= λ k. ok (k ∷ []))
    else if is_allowed_kem_algorithm (some suite)
    then (resolve_kem_algorithm backend (some suite) >>= λ k. ok (k ∷ []))
    else if not (list_eq suite legacy_hybrid_kem_alg)
    then err unsupported_algorithm_error
    else (available_decryption_kem_algorithms backend >>= some_available)

unfoldable pub is_kem_available : Option Oqs → Option Text → Bool
is_kem_available backend name = elim (resolve_kem_algorithm backend name) [
  | ok k ↦ true
  | err e ↦ false
]

-- `suite.encode("utf-8")`, which raises `UnicodeEncodeError`, a `ValueError`, for a lone surrogate.
unfoldable pub encoded : Text → Result Bytes
encoded t = elim (encode_utf8 t) [ none ↦ err value_error | some bs ↦ ok bs ]

module _ (lib : Primitives) where
  unfoldable pub derive_symmetric_key_hkdf : Bytes → Bytes
  derive_symmetric_key_hkdf shared_secret =
      lib.hkdf_sha256 aes_key_bytes hkdf_salt hkdf_info_aes shared_secret

  -- What `derive_hybrid_symmetric_key` hashes, the suite in UTF-8.
  unfoldable pub hybrid_key_input : Bytes → Bytes → Bytes → Bytes → Bytes → Bytes
  hybrid_key_input mlkem_secret x_secret ephemeral recipient suite =
      mlkem_secret
      ++ x_secret
      ++ ephemeral
      ++ recipient
      ++ suite
      ++ hybrid_kdf_domain
      ++ length hybrid_kdf_domain ∷ []

  unfoldable pub derive_hybrid_symmetric_key : Bytes → Bytes → Bytes → Bytes → Text → Result Bytes
  derive_hybrid_symmetric_key mlkem_secret x_secret ephemeral recipient suite = do
    ensure (length mlkem_secret == aes_key_bytes) value_error
    ensure
        (length x_secret == x25519_key_bytes
          && not (list_eq x_secret (replicate x25519_key_bytes 0)))
        value_error
    ensure (length ephemeral == x25519_key_bytes) value_error
    ensure (length recipient == x25519_key_bytes) value_error
    ensure (is_hybrid_key_algorithm (some suite)) unsupported_algorithm_error
    ensure (leb (length hybrid_kdf_domain) 255) value_error
    name ← encoded suite
    ok (lib.sha3_256 (hybrid_key_input mlkem_secret x_secret ephemeral recipient name))
