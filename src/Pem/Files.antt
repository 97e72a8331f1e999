-- ===== src/Pem/Files.antt =====
-- crypto_core.py: writing and loading key files, recovery of a public key and a change of password.
-- `logger` calls are left out. What is drawn by `os.urandom` is an argument.
use quantum_encryptor.Prelude.{
  ℕ, zero, suc, Bool, true, false, ◌&&◌, not, Option, none, some, List, [], ◌∷◌, ◌++◌, Bytes, Text,
  length, take, drop, is_empty, list_eq, codes, and_then, if◌then◌else◌,
}
use quantum_encryptor.Prelude.Strings.{decimal}
use quantum_encryptor.Prelude.Base64.{b64encode}
use quantum_encryptor.Config.{
  pem_public_header, pem_public_footer, pem_private_header, pem_private_footer,
  pem_private_key_format_header, pem_algorithm_header, pem_kdf_header, pem_proc_type_header,
  pem_dek_info_header, private_key_kdf_alg, scrypt_n, scrypt_r, scrypt_p,
}
use quantum_encryptor.Failure.{
  Result, ok, err, ensure, invalid_key_format_error, unencrypted_private_key_error,
  password_required_error, authentication_failed_error, weak_password_error, crypto_core_error,
  ◌>>=◌, ◌>>◌,
}
use quantum_encryptor.Algorithms.{is_allowed_key_algorithm}
use quantum_encryptor.Backend.{Primitives, AesGcm}
use quantum_encryptor.Keys.{
  KeyType, public, private, validate_key_material, get_public_key_from_private,
}
use quantum_encryptor.Fingerprint.{get_public_key_fingerprint, get_private_key_public_fingerprint}
use quantum_encryptor.PrivateKey.{
  PrivateKeyPemMetadata, EncryptedKeyData, encrypt_private_key, decrypt_private_key,
  validate_private_key_password,
}
use quantum_encryptor.Pem.{ParsedKeyPem, is_private, parse_key_pem_strict}
use quantum_encryptor.Pem.Metadata.{ParsedPrivateKeyEnvelope}

-- `[text[i : i + 64] for i in range(0, len(text), 64)]`, with a round for each character.
unfoldable pub chunks : ℕ → Text → List Text
chunks zero t = []
chunks (suc fuel) t =
    let rest = chunks fuel (drop 64 t) in if is_empty t then [] else take 64 t ∷ rest

-- `"\n".join(lines) + "\n"`, for at least one line.
unfoldable pub text_of : List Text → Text
text_of [] = []
text_of (l ∷ ls) = l ++ 10 ∷ text_of ls

unfoldable pub current_private_key_kdf_line : Text
current_private_key_kdf_line =
    pem_kdf_header
    ++ private_key_kdf_alg
    ++ codes ",n="
    ++ decimal scrypt_n
    ++ codes ",r="
    ++ decimal scrypt_r
    ++ codes ",p="
    ++ decimal scrypt_p

unfoldable pub key_lines : Bytes → List Text
key_lines key = let text = b64encode key in chunks (length text) text

unfoldable pub public_pem : Bytes → Text → Text
public_pem key kem_alg = text_of (
    pem_public_header
    ∷ (pem_algorithm_header ++ kem_alg)
    ∷ (key_lines key ++ pem_public_footer ∷ []))

unfoldable pub private_pem : PrivateKeyPemMetadata → Bytes → Text
private_pem m encrypted_key = text_of (
    pem_private_header
    ∷ (pem_private_key_format_header ++ decimal m.format_version)
    ∷ pem_proc_type_header
    ∷ (pem_dek_info_header ++ (b64encode m.salt ++ 44 ∷ b64encode m.nonce))
    ∷ current_private_key_kdf_line
    ∷ (pem_algorithm_header ++ m.kem_alg)
    ∷ (key_lines encrypted_key ++ pem_private_footer ∷ []))

-- A dictionary of `load_key_pem`, for `decrypt_private_key`.
unfoldable pub envelope_data : ParsedPrivateKeyEnvelope → Text → Bytes → EncryptedKeyData
envelope_data e kem_alg payload = record {
  encrypted_key = some payload;
  format_version = e.format_version;
  kem_alg = some kem_alg;
  kdf = some e.kdf_name;
  kdf_n = some e.kdf_n;
  kdf_r = some e.kdf_r;
  kdf_p = some e.kdf_p;
  salt = some e.salt;
  nonce = some e.nonce;
}

-- A password that is neither missing nor empty.
unfoldable pub given : Option Text → Option Text
given none = none
given (some password) = if is_empty password then none else some password

-- What `inspect_key_pem_strict` reports.
pub data KeyInfo : Type 0 where
  public_info : Text → Text → KeyInfo
  private_info : Text → Option ℕ → Text → KeyInfo

abbrev pub is_private_info : KeyInfo → Bool
is_private_info (public_info kem fingerprint) = false
is_private_info (private_info kem version kdf) = true

-- What `load_key_pem` returns.
pub record LoadedKey : Type 0 where
  pub raw : Bytes
  pub kem_alg : Text
  pub key_type : KeyType

module _ (folded : Text → Text) (scrypt : Bytes → Bytes → Bytes) (aes : AesGcm)
    (lib : Primitives) where
  unfoldable pub encrypted_pem : Option (PrivateKeyPemMetadata × Bytes) → Option Text
  encrypted_pem none = none
  encrypted_pem (some (m, key)) = if is_empty key then none else some (private_pem m key)

  unfoldable pub valid_material : Bytes → Text → KeyType → Bool
  valid_material key kem_alg key_type = elim (validate_key_material lib key kem_alg key_type) [
    | err e ↦ false
    | ok u ↦ true
  ]

  -- A key type that is neither public nor private is refused in Python before all else.
  unfoldable pub save_key_pem : Bytes → Bytes → Bytes → Text → KeyType → Option Text → Option Text
  save_key_pem salt nonce key kem_alg key_type password =
      if not (is_allowed_key_algorithm (some kem_alg) && valid_material key kem_alg key_type)
      then none
      else elim key_type [
        | public ↦ some (public_pem key kem_alg)
        | private ↦
            and_then (given password)
              (λ p. encrypted_pem (encrypt_private_key folded scrypt aes salt nonce key p kem_alg))
      ]

  unfoldable pub validated_private : Bytes → Text → Option LoadedKey
  validated_private raw kem_alg =
      if valid_material raw kem_alg private
      then some (record { raw = raw; kem_alg = kem_alg; key_type = private })
      else none

  unfoldable pub load_parsed : ParsedKeyPem → Option Text → Option LoadedKey
  load_parsed parsed password = elim parsed.key_type [
    | public ↦ some (record { raw = parsed.payload; kem_alg = parsed.kem_alg; key_type = public })
    | private ↦
        if not parsed.is_encrypted
        then none
        else and_then (given password) (λ p. and_then parsed.private_envelope (λ e.
          and_then
            (decrypt_private_key folded scrypt aes (envelope_data e parsed.kem_alg parsed.payload)
              p)
            (λ raw. validated_private raw parsed.kem_alg)))
  ]

  -- None where Python returns three times None.
  unfoldable pub load_key_pem : Text → Option Text → Option LoadedKey
  load_key_pem pem_content password = elim (parse_key_pem_strict lib pem_content) [
    | err e ↦ none
    | ok parsed ↦ load_parsed parsed password
  ]

  unfoldable pub get_key_info_pem : Text → Option (Text × (KeyType × Bool))
  get_key_info_pem pem_content = elim (parse_key_pem_strict lib pem_content) [
    | err e ↦ none
    | ok parsed ↦ some (parsed.kem_alg, (parsed.key_type, parsed.is_encrypted))
  ]

  unfoldable pub private_info_of : Text → Option ParsedPrivateKeyEnvelope → Result KeyInfo
  private_info_of kem_alg none = err invalid_key_format_error
  private_info_of kem_alg (some e) = ok (private_info kem_alg e.format_version e.kdf_name)

  unfoldable pub inspect_parsed : ParsedKeyPem → Result KeyInfo
  inspect_parsed parsed = elim parsed.key_type [
    | public ↦
        (get_public_key_fingerprint lib parsed.payload parsed.kem_alg >>= λ f.
        ok (public_info parsed.kem_alg f))
    | private ↦
        if not parsed.is_encrypted
        then err unencrypted_private_key_error
        else private_info_of parsed.kem_alg parsed.private_envelope
  ]

  unfoldable pub inspect_key_pem_strict : Text → Result KeyInfo
  inspect_key_pem_strict pem_content = do
    parsed ← parse_key_pem_strict lib pem_content
    inspect_parsed parsed

  -- `raw is None or kem_alg is None or key_type != "private"`
  unfoldable pub unlocked : Option LoadedKey → Result LoadedKey
  unlocked none = err authentication_failed_error
  unlocked (some k) = if is_private k.key_type then ok k else err authentication_failed_error

  unfoldable pub formatted : Option Text → Result Text
  formatted none = err crypto_core_error
  formatted (some pem) = ok pem

  -- The PEM text, the algorithm and the fingerprint.
  unfoldable pub recover_public_key_pem : Text → Text → Result (Text × (Text × Text))
  recover_public_key_pem pem_content password = do
    info ← inspect_key_pem_strict pem_content
    ensure (is_private_info info) invalid_key_format_error
    ensure (not (is_empty password)) password_required_error
    key ← unlocked (load_key_pem pem_content (some password))
    public_key ← get_public_key_from_private lib key.raw key.kem_alg
    fingerprint ← get_public_key_fingerprint lib public_key key.kem_alg
    pem ← formatted (save_key_pem [] [] public_key key.kem_alg public none)
    ok (pem, (key.kem_alg, fingerprint))

  unfoldable pub rewrap_private_key_pem :
      Bytes → Bytes → Text → Text → Text → Result (Text × (Text × Text))
  rewrap_private_key_pem salt nonce pem_content current_password new_password = do
    info ← inspect_key_pem_strict pem_content
    ensure (is_private_info info) invalid_key_format_error
    ensure (not (is_empty current_password)) password_required_error
    validate_private_key_password folded scrypt aes (some new_password)
    ensure (not (list_eq new_password current_password)) weak_password_error
    key ← unlocked (load_key_pem pem_content (some current_password))
    fingerprint ← get_private_key_public_fingerprint lib key.raw key.kem_alg
    pem ← formatted (save_key_pem salt nonce key.raw key.kem_alg private (some new_password))
    ok (pem, (key.kem_alg, fingerprint))
