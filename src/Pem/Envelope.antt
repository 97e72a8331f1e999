-- ===== src/Pem/Envelope.antt =====
-- The metadata of an encrypted key file that was written is read again.
use quantum_encryptor.Prelude.{
  ℕ, ◌+◌, ◌*◌, ◌≤◌, ◌≡◌, refl, ap, ◌∙◌, true, false, Option, none, some, List, [], ◌∷◌, ◌++◌, arith,
  Bytes, Text, All, All-append, IsByte, length, length-append, codes, ==_refl, list_eq,
}
use quantum_encryptor.Prelude.Strings.{
  strip, rstrip, lstrip, is_space, starts_with, digits, decimal, number_from, canonical_number,
  split, cut, cons_line,
}
use quantum_encryptor.Prelude.Base64.{b64encode, b64encode-IsBase64}
use quantum_encryptor.Config.{
  max_raw_key_bytes, aes_tag_bytes, pem_private_key_format_header, pem_dek_info_header,
  pem_proc_type_header, scrypt_n, scrypt_r, scrypt_p, scrypt_salt_bytes, aes_nonce_bytes,
  private_key_kdf_alg, private_key_format_version,
}
use quantum_encryptor.Failure.{ok}
use quantum_encryptor.Algorithms.{is_allowed_key_algorithm}
use quantum_encryptor.Backend.{Primitives}
use quantum_encryptor.Keys.{private, expected_key_bytes}
use quantum_encryptor.PrivateKey.{contains}
use quantum_encryptor.Pem.{
  Lines, no_lines, once, present, is_private, read_line, read_lines, declared_algorithm,
  required_line, dek_parts, read_envelope, private_envelope_of, has_envelope, validate_payload,
  parse_lines,
}
use quantum_encryptor.Pem.Metadata.{
  ParsedPrivateKeyEnvelope, supported_format, parse_private_key_format_line, set_once,
  add_parameter, parse_parameter, parse_parameters, is_set_to, required_parameters, parse_kdf_parts,
  parse_private_key_kdf_line,
}
use quantum_encryptor.Pem.Files.{key_lines, current_private_key_kdf_line}
use quantum_encryptor.Pem.Layout.{IsClean, all_clean_lem, base64-IsClean}
use quantum_encryptor.Pem.Taking.{
  length-b64encode, decode_pem_base64-b64encode, cut-base64, strip-dek_line,
}
use quantum_encryptor.Pem.Parsed.{
  algorithm_lines, read_algorithm_lines, key_lines-not_empty, payload_of, not_above,
}

-- The lines in front of the algorithm and of the key.
abbrev pub format_line : Text
format_line = pem_private_key_format_header ++ codes "3"

abbrev pub kdf_line : Text
kdf_line = codes "KDF: scrypt,n=32768,r=8,p=1"

abbrev pub dek_line : Bytes → Bytes → Text
dek_line salt nonce = pem_dek_info_header ++ (b64encode salt ++ 44 ∷ b64encode nonce)

pub format_line_lem :
    pem_private_key_format_header ++ decimal private_key_format_version ≡ format_line
unfolding decimal digits
format_line_lem = refl

pub kdf_line_lem : current_private_key_kdf_line ≡ kdf_line
unfolding current_private_key_kdf_line decimal digits
kdf_line_lem = refl

abbrev pub metadata_lines : Bytes → Bytes → List Text → List Text
metadata_lines salt nonce rest =
    format_line ∷ pem_proc_type_header ∷ dek_line salt nonce ∷ kdf_line ∷ rest

abbrev with_format : Lines
with_format = record {
  kem_alg = none;
  format_line = some format_line;
  proc_type_seen = false;
  dek_line = none;
  kdf_line = none;
  payload_lines = [];
}

abbrev pub with_metadata : Bytes → Bytes → Lines
with_metadata salt nonce = record {
  kem_alg = none;
  format_line = some format_line;
  proc_type_seen = true;
  dek_line = some (dek_line salt nonce);
  kdf_line = some kdf_line;
  payload_lines = [];
}

format_read :
    (l : Lines)
    → l.format_line ≡ none
    → read_line private (strip format_line) l ≡ ok (record l { format_line = some format_line })
unfolding read_line strip rstrip lstrip is_space starts_with list_eq once present is_private
format_read l fresh = rw fresh refl

proc_type_read :
    (l : Lines)
    → l.proc_type_seen ≡ false
    → read_line private (strip pem_proc_type_header) l ≡ ok (record l { proc_type_seen = true })
unfolding read_line strip rstrip lstrip is_space starts_with list_eq once present is_private
proc_type_read l fresh = rw fresh refl

kdf_read :
    (l : Lines)
    → l.kdf_line ≡ none
    → read_line private (strip kdf_line) l ≡ ok (record l { kdf_line = some kdf_line })
unfolding read_line strip rstrip lstrip is_space starts_with list_eq once present is_private
kdf_read l fresh = rw fresh refl

dek_read :
    (salt nonce : Bytes) (l : Lines)
    → All IsByte nonce
    → l.dek_line ≡ none
    → read_line private (strip (dek_line salt nonce)) l
      ≡ ok (record l { dek_line = some (dek_line salt nonce) })
unfolding read_line starts_with list_eq once present is_private
dek_read salt nonce l bytes fresh =
    ap (λ x. read_line private x l)
      (strip-dek_line (b64encode salt) (b64encode nonce) (b64encode-IsBase64 nonce bytes))
    ∙ rw fresh refl

pub read_metadata_lines :
    (salt nonce : Bytes) (rest : List Text)
    → All IsByte nonce
    → read_lines private (metadata_lines salt nonce rest) no_lines
      ≡ read_lines private rest (with_metadata salt nonce)
unfolding read_lines no_lines
read_metadata_lines salt nonce rest bytes = rw (format_read no_lines refl) (
    rw (proc_type_read with_format refl) (
      rw (dek_read salt nonce (record with_format { proc_type_seen = true }) bytes refl)
        (rw (kdf_read (record (with_metadata salt nonce) { kdf_line = none }) refl) refl)))

format_parsed : parse_private_key_format_line format_line ≡ ok 3
unfolding parse_private_key_format_line supported_format starts_with list_eq canonical_number
    number_from decimal digits strip rstrip lstrip is_space contains
format_parsed = refl

kdf_parsed : parse_private_key_kdf_line kdf_line ≡ ok tt
unfolding parse_private_key_kdf_line parse_kdf_parts parse_parameters parse_parameter add_parameter
    set_once is_set_to required_parameters starts_with list_eq canonical_number number_from decimal
    digits split cut cons_line
kdf_parsed = refl

abbrev pub envelope : Bytes → Bytes → ParsedPrivateKeyEnvelope
envelope salt nonce = record {
  format_version = some 3;
  kdf_name = private_key_kdf_alg;
  kdf_n = scrypt_n;
  kdf_r = scrypt_r;
  kdf_p = scrypt_p;
  salt = salt;
  nonce = nonce;
}

pub read_envelope_lem :
    (salt nonce : Bytes) (a : Option Text) (ts : List Text)
    → All IsByte salt
    → All IsByte nonce
    → length salt ≡ scrypt_salt_bytes
    → length nonce ≡ aes_nonce_bytes
    → read_envelope (record (with_metadata salt nonce) { kem_alg = a; payload_lines = ts })
      ≡ ok (envelope salt nonce)
unfolding read_envelope required_line dek_parts
read_envelope_lem salt nonce a ts bs bn ls ln =
    rw
      (
        format_parsed,
        cut-base64 (b64encode salt) (b64encode nonce) (b64encode-IsBase64 salt bs),
        decode_pem_base64-b64encode salt bs,
        decode_pem_base64-b64encode nonce bn,
        ls,
        ln,
        kdf_parsed,
      )
      refl

pub metadata_lines-IsClean :
    (salt nonce : Bytes) (rest : List Text)
    → All IsByte salt
    → All IsByte nonce
    → All (All IsClean) rest
    → All (All IsClean) (metadata_lines salt nonce rest)
metadata_lines-IsClean salt nonce rest bs bn h = (
  all_clean_lem format_line refl,
  (
    all_clean_lem pem_proc_type_header refl,
    (
      All-append IsClean pem_dek_info_header (b64encode salt ++ 44 ∷ b64encode nonce)
          (all_clean_lem pem_dek_info_header refl)
          (All-append IsClean (b64encode salt) (44 ∷ b64encode nonce)
            (base64-IsClean (b64encode salt) (b64encode-IsBase64 salt bs))
            (refl, base64-IsClean (b64encode nonce) (b64encode-IsBase64 nonce bn))),
      (all_clean_lem kdf_line refl, h),
    ),
  ),
)

pub length-dek_line :
    (salt nonce : Bytes) → length (dek_line salt nonce) ≤ 2 * length salt + 2 * length nonce + 30
length-dek_line salt nonce = omega (
  arith,
  length-append pem_dek_info_header (b64encode salt ++ 44 ∷ b64encode nonce),
  length-append (b64encode salt) (44 ∷ b64encode nonce),
  length-b64encode salt,
  length-b64encode nonce,
)

module _ (lib : Primitives) where
  -- An encrypted key that was written is parsed.
  pub parse_private_lines :
      (kem_alg : Text) (key salt nonce : Bytes) (n : ℕ)
      → is_allowed_key_algorithm (some kem_alg) ≡ true
      → expected_key_bytes kem_alg private ≡ ok n
      → length key ≡ n + aes_tag_bytes
      → n ≤ 2432
      → All IsByte key
      → All IsByte salt
      → All IsByte nonce
      → length salt ≡ scrypt_salt_bytes
      → length nonce ≡ aes_nonce_bytes
      → parse_lines lib private (metadata_lines salt nonce (algorithm_lines kem_alg key))
        ≡ ok (record {
          kem_alg = kem_alg;
          key_type = private;
          is_encrypted = true;
          payload = key;
          private_envelope = some (envelope salt nonce);
        })
  unfolding parse_lines declared_algorithm private_envelope_of has_envelope validate_payload
  parse_private_lines kem_alg key salt nonce n allowed expected size short bytes bs bn ls ln =
      rw
        (
          read_metadata_lines salt nonce (algorithm_lines kem_alg key) bn,
          read_algorithm_lines lib private kem_alg key (with_metadata salt nonce) allowed bytes
              refl,
          allowed,
          key_lines-not_empty lib key (omega arith),
          read_envelope_lem salt nonce (some kem_alg) (key_lines key) bs bn ls ln,
          payload_of lib key bytes,
          not_above max_raw_key_bytes (length key) (omega arith),
          expected,
          size,
          ==_refl (n + aes_tag_bytes),
        )
        refl
