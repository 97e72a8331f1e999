-- ===== src/Fingerprint/Canonical.antt =====
-- Every fingerprint of the program is one that `validate_recipient_fingerprint` accepts.
use quantum_encryptor.Prelude.{
  ℕ, ◌*◌, ◌/◌, ◌%◌, ◌<◌, ◌≡◌, refl, sym, true, [], ◌∷◌, ◌++◌, arith, Bytes, Text, All, IsByte,
  length, list_eq_refl,
}
use quantum_encryptor.Failure.{ok, ok-injective, bind_ok, then_ok}
use quantum_encryptor.Backend.{Primitives, Sha3Law}
use quantum_encryptor.Keys.{public, validate_key_material}
use quantum_encryptor.Fingerprint.{
  fingerprint_prefix, hex_digit, hex, is_hex_digit, all_hex, encode_ascii, fingerprint_input,
  get_public_key_fingerprint, canonical_fingerprint, validate_recipient_fingerprint,
}

hex_digit_lem : (n : ℕ) → n < 16 → is_hex_digit (hex_digit n) ≡ true
unfolding is_hex_digit hex_digit
hex_digit_lem n h = ground arith

all_hex-hex : (d : Bytes) → All IsByte d → all_hex (hex d) ≡ true
unfolding all_hex hex
all_hex-hex [] h = refl
all_hex-hex (b ∷ bs) (h, hs) =
    rw (hex_digit_lem (b / 16) (omega arith), hex_digit_lem (b % 16) (omega arith))
      (all_hex-hex bs hs)

length-hex : (d : Bytes) → length (hex d) ≡ 2 * length d
unfolding hex
length-hex [] = refl
length-hex (b ∷ bs) = omega (arith, length-hex bs)

module _ (lib : Primitives) where
  digest_accepted :
      (d : Bytes)
      → length d ≡ 32
      → All IsByte d
      → validate_recipient_fingerprint lib (fingerprint_prefix ++ hex d)
        ≡ ok (fingerprint_prefix ++ hex d)
  unfolding validate_recipient_fingerprint canonical_fingerprint
  digest_accepted d size bytes =
      rw (list_eq_refl fingerprint_prefix, length-hex d, size, all_hex-hex d bytes)

  fingerprint_cases :
      (key : Bytes) (kem_alg f : Text)
      → get_public_key_fingerprint lib key kem_alg ≡ ok f
      → (d : Bytes) × (f ≡ fingerprint_prefix ++ hex (lib.sha3_256 d))
  unfolding get_public_key_fingerprint
  fingerprint_cases key kem_alg f e =
      let e1 = then_ok (validate_key_material lib key kem_alg public) _ e in
      let (algorithm, _, e2) = bind_ok (encode_ascii kem_alg) _ e1 in
      (fingerprint_input algorithm key, sym (ok-injective e2))

  -- With a hash of 32 bytes: a fingerprint that `get_public_key_fingerprint` returns is accepted by
  -- `validate_recipient_fingerprint` as it stands.
  pub get_public_key_fingerprint_accepted :
      (law : Sha3Law lib) (key : Bytes) (kem_alg : Text) {f : Text}
      → get_public_key_fingerprint lib key kem_alg ≡ ok f
      → validate_recipient_fingerprint lib f ≡ ok f
  get_public_key_fingerprint_accepted law key kem_alg {f} e =
      let (d, same) = fingerprint_cases key kem_alg f e in
      rw same (digest_accepted (lib.sha3_256 d) (law.digest_size d) (law.digest_bytes d))
