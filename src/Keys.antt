-- ===== src/Keys.antt =====
-- crypto_core.py: raw key material, its lengths and canonical encodings, and composite keys.
use quantum_encryptor.Prelude.{
  ℕ, zero, suc, ◌+◌, ◌-◌, ◌*◌, ◌/◌, ◌%◌, ◌^◌, Bool, true, false, ◌||◌, not, Option, none, some, [],
  ◌∷◌, ◌++◌, Bytes, Text, length, take, drop, replicate, list_eq, from_le, leb, ◌==◌, if◌then◌else◌,
}
use quantum_encryptor.Config.{
  x25519_key_bytes, mlkem768_public_key_bytes, mlkem768_private_key_bytes,
  mlkem768_pke_private_key_bytes, mlkem768_public_poly_bytes, mlkem_modulus,
  hybrid_public_key_bytes, hybrid_private_key_bytes, hybrid_kem_alg,
}
use quantum_encryptor.Failure.{
  Result, ok, err, ensure, unsupported_algorithm_error, invalid_key_format_error, ◌>>=◌, ◌>>◌,
}
use quantum_encryptor.Algorithms.{is_allowed_key_algorithm, is_hybrid_key_algorithm}
use quantum_encryptor.Backend.{Primitives}

pub data KeyType : Type 0 where
  public private : KeyType

-- `X25519_FIELD_MODULUS`
abbrev pub x25519_field_modulus : ℕ
x25519_field_modulus = 2 ^ 255 - 19

-- `X25519_VALIDATION_PRIVATE_BYTES`
abbrev pub count_from : ℕ → ℕ → Bytes
count_from b zero = []
count_from b (suc n) = b ∷ count_from (b + 1) n

abbrev pub x25519_validation_private_bytes : Bytes
x25519_validation_private_bytes = count_from 0 32

unfoldable pub expected_key_bytes : Text → KeyType → Result ℕ
expected_key_bytes kem_alg key_type =
    if not (is_allowed_key_algorithm (some kem_alg))
    then err unsupported_algorithm_error
    else elim key_type [
      | public ↦ ok (
          if is_hybrid_key_algorithm (some kem_alg)
          then hybrid_public_key_bytes
          else mlkem768_public_key_bytes)
      | private ↦ ok (
          if is_hybrid_key_algorithm (some kem_alg)
          then hybrid_private_key_bytes
          else mlkem768_private_key_bytes)
    ]

unfoldable pub validate_key_length : Bytes → Text → KeyType → Result (Unit {0})
validate_key_length key kem_alg key_type = do
  expected ← expected_key_bytes kem_alg key_type
  ensure (length key == expected) invalid_key_format_error

unfoldable pub mlkem_key_component : Bytes → Text → Bytes
mlkem_key_component key kem_alg =
    if is_hybrid_key_algorithm (some kem_alg) then drop x25519_key_bytes key else key

-- The loop of `_validate_mlkem_public_key`: two coefficients of twelve bits in each three bytes. On
-- one or two bytes left over, Python's unpacking raises `ValueError`; the caller never has them.
unfoldable pub coefficients_canonical : Bytes → Bool
coefficients_canonical [] = true
coefficients_canonical (first ∷ []) = false
coefficients_canonical (first ∷ middle ∷ []) = false
coefficients_canonical (first ∷ middle ∷ last ∷ rest) =
    let canonical = coefficients_canonical rest in
    if leb mlkem_modulus (first + 256 * (middle % 16))
      || leb mlkem_modulus (middle / 16 + 16 * last)
    then false
    else canonical

unfoldable pub validate_mlkem_public_key : Bytes → Result (Unit {0})
validate_mlkem_public_key public_key = do
  ensure (length public_key == mlkem768_public_key_bytes) invalid_key_format_error
  ensure (coefficients_canonical (take mlkem768_public_poly_bytes public_key))
      invalid_key_format_error

-- `public_key[-1]`
unfoldable pub last_byte : Bytes → ℕ
last_byte [] = 0
last_byte (b ∷ []) = b
last_byte (b ∷ c ∷ bs) = last_byte (c ∷ bs)

-- The public key that an ML-KEM private key contains, and the hash of it that follows.
unfoldable pub embedded_public_key : Bytes → Bytes
embedded_public_key key = take mlkem768_public_key_bytes (drop mlkem768_pke_private_key_bytes key)

unfoldable pub embedded_hash : Bytes → Bytes
embedded_hash key = take 32 (drop (mlkem768_pke_private_key_bytes + mlkem768_public_key_bytes) key)

module _ (lib : Primitives) where
  unfoldable pub validate_mlkem_private_key : Bytes → Result (Unit {0})
  validate_mlkem_private_key private_key = do
    ensure (length private_key == mlkem768_private_key_bytes) invalid_key_format_error
    validate_mlkem_public_key (embedded_public_key private_key)
    ensure (list_eq (lib.sha3_256 (embedded_public_key private_key)) (embedded_hash private_key))
        invalid_key_format_error

  unfoldable pub usable_exchange : Option Bytes → Result (Unit {0})
  usable_exchange none = err invalid_key_format_error
  usable_exchange (some shared) =
      ensure (not (list_eq shared (replicate x25519_key_bytes 0))) invalid_key_format_error

  unfoldable pub validate_x25519_public_key : Bytes → Result (Unit {0})
  validate_x25519_public_key public_key = do
    ensure (length public_key == x25519_key_bytes) invalid_key_format_error
    ensure (not (leb 128 (last_byte public_key) || leb x25519_field_modulus (from_le public_key)))
        invalid_key_format_error
    usable_exchange (lib.x25519_exchange x25519_validation_private_bytes public_key)

  unfoldable pub validate_public_key : Bytes → Text → Result (Unit {0})
  validate_public_key key kem_alg = do
    (if is_hybrid_key_algorithm (some kem_alg)
        then validate_x25519_public_key (take x25519_key_bytes key)
        else ok tt)
    validate_mlkem_public_key (mlkem_key_component key kem_alg)

  unfoldable pub validate_key_material : Bytes → Text → KeyType → Result (Unit {0})
  validate_key_material key kem_alg key_type = do
    validate_key_length key kem_alg key_type
    elim key_type [
      | public ↦ validate_public_key key kem_alg
      | private ↦ validate_mlkem_private_key (mlkem_key_component key kem_alg)
    ]

  -- The type that the length of the ML-KEM component tells.
  unfoldable pub component_type : Bytes → Result KeyType
  component_type mlkem_key =
      if length mlkem_key == mlkem768_public_key_bytes
      then ok public
      else if length mlkem_key == mlkem768_private_key_bytes
      then ok private
      else err invalid_key_format_error

  unfoldable pub pack_hybrid_key : Bytes → Bytes → Result Bytes
  pack_hybrid_key x25519_key mlkem_key = do
    ensure (length x25519_key == x25519_key_bytes) invalid_key_format_error
    key_type ← component_type mlkem_key
    validate_key_material (x25519_key ++ mlkem_key) hybrid_kem_alg key_type
    ok (x25519_key ++ mlkem_key)

  unfoldable pub unpack_hybrid_key : Bytes → KeyType → Result (Bytes × Bytes)
  unpack_hybrid_key key key_type = do
    ensure
        (length key == (elim key_type [
          | public ↦ hybrid_public_key_bytes
          | private ↦ hybrid_private_key_bytes
        ]))
        invalid_key_format_error
    validate_key_material key hybrid_kem_alg key_type
    ok (take x25519_key_bytes key, drop x25519_key_bytes key)

  -- The public half of a validated private key.
  unfoldable pub public_half : Bytes → Text → Bytes
  public_half key kem_alg =
      let mlkem_public = embedded_public_key (mlkem_key_component key kem_alg) in
      if is_hybrid_key_algorithm (some kem_alg)
      then lib.x25519_public (take x25519_key_bytes key) ++ mlkem_public
      else mlkem_public

  unfoldable pub get_public_key_from_private : Bytes → Text → Result Bytes
  get_public_key_from_private key kem_alg = do
    validate_key_material key kem_alg private
    validate_key_material (public_half key kem_alg) kem_alg public
    ok (public_half key kem_alg)
