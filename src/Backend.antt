-- ===== src/Backend.antt =====
-- The libraries under crypto_core.py, which are not part of the program: the hashes, X25519 and AEAD
-- of `cryptography`, and liboqs. The program is a client of these records. What is documented of
-- them, as far as a theorem relies on it, is one of the laws below.
use quantum_encryptor.Prelude.{
  ◌+◌, All, IsByte, ℕ, ◌≡◌, Option, some, ◌++◌, List, [], Bytes, Text, length,
}
use quantum_encryptor.Failure.{Result}

-- `exchange` is none where the library raises `ValueError`.
pub record Primitives : Type 0 where
  pub sha3_256 : Bytes → Bytes
  pub hkdf_sha256 : ℕ → Bytes → Bytes → Bytes → Bytes
  pub x25519_public : Bytes → Bytes
  pub x25519_exchange : Bytes → Bytes → Option Bytes

-- A loaded `oqs` module. `enabled` is none if the module has no such function; the lengths are
-- entries of `details`; encapsulation and key generation take their randomness as an argument.
pub record Oqs : Type 0 where
  pub enabled : Option (List Text)
  pub length_public_key : Text → Option ℕ
  pub length_secret_key : Text → Option ℕ
  pub length_ciphertext : Text → Option ℕ
  pub encap_secret : Text → Bytes → Bytes → Bytes × Bytes
  pub decap_secret : Text → Bytes → Bytes → Result Bytes
  pub generate_keypair : Text → Bytes → Bytes × Bytes

-- An AES-GCM context of `cryptography`; key, nonce and associated data in this order.
-- `finalize` gives the last bytes and the tag; `finalize_with_tag` is none for `InvalidTag`.
pub record Aead (C : Type 0) : Type 0 where
  pub encryptor : Bytes → Bytes → Bytes → C
  pub decryptor : Bytes → Bytes → Bytes → C
  pub update : C → Bytes → Bytes × C
  pub finalize : C → Bytes × Bytes
  pub finalize_with_tag : C → Bytes → Option Bytes

pub record Sha3Law (p : Primitives) : Type 0 where
  pub digest_size : (d : Bytes) → length (p.sha3_256 d) ≡ 32
  pub digest_bytes : (d : Bytes) → All IsByte (p.sha3_256 d)

-- A context may be fed in pieces: what comes out, and where it ends, is that of the whole.
pub record StreamingLaw {C : Type 0} (a : Aead C) : Type 0 where
  pub nothing : (c : C) → a.update c [] ≡ ([], c)
  pub pieces :
      (c : C) (d e : Bytes)
      → a.update c (d ++ e)
        ≡ ((a.update c d).0 ++ (a.update (a.update c d).1 e).0, (a.update (a.update c d).1 e).1)

-- Decryption undoes encryption under one key, nonce and associated data, and accepts its tag.
pub record DecryptionLaw {C : Type 0} (a : Aead C) : Type 0 where
  pub tag_size : (c : C) → length (a.finalize c).1 ≡ 16
  pub opens :
      (key nonce aad plain : Bytes)
      → (rest : Bytes) × (let sealed = a.update (a.encryptor key nonce aad) plain in
          let whole = sealed.0 ++ (a.finalize sealed.1).0 in
          let opened = a.update (a.decryptor key nonce aad) whole in
          (a.finalize_with_tag opened.1 (a.finalize sealed.1).1 ≡ some rest)
          × (opened.0 ++ rest ≡ plain))

-- `AESGCM`: key, nonce, associated data, and the data; `decrypt` is none for `InvalidTag`.
pub record AesGcm : Type 0 where
  pub encrypt : Bytes → Bytes → Bytes → Bytes → Bytes
  pub decrypt : Bytes → Bytes → Bytes → Bytes → Option Bytes

-- `decrypt` opens what `encrypt` made under the same key, nonce and associated data, which holds a
-- tag of 16 bytes too.
pub record GcmLaw (a : AesGcm) : Type 0 where
  pub opens :
      (key nonce aad plain : Bytes)
      → a.decrypt key nonce aad (a.encrypt key nonce aad plain) ≡ some plain
  pub size :
      (key nonce aad plain : Bytes) → length (a.encrypt key nonce aad plain) ≡ length plain + 16
  pub bytes :
      (key nonce aad plain : Bytes) → All IsByte plain → All IsByte (a.encrypt key nonce aad plain)
