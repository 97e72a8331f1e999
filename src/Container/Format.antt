-- ===== src/Container/Format.antt =====
-- The layout of a container header, stated apart from the code that reads it.
use quantum_encryptor.Prelude.{
  ℕ, ◌<◌, ◌≤◌, ◌≡◌, true, ◌++◌, Bytes, Text, length, to_be, ◌==◌, if◌then◌else◌,
}
use quantum_encryptor.Config.{
  magic_bytes, format_version, max_kem_ciphertext_bytes, x25519_key_bytes, aes_nonce_bytes,
}
use quantum_encryptor.Container.{EncryptedFileHeader, version_supported, suite_allowed}

abbrev pub version_bytes : ℕ → Bytes
version_bytes version = magic_bytes ++ to_be 2 version

-- A suite that is allowed is ASCII, so its bytes are its code points.
abbrev pub suite_bytes : Text → Bytes
suite_bytes suite = to_be 2 (length suite) ++ suite

abbrev pub ciphertext_bytes : Bytes → Bytes
ciphertext_bytes ciphertext = to_be 4 (length ciphertext) ++ ciphertext

-- The fields behind one another, each length before the bytes that it counts.
abbrev pub layout : EncryptedFileHeader → Bytes
layout h =
    version_bytes h.version
    ++ (suite_bytes h.kem_alg
        ++ (ciphertext_bytes h.ciphertext_kem ++ (h.x25519_ephemeral_public ++ h.nonce)))

abbrev pub x25519_length : ℕ → ℕ
x25519_length version = if version == format_version then x25519_key_bytes else 0

-- The headers that the format allows.
pub record IsLegal (h : EncryptedFileHeader) : Type 0 where
  pub version : version_supported h.version ≡ true
  pub suite : suite_allowed h.version h.kem_alg ≡ true
  pub ciphertext_some : 0 < length h.ciphertext_kem
  pub ciphertext_fits : length h.ciphertext_kem ≤ max_kem_ciphertext_bytes
  pub x25519 : length h.x25519_ephemeral_public ≡ x25519_length h.version
  pub nonce : length h.nonce ≡ aes_nonce_bytes
  pub aad : h.header_aad ≡ layout h
