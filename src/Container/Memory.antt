-- ===== src/Container/Memory.antt =====
-- `_parse_encrypted_file_parts` on a container in memory: `io.BytesIO` is a steady and faithful
-- source, so the parser accepts exactly the layouts of the format with a payload in bounds.
use mathlib.Core.Path.{ap₂}
use quantum_encryptor.Prelude.{
  ℕ, ◌+◌, ◌≤◌, ◌<◌, ◌≡◌, refl, sym, ap, ◌∙◌, [], ◌∷◌, ◌++◌, arith, Bytes, All, IsByte, length, take,
  drop, length-append, length-take, take-append-drop, length-to_be, ltb, false, ◌↔◌, Option, some,
}
use quantum_encryptor.Config.{aes_tag_bytes, max_file_bytes, max_encrypted_file_bytes}
use quantum_encryptor.Failure.{Result, ok, err}
use quantum_encryptor.Exec.{outcome_value, outcome_state}
use quantum_encryptor.Container.Source.{IsFaithful, IsSteady}
use quantum_encryptor.Container.Format.{IsLegal, layout, x25519_length}
use quantum_encryptor.Container.Suites.{suite_allowed-IsSuite}
use quantum_encryptor.Container.Accepts.{read_header_complete}
use quantum_encryptor.Container.Sound.{read_header-IsLegal}
use quantum_encryptor.Container.{
  EncryptedFileHeader, EncryptedFileParts, metadata, bytes_io, read_encrypted_file_header,
  payload_parts, parse_encrypted_file_parts,
}

abbrev whole : Bytes → Bytes
whole s = s

abbrev Always : Bytes → Type 0
Always s = Unit {0}

faithful_take :
    (n : ℕ) (s : Bytes) {d t : Bytes}
    → ◌≡◌ {A = Option Bytes} (some (take n s)) (some d)
    → drop n s ≡ t
    → s ≡ d ++ t
faithful_take n s {d} p q =
    let front : take n s ≡ d = cc in
    sym (take-append-drop n s) ∙ ap₂ (λ (a b : Bytes). a ++ b) front q

pub bytes_io-IsFaithful : IsFaithful bytes_io whole
unfolding bytes_io
bytes_io-IsFaithful = record { at = λ n s e. faithful_take n s (outcome_value e) (outcome_state e) }

pub bytes_io-IsSteady : IsSteady bytes_io whole Always
unfolding bytes_io
bytes_io-IsSteady = record {
  at = λ n s h good. (
    take n s,
    drop n s,
    refl,
    tt,
    sym (take-append-drop n s),
    omega (arith, length-take n s),
    λ k. omega (arith, length-take n s),
  );
}

-- The parts of a container with the header `h` and the payload `p`.
abbrev pub parts_of : EncryptedFileHeader → Bytes → EncryptedFileParts
parts_of h p = record {
  metadata = metadata h (length p);
  header_aad = h.header_aad;
  ciphertext_kem = h.ciphertext_kem;
  x25519_ephemeral_public = h.x25519_ephemeral_public;
  nonce = h.nonce;
  encrypted_data_aes = p;
}

-- The payload of a container that is accepted.
pub record IsPayload (p : Bytes) : Type 0 where
  pub tagged : aes_tag_bytes ≤ length p
  pub fits : length p ≤ max_file_bytes + aes_tag_bytes

payload_parts_ok :
    (h : EncryptedFileHeader) (p : Bytes)
    → IsPayload p
    → payload_parts (ok h, p) ≡ ok (parts_of h p)
unfolding payload_parts
payload_parts_ok h p v = ground arith

payload_parts_inv :
    (r : Result EncryptedFileHeader) (p : Bytes) {parts : EncryptedFileParts}
    → payload_parts (r, p) ≡ ok parts
    → (h : EncryptedFileHeader) × (r ≡ ok h) × IsPayload p × (parts ≡ parts_of h p)
unfolding payload_parts
payload_parts_inv (err e) p q = cc
payload_parts_inv (ok h) p q = (h, refl, ground arith, ground arith)

length-layout :
    (h : EncryptedFileHeader)
    → length (layout h)
      ≡ 14
        + length h.kem_alg
        + length h.ciphertext_kem
        + length h.x25519_ephemeral_public
        + length h.nonce
length-layout h = simp (length-append, length-to_be) (omega arith)

x25519_length-le : (v : ℕ) → x25519_length v ≤ 32
x25519_length-le v = ground arith

layout_small :
    (h : EncryptedFileHeader) (p : Bytes)
    → IsLegal h
    → IsPayload p
    → (0 < length (layout h ++ p)) × (length (layout h ++ p) ≤ max_encrypted_file_bytes)
layout_small h p v w =
    let suite = suite_allowed-IsSuite h.version h.kem_alg v.suite in
    let total = length-append (layout h) p in
    let header = length-layout h in
    let x25519 : length h.x25519_ephemeral_public ≤ 32 = rw v.x25519 (x25519_length-le h.version) in
    (omega arith, omega (arith, suite.fits))

parse_open :
    (blob : Bytes)
    → 0 < length blob
    → length blob ≤ max_encrypted_file_bytes
    → parse_encrypted_file_parts blob ≡ payload_parts (read_encrypted_file_header bytes_io blob)
unfolding parse_encrypted_file_parts
parse_open [] h k = absurd (omega arith)
parse_open (b ∷ bs) h k =
    let small : ltb max_encrypted_file_bytes (length (b ∷ bs)) ≡ false = ground arith in rw small

parse_opened :
    (blob : Bytes) {parts : EncryptedFileParts}
    → parse_encrypted_file_parts blob ≡ ok parts
    → payload_parts (read_encrypted_file_header bytes_io blob) ≡ ok parts
unfolding parse_encrypted_file_parts
parse_opened [] e = cc
parse_opened (b ∷ bs) e = ground arith

-- What the whole-container parser accepts, and with which parts.
pub record IsContainer (blob : Bytes) (parts : EncryptedFileParts) : Type 0 where
  pub header : EncryptedFileHeader
  pub payload : Bytes
  pub header_valid : IsLegal header
  pub payload_valid : IsPayload payload
  pub spelled : blob ≡ layout header ++ payload
  pub parts_given : parts ≡ parts_of header payload

accepts :
    (blob : Bytes) (parts : EncryptedFileParts)
    → IsContainer blob parts
    → parse_encrypted_file_parts blob ≡ ok parts
accepts blob parts c =
    let (low, high) = layout_small c.header c.payload c.header_valid c.payload_valid in
    let (t, run, _, left) =
      read_header_complete bytes_io whole bytes_io-IsSteady c.header c.payload blob c.header_valid
        tt c.spelled in
    parse_open blob (rw c.spelled low) (rw c.spelled high)
    ∙ ap payload_parts (run ∙ ap (λ (u : Bytes). (ok c.header, u)) left)
    ∙ payload_parts_ok c.header c.payload c.payload_valid
    ∙ ap ok (sym c.parts_given)

accepted :
    (blob : Bytes) (parts : EncryptedFileParts)
    → All IsByte blob
    → parse_encrypted_file_parts blob ≡ ok parts
    → IsContainer blob parts
accepted blob parts bytes e =
    let run = read_encrypted_file_header bytes_io blob in
    let (h, returned, payload_valid, given) = payload_parts_inv run.0 run.1 (parse_opened blob e) in
    let (header_valid, spelled) =
      read_header-IsLegal bytes_io whole bytes_io-IsFaithful {s = blob} {t = run.1}
        (ap (λ r. (r, run.1)) returned) bytes in
    record {
      header = h;
      payload = run.1;
      header_valid = header_valid;
      payload_valid = payload_valid;
      spelled = spelled;
      parts_given = given;
    }

-- The parser of a whole container accepts exactly the layouts of the format followed by a payload
-- of at least a tag and at most the largest file with a tag, and returns their parts.
pub parse_encrypted_file_parts_iff :
    (blob : Bytes) (parts : EncryptedFileParts)
    → All IsByte blob
    → (parse_encrypted_file_parts blob ≡ ok parts) ↔ IsContainer blob parts
parse_encrypted_file_parts_iff blob parts bytes = (accepted blob parts bytes, accepts blob parts)
