-- ===== src/Pem/Parsed.antt =====
-- A key file that was written is parsed again.
use quantum_encryptor.Prelude.{
  ℕ, ◌+◌, ◌*◌, ◌≤◌, ◌<◌, ◌≡◌, refl, ap, ◌∙◌, true, false, none, some, List, [], ◌∷◌, ◌++◌, arith,
  Bytes, Text, All, All-append, IsByte, length, length-append, is_empty, ltb, ==_iff, ◌==◌, list_eq,
}
use quantum_encryptor.Prelude.Strings.{
  strip, rstrip, lstrip, splitlines_from, cons_line, is_space, is_break, join,
}
use quantum_encryptor.Prelude.Base64.{b64encode, b64encode-IsBase64}
use quantum_encryptor.Config.{
  max_pem_bytes, max_raw_key_bytes, pem_public_header, pem_public_footer, pem_private_header,
  pem_private_footer, pem_algorithm_header,
}
use quantum_encryptor.Failure.{ok, ensure-eq_ok, bind_ok, first_ok}
use quantum_encryptor.Algorithms.{is_allowed_key_algorithm}
use quantum_encryptor.Backend.{Primitives}
use quantum_encryptor.Keys.{
  KeyType, public, private, expected_key_bytes, validate_key_length, validate_key_material,
}
use quantum_encryptor.Pem.{
  Lines, no_lines, read_lines, boundary_type, declared_algorithm, private_envelope_of, has_envelope,
  validate_payload, parse_lines, parse_all_lines, parse_key_pem_strict,
}
use quantum_encryptor.Pem.Metadata.{decode_pem_base64}
use quantum_encryptor.Pem.Files.{chunks, text_of, key_lines}
use quantum_encryptor.Pem.Layout.{
  IsClean, IsPayload, all_clean, all_clean_lem, base64-IsClean, chunks-IsPayload, join-chunks,
  length-text_of-chunks, splitlines-text_of, last_line-append, but_last-append, all_ascii-text_of,
}
use quantum_encryptor.Pem.Taking.{
  allowed-IsAlgorithmLine, algorithm_line, read_payload_lines, decode_pem_base64-b64encode,
  length-b64encode, b64encode-not_empty,
}

-- What is needed of the first and the last line of a file.
pub record IsBoundary (header footer : Text) (key_type : KeyType) : Type 0 where
  pub recognised : boundary_type header footer ≡ ok key_type
  pub header_line : strip header ≡ header
  pub footer_line : strip footer ≡ footer
  pub start : (rest : Text) → lstrip (header ++ rest) ≡ header ++ rest
  pub finish : rstrip (footer ++ 10 ∷ []) ≡ footer
  pub some_footer : is_empty footer ≡ false
  pub one_line : splitlines_from false footer ≡ footer ∷ []
  pub clean : (all_clean header ≡ true) × (all_clean footer ≡ true)

pub public-IsBoundary : IsBoundary pem_public_header pem_public_footer public
unfolding boundary_type strip lstrip rstrip is_space is_break splitlines_from cons_line list_eq
public-IsBoundary = record {
  recognised = refl;
  header_line = refl;
  footer_line = refl;
  start = λ rest. refl;
  finish = refl;
  some_footer = refl;
  one_line = refl;
  clean = (refl, refl);
}

pub private-IsBoundary : IsBoundary pem_private_header pem_private_footer private
unfolding boundary_type strip lstrip rstrip is_space is_break splitlines_from cons_line list_eq
private-IsBoundary = record {
  recognised = refl;
  header_line = refl;
  footer_line = refl;
  start = λ rest. refl;
  finish = refl;
  some_footer = refl;
  one_line = refl;
  clean = (refl, refl);
}

lstrip-text_of :
    {header footer : Text} {key_type : KeyType}
    → IsBoundary header footer key_type
    → (ls : List Text) → lstrip (text_of (header ∷ ls)) ≡ text_of (header ∷ ls)
unfolding text_of
lstrip-text_of b ls = b.start (10 ∷ text_of ls)

pub not_above : (n m : ℕ) → m ≤ n → ltb n m ≡ false
not_above n m h = ground arith

some_chunk : (t : Text) → is_empty t ≡ false → is_empty (chunks (length t) t) ≡ false
unfolding chunks
some_chunk [] h = cc
some_chunk (c ∷ cs) h = refl

pub allowed_size :
    (kem_alg : Text) (key_type : KeyType) (n : ℕ)
    → expected_key_bytes kem_alg key_type ≡ ok n
    → (1 ≤ n) × (n ≤ 2432)
unfolding expected_key_bytes
allowed_size kem_alg public n h = ground arith
allowed_size kem_alg private n h = ground arith

-- The lines of a key and the algorithm in front of them.
abbrev pub algorithm_lines : Text → Bytes → List Text
algorithm_lines kem_alg key = (pem_algorithm_header ++ kem_alg) ∷ key_lines key

module _ (lib : Primitives) where
  -- The parser of a text of lines is the parser of the lines between the boundaries.
  pub parse_file :
      (header footer : Text) (key_type : KeyType) (ls : List Text)
      → IsBoundary header footer key_type
      → All (All IsClean) ls
      → length (text_of (header ∷ (ls ++ footer ∷ []))) ≤ max_pem_bytes
      → parse_key_pem_strict lib (text_of (header ∷ (ls ++ footer ∷ [])))
        ≡ parse_lines lib key_type ls
  unfolding parse_key_pem_strict parse_all_lines
  parse_file header footer key_type ls b clean short =
      let lines = header ∷ (ls ++ footer ∷ []) in
      let ascii = all_ascii-text_of lines (
        all_clean_lem header b.clean.0,
        All-append (All IsClean) ls (footer ∷ []) clean (all_clean_lem footer b.clean.1, tt),
      ) in
      let split =
        splitlines-text_of (header ∷ ls) footer (all_clean_lem header b.clean.0, clean)
          (lstrip-text_of b (ls ++ footer ∷ [])) b.finish b.some_footer b.one_line in
      rw
        (
          ascii,
          not_above max_pem_bytes (length (text_of lines)) short,
          split,
          b.header_line,
          last_line-append header ls footer,
          b.footer_line,
          b.recognised,
          but_last-append ls footer,
        )
        refl

  pub valid_size :
      (key : Bytes) (kem_alg : Text) (key_type : KeyType) {u : Unit {0}}
      → validate_key_material lib key kem_alg key_type ≡ ok u
      → (n : ℕ) × (expected_key_bytes kem_alg key_type ≡ ok n) × (length key ≡ n)
  unfolding validate_key_material validate_key_length
  valid_size key kem_alg key_type h =
      let (u, e) = first_ok (validate_key_length key kem_alg key_type) _ h in
      let (n, expected, f) = bind_ok (expected_key_bytes kem_alg key_type) _ e in
      (n, expected, (==_iff (length key) n).0 (ensure-eq_ok (length key == n) _ f))

  -- The payload of a file of which the lines were read.
  pub payload_of :
      (key : Bytes) → All IsByte key → decode_pem_base64 (join (key_lines key)) ≡ ok key
  unfolding key_lines
  payload_of key h =
      ap decode_pem_base64 (join-chunks (length (b64encode key)) (b64encode key) (omega arith))
      ∙ decode_pem_base64-b64encode key h

  pub key_lines-not_empty : (key : Bytes) → 0 < length key → is_empty (key_lines key) ≡ false
  unfolding key_lines
  key_lines-not_empty key h = some_chunk (b64encode key) (b64encode-not_empty key h)

  pub key_lines-IsPayload : (key : Bytes) → All IsByte key → All IsPayload (key_lines key)
  unfolding key_lines
  key_lines-IsPayload key h =
      chunks-IsPayload (length (b64encode key)) (b64encode key) (b64encode-IsBase64 key h)

  payload-IsClean : (ts : List Text) → All IsPayload ts → All (All IsClean) ts
  payload-IsClean [] h = tt
  payload-IsClean (t ∷ ts) ((base64, some_text), hs) =
      (base64-IsClean t base64, payload-IsClean ts hs)

  pub algorithm_lines-IsClean :
      (kem_alg : Text) (key : Bytes)
      → is_allowed_key_algorithm (some kem_alg) ≡ true
      → All IsByte key
      → All (All IsClean) (algorithm_lines kem_alg key)
  algorithm_lines-IsClean kem_alg key allowed h = (
    all_clean_lem (pem_algorithm_header ++ kem_alg) (allowed-IsAlgorithmLine kem_alg allowed).clean,
    payload-IsClean (key_lines key) (key_lines-IsPayload key h),
  )

  pub length-key_lines : (key : Bytes) → length (text_of (key_lines key)) ≤ 4 * length key + 4
  unfolding key_lines
  length-key_lines key =
      omega (
        arith,
        length-text_of-chunks (length (b64encode key)) (b64encode key),
        length-b64encode key,
      )

  pub length-algorithm_lines :
      (kem_alg : Text) (key : Bytes)
      → is_allowed_key_algorithm (some kem_alg) ≡ true
      → length (text_of (algorithm_lines kem_alg key)) ≤ 4 * length key + 50
  unfolding text_of
  length-algorithm_lines kem_alg key allowed = omega (
    arith,
    length-append (pem_algorithm_header ++ kem_alg) (10 ∷ text_of (key_lines key)),
    length-append pem_algorithm_header kem_alg,
    (allowed-IsAlgorithmLine kem_alg allowed).short,
    length-key_lines key,
  )

  pub read_algorithm_lines :
      (key_type : KeyType) (kem_alg : Text) (key : Bytes) (l : Lines)
      → is_allowed_key_algorithm (some kem_alg) ≡ true
      → All IsByte key
      → l.kem_alg ≡ none
      → read_lines key_type (algorithm_lines kem_alg key) l
        ≡ ok (record l { kem_alg = some kem_alg; payload_lines = l.payload_lines ++ key_lines key })
  unfolding read_lines
  read_algorithm_lines key_type kem_alg key l allowed bytes fresh =
      rw (algorithm_line key_type kem_alg l allowed fresh) (
        read_payload_lines key_type (key_lines key) (record l { kem_alg = some kem_alg })
          (key_lines-IsPayload key bytes))

  -- A public key that was written is parsed.
  pub parse_public_lines :
      (kem_alg : Text) (key : Bytes)
      → is_allowed_key_algorithm (some kem_alg) ≡ true
      → validate_key_material lib key kem_alg public ≡ ok tt
      → All IsByte key
      → 0 < length key
      → length key ≤ 2432
      → parse_lines lib public (algorithm_lines kem_alg key)
        ≡ ok (record {
          kem_alg = kem_alg;
          key_type = public;
          is_encrypted = false;
          payload = key;
          private_envelope = none;
        })
  unfolding parse_lines no_lines declared_algorithm private_envelope_of has_envelope
      validate_payload
  parse_public_lines kem_alg key allowed valid bytes some_key short =
      rw
        (
          read_algorithm_lines public kem_alg key no_lines allowed bytes refl,
          allowed,
          key_lines-not_empty key some_key,
          payload_of key bytes,
          not_above max_raw_key_bytes (length key) (omega arith),
          valid,
        )
        refl
