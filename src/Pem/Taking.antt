-- ===== src/Pem/Taking.antt =====
-- How the parser takes the lines that `save_key_pem` writes.
use quantum_encryptor.Prelude.{
  ℕ, ◌+◌, ◌*◌, ◌≤◌, ◌<◌, ◌≡◌, refl, sym, ap, ◌∙◌, true, false, not, ◌||◌, none, some, List, [], ◌∷◌,
  ◌++◌, append_assoc, append-nil, arith, Bytes, Text, All, IsByte, length, is_empty, list_eq,
  list_eq→eq, list_eq_refl, one_of, ◌==◌, inl, inr, Bool-cases,
}
use mathlib.Core.Path.{subst}
use quantum_encryptor.Prelude.Strings.{strip, rstrip, lstrip, starts_with, is_space, cut}
use quantum_encryptor.Prelude.Base64.{IsBase64, b64encode, b64decode-b64encode}
use quantum_encryptor.Config.{
  allowed_key_algs, pem_private_key_format_header, pem_algorithm_header, pem_kdf_header,
  pem_proc_type_header, pem_dek_info_header,
}
use quantum_encryptor.Failure.{ok}
use quantum_encryptor.Algorithms.{is_allowed_key_algorithm}
use quantum_encryptor.Keys.{KeyType}
use quantum_encryptor.Pem.{Lines, once, present, read_line, read_lines}
use quantum_encryptor.Pem.Metadata.{decode_pem_base64, canonical_base64}
use quantum_encryptor.Pem.Layout.{
  and_true, IsPayload, all_clean, strip-base64, rstrip-base64, rstrip-append, list_eq-base64,
  starts_with-base64,
}

-- An identifier in a list has what every element has.
pub one_of-All :
    (P : Text → Type 0) (t : Text) (ts : List Text) → one_of t ts ≡ true → All P ts → P t
unfolding one_of
one_of-All P t [] h ps = cc
one_of-All P t (u ∷ us) h (p, ps) = elim (Bool-cases (list_eq t u)) [
  | inl same ↦ subst P (sym (list_eq→eq t u same)) p
  | inr differ ↦ one_of-All P t us (rest differ) ps
]
  where
    rest : list_eq t u ≡ false → one_of t us ≡ true
    rest e = ap (λ b. b || one_of t us) (sym e) ∙ h

-- The line of an identifier that `save_key_pem` writes.
pub record IsAlgorithmLine (t : Text) : Type 0 where
  pub line : strip (pem_algorithm_header ++ t) ≡ pem_algorithm_header ++ t
  pub value : strip t ≡ t
  pub clean : all_clean (pem_algorithm_header ++ t) ≡ true
  pub short : length t ≤ 30

pub allowed-IsAlgorithmLine :
    (t : Text) → is_allowed_key_algorithm (some t) ≡ true → IsAlgorithmLine t
unfolding is_allowed_key_algorithm strip rstrip lstrip is_space
allowed-IsAlgorithmLine t h =
    one_of-All IsAlgorithmLine t allowed_key_algs (and_true (not (is_empty t)) _ h).1 (
      record { line = refl; value = refl; clean = refl; short = omega arith },
      (
        record { line = refl; value = refl; clean = refl; short = omega arith },
        (
          record { line = refl; value = refl; clean = refl; short = omega arith },
          (record { line = refl; value = refl; clean = refl; short = omega arith }, tt),
        ),
      ),
    )

pub algorithm_line :
    (key_type : KeyType) (t : Text) (l : Lines)
    → is_allowed_key_algorithm (some t) ≡ true
    → l.kem_alg ≡ none
    → read_line key_type (strip (pem_algorithm_header ++ t)) l ≡ ok (record l { kem_alg = some t })
unfolding read_line starts_with list_eq once present
algorithm_line key_type t l h fresh =
    let good = allowed-IsAlgorithmLine t h in
    ap (λ x. read_line key_type x l) good.line ∙ rw (fresh, good.value) refl

payload_line :
    (key_type : KeyType) (t : Text) (l : Lines)
    → IsPayload t
    → read_line key_type (strip t) l ≡ ok (record l { payload_lines = l.payload_lines ++ t ∷ [] })
unfolding read_line
payload_line key_type t l (base64, some_text) =
    ap (λ x. read_line key_type x l) (strip-base64 t base64)
    ∙ rw
        (
          some_text,
          starts_with-base64 pem_algorithm_header t base64 refl,
          starts_with-base64 pem_private_key_format_header t base64 refl,
          list_eq-base64 t pem_proc_type_header base64 refl,
          starts_with-base64 pem_dek_info_header t base64 refl,
          starts_with-base64 pem_kdf_header t base64 refl,
        )
        refl

-- The lines of the payload are collected in their order.
pub read_payload_lines :
    (key_type : KeyType) (ts : List Text) (l : Lines)
    → All IsPayload ts
    → read_lines key_type ts l ≡ ok (record l { payload_lines = l.payload_lines ++ ts })
unfolding read_lines
read_payload_lines key_type [] l h =
    ap (λ x. ok (record l { payload_lines = x })) (sym (append-nil l.payload_lines))
read_payload_lines key_type (t ∷ ts) l (h, hs) = rw (payload_line key_type t l h) (
    read_payload_lines key_type ts (record l { payload_lines = l.payload_lines ++ t ∷ [] }) hs
    ∙ ap (λ x. ok (record l { payload_lines = x })) (append_assoc l.payload_lines (t ∷ []) ts))

pub decode_pem_base64-b64encode :
    (d : Bytes) → All IsByte d → decode_pem_base64 (b64encode d) ≡ ok d
unfolding decode_pem_base64 canonical_base64
decode_pem_base64-b64encode d h = rw (b64decode-b64encode d h, list_eq_refl (b64encode d)) refl

pub length-b64encode : (d : Bytes) → length (b64encode d) ≤ 2 * length d + 2
unfolding b64encode
length-b64encode [] = omega arith
length-b64encode (a ∷ []) = omega arith
length-b64encode (a ∷ b ∷ []) = omega arith
length-b64encode (a ∷ b ∷ c ∷ rest) = omega (arith, length-b64encode rest)

pub b64encode-not_empty : (d : Bytes) → 0 < length d → is_empty (b64encode d) ≡ false
unfolding b64encode
b64encode-not_empty [] h = absurd (omega arith)
b64encode-not_empty (a ∷ []) h = refl
b64encode-not_empty (a ∷ b ∷ []) h = refl
b64encode-not_empty (a ∷ b ∷ c ∷ rest) h = refl

base64_no_comma : (c : ℕ) → IsBase64 c → (c == 44) ≡ false
base64_no_comma c h = ground arith

-- The first comma of two encodings with a comma between them.
pub cut-base64 : (s t : Text) → All IsBase64 s → cut 44 (s ++ 44 ∷ t) ≡ some (s, t)
unfolding cut
cut-base64 [] t h = refl
cut-base64 (c ∷ cs) t (h, hs) = rw (base64_no_comma c h, cut-base64 cs t hs) refl

rstrip-comma : (t : Text) → All IsBase64 t → rstrip (44 ∷ t) ≡ 44 ∷ t
unfolding rstrip is_space
rstrip-comma t h = rw (rstrip-base64 t h) refl

not_empty-comma : (s t : Text) → is_empty (s ++ 44 ∷ t) ≡ false
not_empty-comma [] t = refl
not_empty-comma (c ∷ cs) t = refl

rstrip-pair : (s t : Text) → All IsBase64 t → rstrip (s ++ 44 ∷ t) ≡ s ++ 44 ∷ t
rstrip-pair s t h =
    rstrip-append s (44 ∷ t) (ap is_empty (rstrip-comma t h)) ∙ ap (λ x. s ++ x) (rstrip-comma t h)

pub strip-dek_line :
    (s t : Text)
    → All IsBase64 t
    → strip (pem_dek_info_header ++ (s ++ 44 ∷ t)) ≡ pem_dek_info_header ++ (s ++ 44 ∷ t)
unfolding strip lstrip is_space
strip-dek_line s t h =
    rstrip-append pem_dek_info_header (s ++ 44 ∷ t)
      (ap is_empty (rstrip-pair s t h) ∙ not_empty-comma s t)
    ∙ ap (λ x. pem_dek_info_header ++ x) (rstrip-pair s t h)
