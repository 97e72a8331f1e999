-- ===== src/Api/Uncached.antt =====
-- Answers of the API are not kept in a cache.
use quantum_encryptor.Prelude.{
  ℕ, ◌≡◌, refl, sym, ap, ◌∙◌, true, false, List, [], ◌∷◌, ◌++◌, Bytes, Text, codes, list_eq,
  Bool-cases, inl, inr, if◌then◌else◌,
}
use quantum_encryptor.Prelude.Strings.{starts_with}
use quantum_encryptor.Api.{lower, lower_char, header_values}
use quantum_encryptor.Api.Headers.{
  security_headers, is_app_document, add_missing, without_header, replace_headers,
  with_security_headers,
}
use quantum_encryptor.Api.Hardened.{apart}

module _ (name : Bytes) where
  header_values-append :
      (xs ys : List (Bytes × Bytes))
      → header_values name (xs ++ ys) ≡ header_values name xs ++ header_values name ys
  unfolding header_values
  header_values-append [] ys = refl
  header_values-append ((n, v) ∷ xs) ys = elim (Bool-cases (list_eq (lower n) name)) [
    | inl e ↦ rw e (ap (λ vs. v ∷ vs) (header_values-append xs ys))
    | inr e ↦ rw e (header_values-append xs ys)
  ]

  header_values_skip :
      (n v : Bytes) (xs : List (Bytes × Bytes))
      → list_eq (lower n) name ≡ false
      → header_values name ((n, v) ∷ xs) ≡ header_values name xs
  unfolding header_values
  header_values_skip n v xs e = rw e refl

  header_values-without :
      (xs : List (Bytes × Bytes)) → header_values name (without_header name xs) ≡ []
  unfolding header_values without_header
  header_values-without [] = refl
  header_values-without ((n, v) ∷ xs) = elim (Bool-cases (list_eq (lower n) name)) [
    | inl e ↦ rw e (header_values-without xs)
    | inr e ↦ rw e (header_values_skip n v (without_header name xs) e ∙ header_values-without xs)
  ]

  header_values-without_other :
      (m : Bytes) (xs : List (Bytes × Bytes))
      → list_eq name m ≡ false
      → header_values name (without_header m xs) ≡ header_values name xs
  unfolding header_values without_header
  header_values-without_other m [] ne = refl
  header_values-without_other m ((n, v) ∷ xs) ne = elim (Bool-cases (list_eq (lower n) m)) [
    | inl e ↦ rw e (
        header_values-without_other m xs ne
        ∙ sym (header_values_skip n v xs (apart (lower n) name m ne e)))
    | inr e ↦ rw e (
        ap (λ vs. if list_eq (lower n) name then v ∷ vs else vs)
          (header_values-without_other m xs ne))
  ]

-- A response on a path of the API has exactly one Cache-Control header, no-store, and exactly one
-- Pragma header, no-cache, whatever headers the application has set and in whatever case.
pub with_security_headers-uncached :
    (path : Text) (status : ℕ) (headers : List (Bytes × Bytes))
    → starts_with (codes "/api/") path ≡ true
    → (header_values (codes "cache-control") (with_security_headers path status headers)
        ≡ codes "no-store" ∷ [])
      × (header_values (codes "pragma") (with_security_headers path status headers)
          ≡ codes "no-cache" ∷ [])
unfolding with_security_headers replace_headers header_values list_eq lower lower_char
with_security_headers-uncached path status headers api =
    let set = add_missing headers (is_app_document path status headers) security_headers headers in
    let first =
      without_header (codes "cache-control") set
      ++ (codes "cache-control", codes "no-store") ∷ [] in
    rw api (
      header_values-append (codes "cache-control") (without_header (codes "pragma") first) _
          ∙ ap (λ vs. vs ++ [])
              (header_values-without_other (codes "cache-control") (codes "pragma") first refl
                ∙ header_values-append (codes "cache-control")
                    (without_header (codes "cache-control") set) _
                ∙ ap (λ vs. vs ++ codes "no-store" ∷ [])
                    (header_values-without (codes "cache-control") set)),
      header_values-append (codes "pragma") (without_header (codes "pragma") first) _
          ∙ ap (λ vs. vs ++ codes "no-cache" ∷ []) (header_values-without (codes "pragma") first),
    )
