-- ===== src/Api/Hardened.antt =====
-- What every response to a browser carries.
use quantum_encryptor.Prelude.{
  ℕ, ◌≡◌, refl, sym, ap, ◌∙◌, Bool, true, false, ◌||◌, List, [], ◌∷◌, ◌++◌, arith, Bytes, Text,
  codes, list_eq, list_eq→eq, All, Bool-cases, inl, inr, if◌then◌else◌,
}
use quantum_encryptor.Prelude.Strings.{starts_with}
use quantum_encryptor.Api.{lower, lower_char}
use quantum_encryptor.Api.Headers.{
  security_headers, api_no_store_headers, has_header, is_app_document, header_of, add_missing,
  without_header, replace_headers, with_security_headers,
}

abbrev Headers : Type 0
Headers = List (Bytes × Bytes)

-- Spelled in lower case.
abbrev IsLower : Bytes × Bytes → Type 0
IsLower h = list_eq (lower h.0) h.0 ≡ true

pub apart : (a n m : Bytes) → list_eq n m ≡ false → list_eq a m ≡ true → list_eq a n ≡ false
apart a n m ne e = elim (Bool-cases (list_eq a n)) [
  | inl same ↦ let equal = list_eq→eq a n same in cc
  | inr other ↦ other
]

or_right : (a b : Bool) → a ≡ false → (a || b) ≡ true → b ≡ true
or_right a b e h = ground arith

or_mono : (a b c : Bool) → (b ≡ true → c ≡ true) → (a || b) ≡ true → (a || c) ≡ true
or_mono true b c f h = refl
or_mono false b c f h = f h

module _ (name : Bytes) where
  has_header-append :
      (xs ys : Headers) → has_header name xs ≡ true → has_header name (xs ++ ys) ≡ true
  unfolding has_header
  has_header-append [] ys h = cc
  has_header-append ((n, v) ∷ xs) ys h = ground (arith, has_header-append xs ys)

  has_header-snoc :
      (xs : Headers) (v : Bytes) → IsLower (name, v) → has_header name (xs ++ (name, v) ∷ []) ≡ true
  unfolding has_header
  has_header-snoc [] v h = rw h refl
  has_header-snoc ((n, w) ∷ xs) v h = ground (arith, has_header-snoc xs v h)

  has_header-without :
      (m : Bytes) (xs : Headers)
      → list_eq name m ≡ false
      → has_header name xs ≡ true
      → has_header name (without_header m xs) ≡ true
  unfolding has_header without_header
  has_header-without m [] ne h = h
  has_header-without m ((n, v) ∷ xs) ne h = elim (Bool-cases (list_eq (lower n) m)) [
    | inl e ↦ rw e (has_header-without m xs ne (or_right _ _ (apart (lower n) name m ne e) h))
    | inr e ↦ rw e (or_mono (list_eq (lower n) name) _ _ (has_header-without m xs ne) h)
  ]

  has_header-add_missing :
      (existing : Headers) (doc : Bool) (added xs : Headers)
      → has_header name xs ≡ true
      → has_header name (add_missing existing doc added xs) ≡ true
  unfolding add_missing
  has_header-add_missing existing doc [] xs h = h
  has_header-add_missing existing doc ((n, v) ∷ rest) xs h =
      elim (Bool-cases (has_header n existing)) [
        | inl e ↦ rw e (has_header-add_missing existing doc rest xs h)
        | inr e ↦ rw e (has_header-add_missing existing doc rest _ (has_header-append xs _ h))
      ]

-- The headers after one of those that are added.
module _ (existing : Headers) (n v : Bytes) (xs : Headers) where
  place : Headers
  place = if has_header n existing then xs else xs ++ (n, v) ∷ []

  has_header-place :
      IsLower (n, v)
      → (has_header n existing ≡ true → has_header n xs ≡ true)
      → has_header n place ≡ true
  unfolding place
  has_header-place low kept = elim (Bool-cases (has_header n existing)) [
    | inl e ↦ rw e (kept e)
    | inr e ↦ rw e (has_header-snoc n xs v low)
  ]

  has_header-place_kept : (m : Bytes) → has_header m xs ≡ true → has_header m place ≡ true
  unfolding place
  has_header-place_kept m h = elim (Bool-cases (has_header n existing)) [
    | inl e ↦ rw e h
    | inr e ↦ rw e (has_header-append m xs _ h)
  ]

add_missing-All :
    (existing : Headers) (doc : Bool) (added xs result : Headers)
    → All IsLower added
    → ((n : Bytes) → has_header n existing ≡ true → has_header n xs ≡ true)
    → add_missing existing doc added xs ≡ result
    → All (λ h. has_header h.0 result ≡ true) added
unfolding add_missing place
add_missing-All existing doc [] xs result low kept e = tt
add_missing-All existing doc ((n, v) ∷ rest) xs result low kept e = (
  ap (has_header n) (sym e)
      ∙ has_header-add_missing n existing doc rest _
          (has_header-place existing n (header_of doc n v) xs low.0 (kept n)),
  add_missing-All existing doc rest (place existing n (header_of doc n v) xs) result low.1
      (λ m h. has_header-place_kept existing n (header_of doc n v) xs m (kept m h)) e,
)

module _ (n m : Bytes) (v : Bytes) where
  has_header-replaced :
      (xs : Headers)
      → list_eq n m ≡ false
      → has_header n xs ≡ true
      → has_header n (without_header m xs ++ (m, v) ∷ []) ≡ true
  has_header-replaced xs ne h =
      has_header-append n (without_header m xs) _ (has_header-without n m xs ne h)

has_header-replace_headers :
    (n : Bytes) (replaced xs : Headers)
    → All (λ h. list_eq n h.0 ≡ false) replaced
    → has_header n xs ≡ true
    → has_header n (replace_headers replaced xs) ≡ true
unfolding replace_headers
has_header-replace_headers n [] xs ne h = h
has_header-replace_headers n ((m, v) ∷ rest) xs ne h =
    has_header-replace_headers n rest _ ne.1 (has_header-replaced n m v xs ne.0 h)

All-replace_headers :
    (added replaced xs : Headers)
    → All (λ a. All (λ h. list_eq a.0 h.0 ≡ false) replaced) added
    → All (λ a. has_header a.0 xs ≡ true) added
    → All (λ a. has_header a.0 (replace_headers replaced xs) ≡ true) added
All-replace_headers [] replaced xs ne h = tt
All-replace_headers (a ∷ added) replaced xs ne h = (
  has_header-replace_headers a.0 replaced xs ne.0 h.0,
  All-replace_headers added replaced xs ne.1 h.1,
)

hardened : Text → ℕ → Headers → Headers
hardened path status headers =
    add_missing headers (is_app_document path status headers) security_headers headers

hardened-All :
    (path : Text) (status : ℕ) (headers : Headers)
    → All (λ h. has_header h.0 (hardened path status headers) ≡ true) security_headers
unfolding hardened lower list_eq lower_char
hardened-All path status headers =
    add_missing-All headers (is_app_document path status headers) security_headers headers _
      (refl, (refl, (refl, (refl, tt)))) (λ n h. h) refl

-- Whatever headers the application has set, whatever its status and on every path, the response
-- has a header under each name of SECURITY_HEADERS.
pub with_security_headers-All :
    (path : Text) (status : ℕ) (headers : List (Bytes × Bytes))
    → All (λ h. has_header h.0 (with_security_headers path status headers) ≡ true) security_headers
unfolding with_security_headers hardened list_eq
with_security_headers-All path status headers =
    elim (Bool-cases (starts_with (codes "/api/") path)) [
      | inl e ↦ rw e (
          All-replace_headers security_headers api_no_store_headers _
            (
              (refl, (refl, tt)),
              ((refl, (refl, tt)), ((refl, (refl, tt)), ((refl, (refl, tt)), tt))),
            )
            (hardened-All path status headers))
      | inr e ↦ rw e (hardened-All path status headers)
    ]
