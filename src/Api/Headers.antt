-- ===== src/Api/Headers.antt =====
-- api_app.py: `SecurityHeadersMiddleware`, and the names of downloads.
use quantum_encryptor.Prelude.{
  ℕ, Bool, false, ◌&&◌, ◌||◌, not, List, [], ◌∷◌, ◌++◌, Bytes, Text, codes, is_empty, list_eq,
  one_of, ltb, leb, ◌==◌, if◌then◌else◌,
}
use quantum_encryptor.Prelude.Strings.{starts_with}
use quantum_encryptor.Api.{lower}

abbrev pub content_security_policy : Bytes
content_security_policy =
    codes "default-src 'self'; script-src 'self'; style-src 'self' 'unsafe-inline'; "
    ++ codes "img-src 'self' data:; connect-src 'self'; font-src 'self' data:; "
    ++ codes "object-src 'none'; base-uri 'none'; frame-ancestors 'none'; form-action 'self'"

abbrev pub security_headers : List (Bytes × Bytes)
security_headers =
    (codes "content-security-policy", content_security_policy)
    ∷ (codes "x-content-type-options", codes "nosniff")
    ∷ (codes "x-frame-options", codes "DENY")
    ∷ (codes "referrer-policy", codes "no-referrer")
    ∷ []

abbrev pub api_no_store_headers : List (Bytes × Bytes)
api_no_store_headers =
    (codes "cache-control", codes "no-store") ∷ (codes "pragma", codes "no-cache") ∷ []

-- `name in {name.lower() for name, _value in headers}`
unfoldable pub has_header : Bytes → List (Bytes × Bytes) → Bool
has_header name [] = false
has_header name ((n, value) ∷ rest) = list_eq (lower n) name || has_header name rest

unfoldable pub has_html : List (Bytes × Bytes) → Bool
has_html [] = false
has_html ((n, value) ∷ rest) =
    (list_eq (lower n) (codes "content-type") && starts_with (codes "text/html") (lower value))
    || has_html rest

unfoldable pub is_app_document : Text → ℕ → List (Bytes × Bytes) → Bool
is_app_document path status headers =
    one_of path (codes "/" ∷ codes "/index.html" ∷ []) && (status == 304 || has_html headers)

unfoldable pub header_of : Bool → Bytes → Bytes → Bytes
header_of app_document name value =
    if list_eq name (codes "referrer-policy") && app_document then codes "same-origin" else value

-- The headers that are added, of those that are not among `existing`.
unfoldable pub add_missing :
    List (Bytes × Bytes) → Bool → List (Bytes × Bytes) → List (Bytes × Bytes) → List (Bytes × Bytes)
add_missing existing app_document [] headers = headers
add_missing existing app_document ((name, value) ∷ rest) headers =
    add_missing existing app_document rest (
      if has_header name existing
      then headers
      else headers ++ (name, header_of app_document name value) ∷ [])

unfoldable pub without_header : Bytes → List (Bytes × Bytes) → List (Bytes × Bytes)
without_header name [] = []
without_header name ((n, value) ∷ rest) =
    let kept = without_header name rest in
    if list_eq (lower n) name then kept else (n, value) ∷ kept

unfoldable pub replace_headers : List (Bytes × Bytes) → List (Bytes × Bytes) → List (Bytes × Bytes)
replace_headers [] headers = headers
replace_headers ((name, value) ∷ rest) headers =
    replace_headers rest (without_header name headers ++ (name, value) ∷ [])

-- The headers of the start of a response over HTTP.
unfoldable pub with_security_headers : Text → ℕ → List (Bytes × Bytes) → List (Bytes × Bytes)
with_security_headers path status headers =
    let hardened =
      add_missing headers (is_app_document path status headers) security_headers headers in
    if starts_with (codes "/api/") path
    then replace_headers api_no_store_headers hardened
    else hardened

-- `ascii_fallback` of `_content_disposition`.
unfoldable pub fallback_char : ℕ → ℕ
fallback_char c = if leb 32 c && ltb c 127 && not (c == 92) && not (c == 34) then c else 95

unfoldable pub fallback_chars : Text → Text
fallback_chars [] = []
fallback_chars (c ∷ cs) = fallback_char c ∷ fallback_chars cs

unfoldable pub ascii_fallback : Text → Text
ascii_fallback filename =
    if is_empty filename then codes "download.bin" else fallback_chars filename
