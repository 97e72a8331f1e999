-- ===== src/Api.antt =====
-- api_app.py: the guard in front of the API. `urlsplit` and the cookie parser belong to Python's
-- library and are parameters. A header is a pair of a name and a value in Latin-1.
pub mod Guard
pub mod Limits
pub mod Passed
pub mod Bounded
pub mod Headers
pub mod Hardened
pub mod Uncached
mod Examples
use quantum_encryptor.Prelude.{
  ℕ, ◌+◌, ◌*◌, ◌-◌, Bool, true, false, ◌&&◌, ◌||◌, not, Option, none, some, List, [], ◌∷◌, ◌++◌,
  Bytes, Text, codes, length, drop, is_empty, list_eq, one_of, ltb, leb, ◌==◌, and_then,
  if◌then◌else◌,
}
use quantum_encryptor.Prelude.Strings.{starts_with, decimal, number_from}
use quantum_encryptor.Failure.{Result, ok, err, ensure, value_error, job_error, ◌>>=◌, ◌>>◌}
use quantum_encryptor.PrivateKey.{contains}

-- What the middleware reads of an ASGI scope.
pub record Scope : Type 0 where
  pub is_http : Bool
  pub method : Text
  pub path : Text
  pub headers : List (Bytes × Bytes)

pub record Authority : Type 0 where
  pub scheme : Text
  pub host : Text
  pub port : ℕ

-- The attributes of what `urlsplit` returns; `port` is none where it is None.
pub record SplitUrl : Type 0 where
  pub scheme : Text
  pub netloc : Text
  pub path : Text
  pub query : Text
  pub fragment : Text
  pub hostname : Option Text
  pub username : Option Text
  pub password : Option Text
  pub port : Option ℕ

-- `lower` of Python on bytes, and on text that is ASCII.
unfoldable pub lower_char : ℕ → ℕ
lower_char c = if leb 65 c && leb c 90 then c + 32 else c

unfoldable pub lower : Text → Text
lower [] = []
lower (c ∷ cs) = lower_char c ∷ lower cs

-- The characters whose upper case is in ASCII: the letters, and beyond ASCII the dotless i, the long
-- s, the sharp s and the ligatures. Any other keeps its place, which no test for an ASCII name
-- tells from its upper case.
unfoldable pub upper_char : ℕ → Text
upper_char c =
    if leb 97 c && leb c 122
    then (c - 32) ∷ []
    else if c == 305
    then codes "I"
    else if c == 383
    then codes "S"
    else if c == 223
    then codes "SS"
    else if c == 64256
    then codes "FF"
    else if c == 64257
    then codes "FI"
    else if c == 64258
    then codes "FL"
    else if c == 64259
    then codes "FFI"
    else if c == 64260
    then codes "FFL"
    else if c == 64261 || c == 64262
    then codes "ST"
    else c ∷ []

unfoldable pub upper : Text → Text
upper [] = []
upper (c ∷ cs) = upper_char c ++ upper cs

unfoldable pub all_decimal : Text → Bool
all_decimal [] = true
all_decimal (c ∷ cs) = leb 48 c && leb c 57 && all_decimal cs

-- `isascii` and `isdecimal`, then `int`, which by default refuses more than 4300 digits.
unfoldable pub decimal_number : Text → Option ℕ
decimal_number t =
    if is_empty t || not (all_decimal t) || ltb 4300 (length t) then none else number_from 0 t

unfoldable pub valid_port : Option ℕ → Result ℕ
valid_port none = err value_error
valid_port (some port) = if leb 1 port && leb port 65535 then ok port else err value_error

unfoldable pub configured_port : Text → Result ℕ
configured_port value = valid_port (decimal_number value)

abbrev pub local_host : Text
local_host = codes "127.0.0.1"

unfoldable pub local_authority : ℕ → Authority
local_authority port = record { scheme = codes "http"; host = local_host; port = port }

unfoldable pub allowed_browser_authorities : ℕ → Bool → List Authority
allowed_browser_authorities app_port enable_vite_dev =
    local_authority app_port ∷ (if enable_vite_dev then local_authority 4001 ∷ [] else [])

-- The values of a header, whose name is compared in lower case.
unfoldable pub header_values : Bytes → List (Bytes × Bytes) → List Text
header_values name [] = []
header_values name ((n, value) ∷ rest) =
    let values = header_values name rest in
    if list_eq (lower n) name then value ∷ values else values

unfoldable pub header_value : Scope → Bytes → Option Text
header_value scope name = elim (header_values name scope.headers) [ [] ↦ none | v ∷ vs ↦ some v ]

-- `_DuplicateHeaderError`, which is raised for a header that is repeated, is a `value_error` here.
unfoldable pub single : List Text → Result (Option Text)
single [] = ok none
single (v ∷ []) = ok (some v)
single (v ∷ w ∷ vs) = err value_error

unfoldable pub single_header_value : Scope → Bytes → Result (Option Text)
single_header_value scope name = single (header_values name scope.headers)

unfoldable pub all_visible : Text → Bool
all_visible [] = true
all_visible (c ∷ cs) = leb 33 c && ltb c 127 && all_visible cs

unfoldable pub is_ascii_authority : Text → Bool
is_ascii_authority value =
    not (is_empty value) && not (contains 63 value) && not (contains 35 value) && all_visible value

unfoldable pub port_or_80 : Option ℕ → ℕ
port_or_80 none = 80
port_or_80 (some port) = port

abbrev pub is_none : Option Text → Bool
is_none none = true
is_none (some t) = false

-- The host and the port of a URL that is nothing but a scheme, a host and a port.
unfoldable pub bare_authority : Text → SplitUrl → Option (Text × ℕ)
bare_authority scheme u =
    if list_eq scheme (codes "http")
      && not (is_empty u.netloc)
      && is_none u.username
      && is_none u.password
      && is_empty u.path
      && is_empty u.query
      && is_empty u.fragment
      && leb 1 (port_or_80 u.port)
      && leb (port_or_80 u.port) 65535
    then and_then u.hostname (λ host. some (lower host, port_or_80 u.port))
    else none

abbrev pub http_authority : Text × ℕ → Authority
http_authority (host, port) = record { scheme = codes "http"; host = host; port = port }

-- `urlsplit` gives none where it, or an attribute, raises `ValueError`.
module _ (urlsplit : Text → Option SplitUrl) where
  unfoldable pub parse_origin : Text → Option Authority
  parse_origin value =
      if is_ascii_authority value
      then and_then (urlsplit value)
          (λ u. and_then (bare_authority (lower u.scheme) u) (λ a. some (http_authority a)))
      else none

  unfoldable pub parse_host_authority : Text → Option (Text × ℕ)
  parse_host_authority value =
      if is_ascii_authority value && not (list_eq (lower value) (codes "null"))
      then and_then (urlsplit (codes "http://" ++ value)) (λ u. bare_authority u.scheme u)
      else none
