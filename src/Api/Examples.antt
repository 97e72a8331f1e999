-- ===== src/Api/Examples.antt =====
-- A request to the API of a server on port 4000, and a body in three messages.
use quantum_encryptor.Prelude.{
  ◌≡◌, refl, true, Option, none, some, List, [], ◌∷◌, ◌+◌, Text, codes, arith, list_eq, one_of, leb,
  All, Bytes, if◌then◌else◌,
}
use quantum_encryptor.Prelude.Strings.{starts_with}
use quantum_encryptor.Failure.{ok, err}
use quantum_encryptor.PrivateKey.{contains}
use quantum_encryptor.Api.{
  Scope, Authority, SplitUrl, lower_char, lower, upper_char, upper, local_host, header_values,
  single, single_header_value, all_visible, is_ascii_authority, port_or_80, bare_authority,
  parse_origin, parse_host_authority,
}
use quantum_encryptor.Api.Guard.{
  same_authority, is_allowed, or_missing, is_state_changing_api, host_authority, allowed_host,
  allowed_origin, origin_of, validate_request_authorities, cookie_value, request_token,
  has_valid_local_api_token, local_api_guard,
}
use quantum_encryptor.Api.Limits.{request_too_large, receive_all}
use quantum_encryptor.Api.Passed.{HasPassed, local_api_guard-HasPassed}
use quantum_encryptor.Api.Headers.{with_security_headers}
use quantum_encryptor.Api.Uncached.{with_security_headers-uncached}
use quantum_encryptor.Api.Hardened.{with_security_headers-All}
use quantum_encryptor.Api.Headers.{security_headers, has_header}
use quantum_encryptor.Api.Bounded.{sum, receive_all-eq_if}

-- What `urlsplit` gives for the address of the server.
abbrev local_url : SplitUrl
local_url = record {
  scheme = codes "http";
  netloc = codes "127.0.0.1:4000";
  path = [];
  query = [];
  fragment = [];
  hostname = some local_host;
  username = none;
  password = none;
  port = some 4000;
}

abbrev split_local : Text → Option SplitUrl
split_local t = if list_eq t (codes "http://127.0.0.1:4000") then some local_url else none

abbrev cookie_of_token : Text → Text → Option Text
cookie_of_token header name =
    if list_eq name (codes "qe_api_token") then some (codes "secret") else none

abbrev post : Scope
post = record {
  is_http = true;
  method = codes "POST";
  path = codes "/api/keys/generate";
  headers =
      (codes "Host", codes "127.0.0.1:4000")
      ∷ (codes "Origin", codes "http://127.0.0.1:4000")
      ∷ (codes "Cookie", codes "qe_api_token=secret")
      ∷ [];
}

abbrev allowed : List Authority
allowed = record { scheme = codes "http"; host = local_host; port = 4000 } ∷ []

passes : local_api_guard split_local cookie_of_token allowed (codes "secret") post ≡ ok tt
unfolding local_api_guard is_state_changing_api upper upper_char starts_with one_of list_eq
    validate_request_authorities allowed_host host_authority or_missing single_header_value single
    header_values lower lower_char parse_host_authority is_ascii_authority contains all_visible
    bare_authority port_or_80 is_allowed same_authority origin_of allowed_origin parse_origin
    has_valid_local_api_token request_token cookie_value
passes = refl

changes : is_state_changing_api post ≡ true
unfolding is_state_changing_api upper upper_char starts_with one_of list_eq
changes = refl

local_api_guard-HasPassed_example :
    HasPassed split_local cookie_of_token allowed (codes "secret") post
local_api_guard-HasPassed_example =
    local_api_guard-HasPassed split_local cookie_of_token allowed (codes "secret") post refl changes
      passes

receive_all-eq_if_example : receive_all 10 2 (3 ∷ 4 ∷ 5 ∷ []) ≡ (
    if leb (2 + sum (3 ∷ 4 ∷ 5 ∷ [])) 10
    then ok (2 + sum (3 ∷ 4 ∷ 5 ∷ []))
    else err request_too_large)
receive_all-eq_if_example = receive_all-eq_if 10 2 (3 ∷ 4 ∷ 5 ∷ []) (omega arith)

-- What an application that lets its answer be cached has set.
abbrev cached : List (Bytes × Bytes)
cached =
    (codes "Cache-Control", codes "public")
    ∷ (codes "X-Frame-Options", codes "SAMEORIGIN")
    ∷ (codes "content-type", codes "text/html")
    ∷ []

is_api : starts_with (codes "/api/") (codes "/api/config") ≡ true
unfolding starts_with list_eq
is_api = refl

with_security_headers-All_example :
    All
      (λ h. has_header h.0 (with_security_headers (codes "/api/config") 200 cached) ≡ true)
      security_headers
with_security_headers-All_example = with_security_headers-All (codes "/api/config") 200 cached

with_security_headers-uncached_example :
    (header_values (codes "cache-control") (with_security_headers (codes "/api/config") 200 cached)
      ≡ codes "no-store" ∷ [])
    × (header_values (codes "pragma") (with_security_headers (codes "/api/config") 200 cached)
        ≡ codes "no-cache" ∷ [])
with_security_headers-uncached_example =
    with_security_headers-uncached (codes "/api/config") 200 cached is_api
