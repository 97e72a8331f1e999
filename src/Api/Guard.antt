-- ===== src/Api/Guard.antt =====
-- api_app.py: `LocalApiGuardMiddleware`, which requests that change state go through.
use quantum_encryptor.Prelude.{
  Bool, true, false, ◌&&◌, ◌||◌, not, Option, none, some, List, [], ◌∷◌, Text, codes, is_empty,
  list_eq, one_of, ◌==◌, and_then, if◌then◌else◌,
}
use quantum_encryptor.Prelude.Strings.{starts_with}
use quantum_encryptor.Failure.{Failure, Result, ok, err, ensure, job_error, ◌>>=◌}
use quantum_encryptor.Api.{
  Scope, Authority, SplitUrl, upper, single_header_value, parse_origin, parse_host_authority,
  http_authority,
}

unfoldable pub same_authority : Authority → Authority → Bool
same_authority a b = list_eq a.scheme b.scheme && list_eq a.host b.host && a.port == b.port

unfoldable pub is_allowed : List Authority → Authority → Bool
is_allowed [] a = false
is_allowed (b ∷ bs) a = same_authority a b || is_allowed bs a

-- `ApiError`, with its status and its code.
abbrev pub forbidden_host : Failure
forbidden_host = job_error 403 (codes "forbidden_host")

abbrev pub forbidden_origin : Failure
forbidden_origin = job_error 403 (codes "forbidden_origin")

abbrev pub missing_api_token : Failure
missing_api_token = job_error 403 (codes "missing_api_token")

-- A header that is repeated counts as missing.
unfoldable pub or_missing : Result (Option Text) → Option Text
or_missing (err e) = none
or_missing (ok o) = o

unfoldable pub is_state_changing_api : Scope → Bool
is_state_changing_api scope =
    one_of (upper scope.method) (codes "POST" ∷ codes "PUT" ∷ codes "PATCH" ∷ codes "DELETE" ∷ [])
    && starts_with (codes "/api/") scope.path

-- `jar_value` is what the cookie parser gives for a header and a name: none where it raises, or
-- where there is no such cookie.
module _ (urlsplit : Text → Option SplitUrl) (jar_value : Text → Text → Option Text)
    (allowed : List Authority) (local_api_token : Text) where
  unfoldable pub host_authority : Scope → Option Authority
  host_authority scope =
      and_then (or_missing (single_header_value scope (codes "host")))
        (λ value. and_then (parse_host_authority urlsplit value) (λ a. some (http_authority a)))

  unfoldable pub allowed_host : Option Authority → Result Authority
  allowed_host none = err forbidden_host
  allowed_host (some a) = if is_allowed allowed a then ok a else err forbidden_host

  unfoldable pub allowed_origin : Authority → Option Authority → Result Bool
  allowed_origin host none = err forbidden_origin
  allowed_origin host (some origin) =
      if is_allowed allowed origin && same_authority origin host
      then ok true
      else err forbidden_origin

  unfoldable pub origin_of : Authority → Result (Option Text) → Result Bool
  origin_of host (err e) = err forbidden_origin
  origin_of host (ok none) = ok false
  origin_of host (ok (some value)) = allowed_origin host (parse_origin urlsplit value)

  -- Whether there is a valid origin, or the error.
  unfoldable pub validate_request_authorities : Scope → Result Bool
  validate_request_authorities scope = do
    host ← allowed_host (host_authority scope)
    origin_of host (single_header_value scope (codes "origin"))

  unfoldable pub cookie_value : Scope → Text → Option Text
  cookie_value scope name =
      and_then (or_missing (single_header_value scope (codes "cookie")))
        (λ header. if is_empty header then none else jar_value header name)

  -- The header, and the cookie only where the header is missing and the origin is valid.
  unfoldable pub request_token : Bool → Scope → Result (Option Text) → Option Text
  request_token has_valid_origin scope (err e) = none
  request_token has_valid_origin scope (ok (some token)) = some token
  request_token has_valid_origin scope (ok none) =
      if has_valid_origin then cookie_value scope (codes "qe_api_token") else none

  -- The texts are compared as UTF-8. A header is decoded from Latin-1, so it can be encoded.
  unfoldable pub has_valid_local_api_token : Option Text → Bool
  has_valid_local_api_token none = false
  has_valid_local_api_token (some token) = list_eq token local_api_token

  abbrev pub explicit_token : Scope → Result (Option Text)
  explicit_token scope = single_header_value scope (codes "x-quantum-encryptor-token")

  -- The middleware calls the application where this returns, and answers with the error else.
  unfoldable pub local_api_guard : Scope → Result (Unit {0})
  local_api_guard scope =
      if not scope.is_http || not (is_state_changing_api scope)
      then ok tt
      else (validate_request_authorities scope >>= λ has_valid_origin.
          ensure
            (has_valid_local_api_token
              (request_token has_valid_origin scope (explicit_token scope)))
            missing_api_token)
