-- ===== src/Api/Limits.antt =====
-- api_app.py: the limits on the bodies of requests.
use quantum_encryptor.Prelude.{
  ℕ, ◌+◌, ◌*◌, ◌-◌, Bool, ◌&&◌, ◌||◌, not, Option, none, some, List, [], ◌∷◌, Text, codes, length,
  drop, list_eq, one_of, ltb, leb, if◌then◌else◌,
}
use quantum_encryptor.Prelude.Strings.{starts_with}
use quantum_encryptor.Config.{max_pem_bytes, max_file_bytes, max_encrypted_file_bytes}
use quantum_encryptor.Failure.{Failure, Result, ok, err, ensure, job_error, ◌>>=◌, ◌>>◌}
use quantum_encryptor.Jobs.{encrypted_limit}
use quantum_encryptor.Api.{Scope, upper, decimal_number, single_header_value}

abbrev pub multipart_overhead_bytes : ℕ
multipart_overhead_bytes = 1024 * 1024

abbrev pub small_form_max_bytes : ℕ
small_form_max_bytes = 64 * 1024

unfoldable pub ends_with : Text → Text → Bool
ends_with suffix t =
    leb (length suffix) (length t) && list_eq (drop (length t - length suffix) t) suffix

-- `_api_body_limit`; none where the API has no such path.
unfoldable pub api_body_limit : Text → Result (Option ℕ)
api_body_limit path =
    if starts_with (codes "/api/jobs/") path && ends_with (codes "/upload") path
    then (encrypted_limit >>= λ n. ok (some n))
    else if starts_with (codes "/api/jobs/") path && ends_with (codes "/start") path
    then ok (some (max_pem_bytes + small_form_max_bytes))
    else if list_eq path (codes "/api/jobs") || starts_with (codes "/api/jobs/") path
    then ok (some small_form_max_bytes)
    else if list_eq path (codes "/api/keys/generate")
    then ok (some small_form_max_bytes)
    else if one_of path (codes "/api/keys/inspect" ∷ codes "/api/keys/change-password" ∷ [])
    then ok (some (max_pem_bytes + multipart_overhead_bytes))
    else if list_eq path (codes "/api/keys/recover-public")
    then ok (some (2 * max_pem_bytes + multipart_overhead_bytes))
    else if list_eq path (codes "/api/files/inspect")
    then ok (some (max_encrypted_file_bytes + multipart_overhead_bytes))
    else if list_eq path (codes "/api/files/encrypt")
    then ok (some (max_file_bytes + max_pem_bytes + multipart_overhead_bytes))
    else if one_of path (codes "/api/files/decrypt" ∷ codes "/api/files/verify" ∷ [])
    then ok (some (max_encrypted_file_bytes + max_pem_bytes + multipart_overhead_bytes))
    else ok none

-- A length that is repeated or no decimal number is invalid.
unfoldable pub declared_length : Result (Option Text) → Result ℕ
declared_length (err e) = err (job_error 400 (codes "invalid_content_length"))
declared_length (ok none) = err (job_error 411 (codes "length_required"))
declared_length (ok (some value)) = elim (decimal_number value) [
  | none ↦ err (job_error 400 (codes "invalid_content_length"))
  | some n ↦ ok n
]

abbrev pub request_too_large : Failure
request_too_large = job_error 413 (codes "request_too_large")

-- The limit for a body, where there is one, after the checks of its declared length.
unfoldable pub checked_limit : Scope → Option ℕ → Result (Option ℕ)
checked_limit scope none = ok none
checked_limit scope (some limit) =
    if one_of (upper scope.method) (codes "POST" ∷ codes "PUT" ∷ codes "PATCH" ∷ [])
    then (declared_length (single_header_value scope (codes "content-length")) >>= λ n.
        ensure (not (ltb limit n)) request_too_large >> ok (some limit))
    else ok none

unfoldable pub admitted_limit : Scope → Result (Option ℕ)
admitted_limit scope =
    if scope.is_http then (api_body_limit scope.path >>= checked_limit scope) else ok none

-- The messages that `limited_receive` passes on: the count of the bytes of bodies so far, and
-- `RequestBodyTooLarge` once they are above the limit.
unfoldable pub limited_receive : ℕ → ℕ → ℕ → Result ℕ
limited_receive limit received more =
    if ltb limit (received + more) then err request_too_large else ok (received + more)

unfoldable pub receive_all : ℕ → ℕ → List ℕ → Result ℕ
receive_all limit received [] = ok received
receive_all limit received (more ∷ rest) = do
  total ← limited_receive limit received more
  receive_all limit total rest
