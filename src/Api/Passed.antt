-- ===== src/Api/Passed.antt =====
-- What a request that the guard lets through to the API has shown.
use quantum_encryptor.Prelude.{
  ◌≡◌, refl, sym, ap, ◌⊎◌, inl, inr, Bool, true, false, ◌&&◌, ◌||◌, not, Option, none, some, List,
  Text, arith, codes, list_eq→eq, if◌then◌else◌,
}
use mathlib.Core.Path.{subst}
use quantum_encryptor.Failure.{Result, ok, err, ensure-eq_ok, if-eq_ok, bind_ok}
use quantum_encryptor.Api.{Scope, Authority, SplitUrl, single_header_value, parse_origin}
use quantum_encryptor.Api.Guard.{
  same_authority, is_allowed, is_state_changing_api, host_authority, allowed_host, allowed_origin,
  origin_of, validate_request_authorities, cookie_value, request_token, has_valid_local_api_token,
  explicit_token, local_api_guard, missing_api_token,
}

both : (a b : Bool) → (a && b) ≡ true → (a ≡ true) × (b ≡ true)
both a b h = ground arith

not_skipped :
    {A : Type 0} (a b : Bool) (x : A) {y z : A}
    → a ≡ true
    → b ≡ true
    → (if not a || not b then x else y) ≡ z
    → y ≡ z
not_skipped true true x h k e = e
not_skipped false b x h k e = cc
not_skipped true false x h k e = cc

module _ (urlsplit : Text → Option SplitUrl) (jar_value : Text → Text → Option Text)
    (allowed : List Authority) (local_api_token : Text) where
  -- The one Origin of a request names the authority of its Host.
  pub record IsSameOrigin (scope : Scope) (host : Authority) : Type 0 where
    pub value : Text
    pub origin : Authority
    pub header : single_header_value scope (codes "origin") ≡ ok (some value)
    pub parsed : parse_origin urlsplit value ≡ some origin
    pub is_local : is_allowed allowed origin ≡ true
    pub same : same_authority origin host ≡ true

  -- What the guard has seen: one allowed Host; no Origin, or one that is the same; and the token, in
  -- its header, or with an Origin in the cookie where there is no such header.
  pub record HasPassed (scope : Scope) : Type 0 where
    pub host : Authority
    pub from_host : host_authority urlsplit jar_value allowed local_api_token scope ≡ some host
    pub is_local : is_allowed allowed host ≡ true
    pub from_origin :
        (single_header_value scope (codes "origin") ≡ ok none) ⊎ IsSameOrigin scope host
    pub from_token :
        (explicit_token urlsplit jar_value allowed local_api_token scope
          ≡ ok (some local_api_token))
        ⊎ ((explicit_token urlsplit jar_value allowed local_api_token scope ≡ ok none)
            × IsSameOrigin scope host
            × (cookie_value urlsplit jar_value allowed local_api_token scope (codes "qe_api_token")
                ≡ some local_api_token))

  allowed_host-eq_ok :
      (o : Option Authority) {host : Authority}
      → allowed_host urlsplit jar_value allowed local_api_token o ≡ ok host
      → (o ≡ some host) × (is_allowed allowed host ≡ true)
  unfolding allowed_host
  allowed_host-eq_ok none h = cc
  allowed_host-eq_ok (some a) h =
      let (local, same) = if-eq_ok (is_allowed allowed a) a _ h in
      (ap (λ x. some x) same, subst (λ x. is_allowed allowed x ≡ true) same local)

  allowed_origin-eq_ok :
      (host : Authority) (o : Option Authority) {valid : Bool}
      → allowed_origin urlsplit jar_value allowed local_api_token host o ≡ ok valid
      → (valid ≡ true)
        × (origin : Authority) × (o ≡ some origin)
        × (is_allowed allowed origin ≡ true)
        × (same_authority origin host ≡ true)
  unfolding allowed_origin
  allowed_origin-eq_ok host none h = cc
  allowed_origin-eq_ok host (some a) h =
      let (tested, same) = if-eq_ok (is_allowed allowed a && same_authority a host) true _ h in
      let (local, equal) = both (is_allowed allowed a) (same_authority a host) tested in
      (sym same, a, refl, local, equal)

  origin_of-eq_ok :
      (scope : Scope) (host : Authority) (o : Result (Option Text)) {valid : Bool}
      → single_header_value scope (codes "origin") ≡ o
      → origin_of urlsplit jar_value allowed local_api_token host o ≡ ok valid
      → ((valid ≡ false) × (o ≡ ok none)) ⊎ ((valid ≡ true) × IsSameOrigin scope host)
  unfolding origin_of
  origin_of-eq_ok scope host (err e) there h = cc
  origin_of-eq_ok scope host (ok none) there h = inl (cc, refl)
  origin_of-eq_ok scope host (ok (some value)) there h =
      let (valid, origin, parsed, local, same) =
        allowed_origin-eq_ok host (parse_origin urlsplit value) h in
      inr (
        valid,
        record {
          value = value;
          origin = origin;
          header = there;
          parsed = parsed;
          is_local = local;
          same = same;
        },
      )

  token_inv :
      (o : Option Text)
      → has_valid_local_api_token urlsplit jar_value allowed local_api_token o ≡ true
      → o ≡ some local_api_token
  unfolding has_valid_local_api_token
  token_inv none h = cc
  token_inv (some t) h = ap (λ x. some x) (list_eq→eq t local_api_token h)

  -- The token is the header's, or the cookie's of a request with an origin.
  request_token-eq_some :
      (valid : Bool) (scope : Scope) (o : Result (Option Text)) {token : Text}
      → request_token urlsplit jar_value allowed local_api_token valid scope o ≡ some token
      → (o ≡ ok (some token))
        ⊎ ((o ≡ ok none)
            × (valid ≡ true)
            × (cookie_value urlsplit jar_value allowed local_api_token scope (codes "qe_api_token")
                ≡ some token))
  unfolding request_token
  request_token-eq_some valid scope (err e) h = cc
  request_token-eq_some valid scope (ok (some t)) h = inl (ap (λ x. ok x) h)
  request_token-eq_some true scope (ok none) h = inr (refl, refl, h)
  request_token-eq_some false scope (ok none) h = cc

  -- For a request over HTTP to the API by a method that changes state: when the guard lets it
  -- through, it has one allowed Host, no Origin or the one of the same authority, and the token of
  -- this process, explicitly or in the cookie of a request with such an Origin.
  pub local_api_guard-HasPassed :
      (scope : Scope)
      → scope.is_http ≡ true
      → is_state_changing_api scope ≡ true
      → local_api_guard urlsplit jar_value allowed local_api_token scope ≡ ok tt
      → HasPassed scope
  unfolding local_api_guard validate_request_authorities
  local_api_guard-HasPassed scope http changing h =
      let validated =
        validate_request_authorities urlsplit jar_value allowed local_api_token scope in
      let explicit = explicit_token urlsplit jar_value allowed local_api_token scope in
      let guarded =
        not_skipped scope.is_http (is_state_changing_api scope) (ok tt) http changing h in
      let (valid, authorities, e) = bind_ok validated _ guarded in
      let (host, from_host, e2) =
        bind_ok
          (allowed_host urlsplit jar_value allowed local_api_token
            (host_authority urlsplit jar_value allowed local_api_token scope))
          _ authorities in
      let (named, local) = allowed_host-eq_ok _ from_host in
      let origin =
        origin_of-eq_ok scope host (single_header_value scope (codes "origin")) refl e2 in
      let shown = request_token urlsplit jar_value allowed local_api_token valid scope explicit in
      let token = token_inv shown (
        ensure-eq_ok (has_valid_local_api_token urlsplit jar_value allowed local_api_token shown)
          missing_api_token e) in
      record {
        host = host;
        from_host = named;
        is_local = local;
        from_origin = elim origin [
          | inl (invalid, absent) ↦ inl absent
          | inr (ok_origin, there) ↦ inr there
        ];
        from_token = elim (request_token-eq_some valid scope explicit token) [
          | inl there ↦ inl there
          | inr (absent, is_valid, cookie) ↦ elim origin [
            | inl (invalid, no_origin) ↦ absurd (clash valid is_valid invalid)
            | inr (ok_origin, there) ↦ inr (absent, there, cookie)
          ]
        ];
      }
    where
      clash : (b : Bool) → b ≡ true → b ≡ false → ⊥
      clash b x y = cc
