-- ===== src/Gateway/App/Admission.antt =====
-- Which requests the gateway forwards, and with which headers.
use bankos.Prelude.{
  ℕ, String, ◌≡◌, ◌≢◌, refl, subst, sym, inl, inr, Bool, true, false, Option, none, some, [], ◌∷◌,
  includes, Bool-cases, if◌then◌else◌,
}
use bankos.Gateway.App.{
  GatewayRequest, GatewayConfig, Platform, Outcome, answer, preflight, report, metrics, forward,
  rate_limit_options, or_default, too_many_requests, or_pass, or_route, health_route, proxy_route,
  after_auth, route, check_content, parse_body, check_method, check_origin, process,
}
use bankos.Gateway.Auth.{Passed, GatewayClaims, decoded, next, respond, authenticate}
use bankos.Gateway.Auth.Trust.{IsTrusted, authenticate_trusts}
use bankos.Gateway.Correlation.{is_uuid_v4, correlation_id}
use bankos.Gateway.Proxy.{Service, service_for, proxy_headers}
use bankos.Gateway.Security.{supported_methods, validate_http_method, sanitize_headers}
use bankos.Http.{Headers, Answer, header}
use bankos.Text.{split_spaces}
use bankos.Gateway.Proxy.Carried.{proxy-IsTrusted, uuid_truthy, choose-IsUuid, proxy_correlates}

module _ (service : Service) (h : Headers) where
  or_pass-forward :
      (refusal : Option Answer) (rest : Outcome)
      → or_pass refusal rest ≡ forward service h
      → (refusal ≡ none) × (rest ≡ forward service h)
  unfolding or_pass
  or_pass-forward none rest e = (refl, e)
  or_pass-forward (some refusal) rest e = cc

  -- The outcome does not forward the request.
  abbrev IsAnswered : Option Outcome → Type 0
  IsAnswered o = (outcome : Outcome) → o ≡ some outcome → outcome ≢ forward service h

  or_route-forward :
      (routed : Option Outcome) (rest : Outcome)
      → IsAnswered routed
      → or_route routed rest ≡ forward service h
      → rest ≡ forward service h
  unfolding or_route
  or_route-forward none rest answered e = e
  or_route-forward (some outcome) rest answered e = elim (answered outcome refl e) [ ]

  report-IsAnswered :
      (status : ℕ) (field value : String) → IsAnswered (some (report status field value))
  report-IsAnswered status field value outcome same e = cc

  metrics-IsAnswered : IsAnswered (some metrics)
  metrics-IsAnswered outcome same e = cc

  none-IsAnswered : IsAnswered none
  none-IsAnswered outcome same e = cc

  too_many-differs : answer too_many_requests ≢ forward service h
  too_many-differs e = cc

  preflight-differs : preflight ≢ forward service h
  preflight-differs e = cc

  if-IsAnswered :
      (b : Bool) (o o' : Option Outcome)
      → IsAnswered o
      → IsAnswered o'
      → IsAnswered (if b then o else o')
  if-IsAnswered true o o' first_answers rest_answers = first_answers
  if-IsAnswered false o o' first_answers rest_answers = rest_answers

  if-forward :
      (b : Bool) (outcome rest : Outcome)
      → outcome ≢ forward service h
      → (if b then outcome else rest) ≡ forward service h
      → rest ≡ forward service h
  if-forward true outcome rest differs e = elim (differs e) [ ]
  if-forward false outcome rest differs e = e

  module _ (platform : Platform) (config : GatewayConfig) (request : GatewayRequest) where
    health-IsAnswered : IsAnswered (health_route platform config request)
    unfolding health_route
    health-IsAnswered =
        if-IsAnswered (platform.gets "/health/live" request) (some (report 200 "status" "UP")) _
          (report-IsAnswered 200 "status" "UP")
          (if-IsAnswered (platform.gets "/health/ready" request)
            (some (report 200 "status" "READY")) _ (report-IsAnswered 200 "status" "READY")
            (if-IsAnswered (platform.gets "/version" request) (some (report 200 "version" version))
              _ (report-IsAnswered 200 "version" version)
              (if-IsAnswered (platform.gets "/build" request) (some (report 200 "build" build)) _
                (report-IsAnswered 200 "build" build)
                (if-IsAnswered (platform.gets "/metrics" request) (some metrics) none
                  metrics-IsAnswered none-IsAnswered))))
      where
        version : String
        version = or_default config.app_version "1.0.0-dev"

        build : String
        build = or_default config.app_build_commit "local-dev"

    proxy_route-forward :
        (correlation : String) (headers : Headers) (found : Option Service)
        → proxy_route platform config request correlation headers found ≡ forward service h
        → (found ≡ some service) × (proxy_headers correlation headers ≡ h)
    unfolding proxy_route
    proxy_route-forward correlation headers none e = cc
    proxy_route-forward correlation headers (some found) e = (cc, cc)

    after_auth-forward :
        (correlation : String) (passed : Passed)
        → after_auth platform config request correlation passed ≡ forward service h
        → (headers : Headers) × (passed ≡ next headers)
          × (service_for platform.under request.path ≡ some service)
          × (proxy_headers correlation headers ≡ h)
    unfolding after_auth
    after_auth-forward correlation (next headers) e =
        let (found, same) =
          proxy_route-forward correlation headers (service_for platform.under request.path) e in
        (headers, refl, found, same)
    after_auth-forward correlation (respond refusal) e = cc

    supported :
        validate_http_method request.method ≡ none
        → includes supported_methods request.method ≡ true
    unfolding validate_http_method
    supported e = elim (Bool-cases (includes supported_methods request.method)) [
      | inl listed ↦ listed
      | inr unlisted ↦ let refused = rw unlisted at e in cc
    ]

    -- The request passed every middleware.
    passes :
        process platform config request ≡ forward service h
        → (includes supported_methods request.method ≡ true)
          × (after_auth platform config request
                (correlation_id platform.uuid_v4 request.headers)
                (authenticate platform.verify (sanitize_headers request.headers))
              ≡ forward service h)
    unfolding process check_origin check_method parse_body check_content route
    passes e =
        let within =
          if-forward (platform.exceeded rate_limit_options request) _ _ too_many-differs e in
        let (_, allowed) = or_pass-forward _ _ within in
        let asked = if-forward (platform.is_preflight request) _ _ preflight-differs allowed in
        let (method, known) = or_pass-forward (validate_http_method request.method) _ asked in
        let (_, parsed) = or_pass-forward _ _ known in
        let (_, typed) = or_pass-forward _ _ parsed in
        (supported method, or_route-forward _ _ health-IsAnswered typed)

    -- Where the generator of ids gives UUIDs of version 4: a request that is forwarded has one of the six
    -- methods, goes to the service that its path is mounted for, and has an authorization header of
    -- two parts, `Bearer` and a token that verifies. Of the identity headers that are forwarded with
    -- a value, the user and the roles are those of the token's claims and the request is marked as
    -- authenticated, whatever headers the client sent; and it carries a correlation id that is a
    -- UUID of version 4.
    pub process-IsTrusted :
        is_uuid_v4 platform.uuid_v4 ≡ true
        → process platform config request ≡ forward service h
        → (includes supported_methods request.method ≡ true)
          × (service_for platform.under request.path ≡ some service)
          × ((auth : String) × (token : String) × (claims : GatewayClaims) × (header "authorization"
                  (sanitize_headers request.headers)
                ≡ some auth)
              × (split_spaces auth ≡ "Bearer" ∷ token ∷ [])
              × (platform.verify token ≡ decoded claims)
              × IsTrusted claims h)
          × ((id : String) × (header "x-correlation-id" h ≡ some id) × (is_uuid_v4 id ≡ true))
    unfolding correlation_id
    process-IsTrusted uuid e =
        let (method, forwarded) = passes e in
        let id = correlation_id platform.uuid_v4 request.headers in
        let valid : is_uuid_v4 id ≡ true =
          choose-IsUuid platform.uuid_v4 (header "x-correlation-id" request.headers) uuid in
        let (headers, admitted, mounted, same) = after_auth-forward id _ forwarded in
        let (auth, given, token, parts, claims, verified, trusted) =
          authenticate_trusts platform.verify request.headers headers admitted in
        (
          method,
          mounted,
          (
            auth,
            token,
            claims,
            given,
            parts,
            verified,
            subst (IsTrusted claims) same (proxy-IsTrusted claims id headers trusted),
          ),
          (id, rw (sym same) (proxy_correlates id headers (uuid_truthy id valid)), valid),
        )
