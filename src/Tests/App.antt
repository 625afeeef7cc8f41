-- ===== src/Tests/App.antt =====
-- A request that runs through the gateway, one without a token, and a service that recovers.
use bankos.Prelude.{
  ℕ, ◌+◌, ◌<◌, ◌≡◌, zero, suc, String, refl, true, false, Option, none, some, [], ◌∷◌, ◌===◌, ◌||◌,
  if◌then◌else◌, includes, arith, ltb,
}
use bankos.Gateway.App.{
  GatewayRequest, GatewayConfig, Platform, answer, forward, process, check_origin, check_method,
  parse_body, check_content, route, after_auth, proxy_route, health_route, or_pass, or_route,
  cors_refusal,
}
use bankos.Gateway.App.Admission.{process-IsTrusted}
use bankos.Gateway.App.Anonymous.{process_refuses_anonymous}
use bankos.Gateway.Auth.{
  GatewayClaims, role_list, Verified, decoded, json_web_token_error, user_id_of, set_user_id,
  set_roles, inject, admit, check_parts, check_header, authenticate,
}
use bankos.Gateway.Auth.Trust.{IsTrusted}
use bankos.Gateway.Correlation.{is_uuid_v4, fits, is_hex, is_variant, correlation_id, choose_id}
use bankos.Gateway.Proxy.{identity, service_for, prefix, proxy_headers}
use bankos.Gateway.Resilience.{ProxyError, RetryConfig, handle, is_refused, is_text}
use bankos.Gateway.Resilience.Recovery.{handle_recovers, before_attempt}
use bankos.Gateway.Errors.{says}
use bankos.Gateway.Security.{
  cors_origin, supported_methods, validate_http_method, validate_content_type, is_supported_content,
  sanitize_headers, delete_truthy,
}
use bankos.Http.{Headers, header, delete_header, set_header, is_truthy}
use bankos.Text.{split_spaces, grow_first, join_commas, contains, starts_with}

abbrev claims : GatewayClaims
claims = record { sub = some "u1"; user_id = none; roles = role_list ("user" ∷ []) }

abbrev verify : String → Verified
verify token = if token === "good" then decoded claims else json_web_token_error

abbrev platform : Platform
platform = record {
  uuid_v4 = "123e4567-e89b-42d3-a456-426614174000";
  exceeded = λ options request. false;
  is_preflight = λ request. request.method === "OPTIONS";
  parse_error = λ request. none;
  gets = λ pattern request. pattern === request.path;
  under = λ prefix path. starts_with path prefix;
  verify = verify;
}

abbrev config : GatewayConfig
config = record {
  allowed_origins = "http://localhost:3000" ∷ [];
  app_version = none;
  app_build_commit = none;
}

abbrev forged : Headers
forged = ("x-user-roles", "admin") ∷ ("connection", "close") ∷ ("authorization", "Bearer good") ∷ []

abbrev forged_request : GatewayRequest
forged_request = record {
  method = "GET";
  path = "/api/v1/auth/sessions";
  url = "/api/v1/auth/sessions";
  headers = forged;
}

abbrev forwarded : Headers
forwarded =
    ("x-correlation-id", "123e4567-e89b-42d3-a456-426614174000")
    ∷ ("x-authenticated-user", "true")
    ∷ ("x-user-roles", "user")
    ∷ ("x-user-id", "u1")
    ∷ ("authorization", "Bearer good")
    ∷ []

uuid_valid : is_uuid_v4 platform.uuid_v4 ≡ true
unfolding is_uuid_v4 fits is_hex is_variant
uuid_valid = refl

forged_forwarded : process platform config forged_request ≡ forward identity forwarded
unfolding process check_origin check_method parse_body check_content route after_auth proxy_route
    health_route or_pass or_route cors_refusal authenticate check_header check_parts admit inject
    set_roles set_user_id user_id_of sanitize_headers delete_truthy header delete_header set_header
    is_truthy split_spaces grow_first join_commas cors_origin validate_http_method
    validate_content_type is_supported_content correlation_id choose_id service_for prefix
    proxy_headers starts_with
forged_forwarded = refl

process-IsTrusted_example :
    (includes supported_methods "GET" ≡ true)
    × (service_for platform.under "/api/v1/auth/sessions" ≡ some identity)
    × ((auth : String) × (token : String) × (claims : GatewayClaims) × (header "authorization"
            (sanitize_headers forged)
          ≡ some auth)
        × (split_spaces auth ≡ "Bearer" ∷ token ∷ [])
        × (verify token ≡ decoded claims)
        × IsTrusted claims forwarded)
    × ((id : String) × (header "x-correlation-id" forwarded ≡ some id) × (is_uuid_v4 id ≡ true))
process-IsTrusted_example =
    process-IsTrusted identity forwarded platform config forged_request uuid_valid forged_forwarded

abbrev login_request : GatewayRequest
login_request = record {
  method = "POST";
  path = "/api/v1/auth/login";
  url = "/api/v1/auth/login";
  headers = ("content-type", "application/json") ∷ [];
}

no_header : header "authorization" login_request.headers ≡ none
unfolding header
no_header = refl

no_origin : cors_origin config.allowed_origins (header "origin" login_request.headers) ≡ some true
unfolding cors_origin header is_truthy
no_origin = refl

posts : validate_http_method "POST" ≡ none
unfolding validate_http_method
posts = refl

json : validate_content_type "POST" login_request.headers ≡ none
unfolding validate_content_type is_supported_content header contains starts_with
json = refl

no_health : health_route platform config login_request ≡ none
unfolding health_route
no_health = refl

process_refuses_anonymous_example :
    process platform config login_request
    ≡ answer
        (record { status = 401; error = "Unauthorized"; message = "Missing Authorization header." })
process_refuses_anonymous_example =
    process_refuses_anonymous platform config login_request no_header refl no_origin refl posts refl
      json no_health

abbrev retries : RetryConfig
retries = record { retry_count = some 3; retry_delay_ms = 1000 }

abbrev timeout : ProxyError
timeout = record { error_type = some "timeout"; code = none; message = none }

-- A service that fails twice; the calls and the milliseconds waited so far.
abbrev Counters : Type 0
Counters = ℕ × ℕ

abbrev fire : Counters → Option ProxyError × Counters
fire s = (if ltb s.0 2 then some timeout else none, (suc s.0, s.1))

abbrev sleep : ℕ → Counters → Counters
sleep ms s = (s.0, s.1 + ms)

not_refused : is_refused timeout ≡ false
unfolding is_refused is_text says
not_refused = refl

fails_twice :
    (i : ℕ)
    → i < 2
    → (e : ProxyError) × ((fire (before_attempt retries fire (λ s. false) sleep 0 i (0, 0))).0
        ≡ some e)
      × ((is_refused e || false) ≡ false)
unfolding before_attempt is_refused is_text says
fails_twice zero less = (timeout, refl, refl)
fails_twice (suc zero) less = (timeout, refl, refl)
fails_twice (suc (suc i)) less = let absurd : ⊥ = omega (arith, less) in elim absurd [ ]

works_then : (fire (before_attempt retries fire (λ s. false) sleep 0 2 (0, 0))).0 ≡ none
unfolding before_attempt
works_then = refl

handle_recovers_example :
    handle retries fire (λ s. false) sleep "identity" "GET" (0, 0)
    ≡ (none, (fire (before_attempt retries fire (λ s. false) sleep 0 2 (0, 0))).1)
handle_recovers_example =
    handle_recovers retries fire (λ s. false) sleep "identity" "GET" 2 3 (0, 0) refl (omega arith)
      fails_twice works_then
