-- ===== src/Gateway/App/Anonymous.antt =====
-- A request without a token.
use bankos.Prelude.{
  String, ◌≡◌, refl, ◌∙◌, inl, inr, Bool, true, false, none, some, List, [], ◌∷◌, ◌===◌, Bool-cases,
  ===_iff,
}
use bankos.Gateway.App.{
  GatewayRequest, GatewayConfig, Platform, answer, rate_limit_options, or_pass, or_route,
  cors_refusal, health_route, after_auth, route, check_content, parse_body, check_method,
  check_origin, process,
}
use bankos.Gateway.Auth.{authenticate, check_header}
use bankos.Gateway.Security.{
  cors_origin, validate_http_method, validate_content_type, sanitize_headers, delete_truthy,
  disallowed_headers,
}
use bankos.Http.{Headers, header, delete_header, is_truthy, header_delete_same, header_delete_other}

delete_truthy_absent :
    (names : List String) (name : String) (h : Headers)
    → header name h ≡ none
    → header name (delete_truthy names h) ≡ none
unfolding delete_truthy
delete_truthy_absent [] name h absent = absent
delete_truthy_absent (key ∷ names) name h absent = elim (Bool-cases (is_truthy (header key h))) [
  | inl set ↦
      rw set (delete_truthy_absent names name (delete_header key h) (deleted (name === key) refl))
  | inr gone ↦ rw gone (delete_truthy_absent names name h absent)
]
  where
    deleted : (b : Bool) → (name === key) ≡ b → header name (delete_header key h) ≡ none
    deleted true same = rw ((===_iff name key).0 same) (header_delete_same key h)
    deleted false other = header_delete_other name key h other ∙ absent

module _ (platform : Platform) (config : GatewayConfig) (request : GatewayRequest) where
  -- A request without an authorization header, whatever its path, is answered with the status 401 and
  -- not forwarded, where it is within the rate limit, its origin is allowed, it is no preflight, its
  -- method and its content type are supported, its body is parsed and it is for none of the health
  -- routes. So no one can log in, register or recover a password through the gateway without a token.
  pub process_refuses_anonymous :
      header "authorization" request.headers ≡ none
      → platform.exceeded rate_limit_options request ≡ false
      → cors_origin config.allowed_origins (header "origin" request.headers) ≡ some true
      → platform.is_preflight request ≡ false
      → validate_http_method request.method ≡ none
      → platform.parse_error request ≡ none
      → validate_content_type request.method request.headers ≡ none
      → health_route platform config request ≡ none
      → process platform config request
        ≡ answer (record {
          status = 401;
          error = "Unauthorized";
          message = "Missing Authorization header.";
        })
  unfolding process check_origin check_method parse_body check_content route or_pass or_route
      cors_refusal after_auth authenticate check_header sanitize_headers
  process_refuses_anonymous absent few origin asked method parsed typed free =
      rw
        (
          few,
          origin,
          asked,
          method,
          parsed,
          typed,
          free,
          delete_truthy_absent disallowed_headers "authorization" request.headers absent,
        )
        refl
