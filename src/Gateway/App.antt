-- ===== src/Gateway/App.antt =====
-- app.ts, health/health.routes.ts and middlewares/rateLimit.ts: the middlewares of the gateway in the
-- order in which a request runs through them. express, its router and body parsers, cors,
-- express-rate-limit, uuid and jsonwebtoken are parameters. helmet, morgan and the metrics read the
-- request or set headers of the response, and decide nothing.
pub mod Admission
pub mod Anonymous
use mathlib.Core.Option
use bankos.Prelude.{ℕ, String, Bool, true, false, Option, none, some, List, if◌then◌else◌, ◌===◌}
use bankos.Gateway.Auth.{Verified, Passed, next, respond, authenticate}
use bankos.Gateway.Correlation.{correlation_id}
use bankos.Gateway.Errors.{answer_error, not_found}
use bankos.Gateway.Proxy.{Service, service_for, proxy_headers}
use bankos.Gateway.Security.{
  cors_origin, validate_http_method, validate_content_type, sanitize_headers,
}
use bankos.Http.{Headers, header, is_truthy, Answer}

pub record GatewayRequest : Type 0 where
  pub method : String
  pub path : String
  pub url : String
  pub headers : Headers

pub record RateLimitOptions : Type 0 where
  pub window_ms : ℕ
  pub max : ℕ

-- 15 * 60 * 1000, and 100 requests in that time.
abbrev pub rate_limit_options : RateLimitOptions
rate_limit_options = record { window_ms = 900000; max = 100 }

pub record GatewayConfig : Type 0 where
  pub allowed_origins : List String
  pub app_version : Option String
  pub app_build_commit : Option String

-- What the packages decide about the request at hand.
pub record Platform : Type 0 where
  -- `uuidv4()`
  pub uuid_v4 : String
  -- Whether the limiter has counted too many requests of the client.
  pub exceeded : RateLimitOptions → GatewayRequest → Bool
  -- Whether cors answers the request itself, as a preflight.
  pub is_preflight : GatewayRequest → Bool
  -- The error of `express.json` or `express.urlencoded`, with its message.
  pub parse_error : GatewayRequest → Option (Option String)
  -- Whether `router.get(pattern)` takes the request.
  pub gets : (pattern : String) → GatewayRequest → Bool
  -- Whether `router.use(prefix)` takes the path.
  pub under : (prefix path : String) → Bool
  pub verify : String → Verified

pub data Outcome : Type 0 where
  answer : Answer → Outcome
  preflight : Outcome
  -- A JSON answer with one field.
  report : ℕ → (field value : String) → Outcome
  metrics : Outcome
  forward : Service → Headers → Outcome

-- `value || fallback`
unfoldable pub or_default : Option String → String → String
or_default none fallback = fallback
or_default (some value) fallback = if is_truthy (some value) then value else fallback

abbrev pub too_many_requests : Answer
too_many_requests = record {
  status = 429;
  error = "Too Many Requests";
  message = "Rate limit exceeded. Please try again later.";
}

-- A middleware that answers, or passes the request on.
unfoldable pub or_pass : Option Answer → Outcome → Outcome
or_pass none rest = rest
or_pass (some refusal) rest = answer refusal

unfoldable pub or_route : Option Outcome → Outcome → Outcome
or_route none rest = rest
or_route (some outcome) rest = outcome

-- What becomes of the error that the callback of cors gives.
unfoldable pub cors_refusal : Option Bool → Option Answer
cors_refusal none = some (answer_error (some "Not allowed by CORS"))
cors_refusal (some _) = none

module _ (platform : Platform) (config : GatewayConfig) where
  -- `healthRoutes`: these routes need no token.
  unfoldable pub health_route : GatewayRequest → Option Outcome
  unfolding or_default
  health_route request =
      if platform.gets "/health/live" request
      then some (report 200 "status" "UP")
      else if platform.gets "/health/ready" request
      then some (report 200 "status" "READY")
      else if platform.gets "/version" request
      then some (report 200 "version" (or_default config.app_version "1.0.0-dev"))
      else if platform.gets "/build" request
      then some (report 200 "build" (or_default config.app_build_commit "local-dev"))
      else if platform.gets "/metrics" request
      then some metrics
      else none

  -- `proxyRouter`, and `notFoundMiddleware` behind it.
  unfoldable pub proxy_route :
      GatewayRequest → (correlation : String) → Headers → Option Service → Outcome
  proxy_route request correlation headers none = answer (not_found request.method request.url)
  proxy_route request correlation headers (some service) =
      forward service (proxy_headers correlation headers)

  unfoldable pub after_auth : GatewayRequest → (correlation : String) → Passed → Outcome
  after_auth request correlation (next headers) =
      proxy_route request correlation headers (service_for platform.under request.path)
  after_auth request correlation (respond refusal) = answer refusal

  -- From `healthRoutes` on, with the headers that are left.
  unfoldable pub route : GatewayRequest → (correlation : String) → Headers → Outcome
  unfolding or_route
  route request correlation headers =
      or_route (health_route request)
        (after_auth request correlation (authenticate platform.verify headers))

  unfoldable pub check_content : GatewayRequest → (correlation : String) → Outcome
  unfolding or_pass
  check_content request correlation =
      or_pass (validate_content_type request.method request.headers)
        (route request correlation (sanitize_headers request.headers))

  -- The body parsers pass their errors on to `errorHandlerMiddleware`.
  unfoldable pub parse_body : GatewayRequest → (correlation : String) → Outcome
  unfolding or_pass
  parse_body request correlation =
      or_pass (Option.map answer_error (platform.parse_error request))
        (check_content request correlation)

  unfoldable pub check_method : GatewayRequest → (correlation : String) → Outcome
  unfolding or_pass
  check_method request correlation =
      or_pass (validate_http_method request.method) (parse_body request correlation)

  unfoldable pub check_origin : GatewayRequest → (correlation : String) → Outcome
  unfolding or_pass cors_refusal
  check_origin request correlation =
      or_pass (cors_refusal (cors_origin config.allowed_origins (header "origin" request.headers)))
        (if platform.is_preflight request then preflight else check_method request correlation)

  -- `app`
  unfoldable pub process : GatewayRequest → Outcome
  process request =
      let correlation = correlation_id platform.uuid_v4 request.headers in
      if platform.exceeded rate_limit_options request
      then answer too_many_requests
      else check_origin request correlation
