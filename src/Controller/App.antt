-- ===== src/Controller/App.antt =====
-- app.ts and health/health.controller.ts of the identity service: the middlewares in the order in which a
-- request runs through them, and the route that it reaches. express, its router and body parsers and
-- cors are parameters.
pub mod Accepted
pub mod Reaching
use bankos.Prelude.{
  ℕ, String, Bool, true, false, not, ◌&&◌, Option, none, some, List, if◌then◌else◌,
}
use bankos.Controller.Filters.{
  RequestError, answer_request_error, cors_allows, method_allowed, content_type_allowed,
  correlation_id, strip_headers,
}
use bankos.Http.{Headers, header}

pub record IdentityRequest : Type 0 where
  pub method : String
  pub headers : Headers

-- What the packages decide about the request at hand.
pub record IdentityPlatform : Type 0 where
  -- Whether cors answers the request itself, as a preflight.
  pub is_preflight : IdentityRequest → Bool
  -- The error of `express.json` or `express.urlencoded`.
  pub parse_error : IdentityRequest → Option RequestError
  -- Whether `app.get(path)` takes the request.
  pub gets : (path : String) → IdentityRequest → Bool
  -- Whether the request is for a path under the prefix.
  pub under : (prefix : String) → IdentityRequest → Bool
  -- The test of a correlation id, and a fresh one.
  pub is_uuid : String → Bool
  pub uuid : String

pub data Route : Type 0 where
  live : Route
  ready : Route
  metrics : Route
  key_set : Route
  auth_api : Route
  api_docs : Route
  unrouted : Route

-- An answer that a middleware gives, with its status and message, or the route that the request
-- reaches, with its correlation id and the headers that are left.
pub data Received : Type 0 where
  refused : ℕ → String → Received
  preflight : Received
  reached : Route → (correlation_id : String) → Headers → Received

abbrev pub cors_error : RequestError
cors_error = record { message = "Not allowed by CORS"; error_type = none; status = none }

unfoldable pub refuse_error : RequestError → Received
refuse_error e = let (status, message) = answer_request_error e in refused status message

-- The middlewares behind the first that answers do not run.
unfoldable pub pass_if : Bool → Received → Received → Received
pass_if true refusal rest = rest
pass_if false refusal rest = refusal

unfoldable pub unless_error : Option RequestError → Received → Received
unless_error none rest = rest
unless_error (some e) rest = refuse_error e

module _ (platform : IdentityPlatform) (cors_allowed_origins : List String)
    (request : IdentityRequest) where
  unfoldable pub route_of : Route
  route_of =
      if platform.gets "/health/live" request
      then live
      else if platform.gets "/health/ready" request
      then ready
      else if platform.gets "/metrics" request
      then metrics
      else if platform.gets "/.well-known/.well-known/jwks.json" request
      then key_set
      else if platform.under "/api/v1/auth" request
      then auth_api
      else if platform.under "/docs" request
      then api_docs
      else unrouted

  -- `app`, up to the route.
  unfoldable pub receive : Received
  unfolding pass_if unless_error
  receive =
      pass_if (cors_allows cors_allowed_origins (header "origin" request.headers))
        (refuse_error cors_error)
        (pass_if (not (platform.is_preflight request)) preflight (
          pass_if (method_allowed request.method) (refused 405 "Method Not Allowed") (
            pass_if (content_type_allowed request.method (header "content-type" request.headers))
              (refused 415 "Unsupported Media Type")
              (unless_error (platform.parse_error request) (
                reached route_of
                  (correlation_id platform.is_uuid platform.uuid
                    (header "x-correlation-id" request.headers))
                  (strip_headers request.headers))))))

-- `checkReadiness`: the status, the state, and those of the database and of Redis.
pub record Readiness : Type 0 where
  pub status_code : ℕ
  pub status : String
  pub details : Option (String × String)

unfoldable pub up_or_down : Bool → String
up_or_down true = "UP"
up_or_down false = "DOWN"

unfoldable pub check_readiness : (is_db_healthy is_redis_healthy : Bool) → Readiness
unfolding up_or_down
check_readiness is_db_healthy is_redis_healthy =
    if is_db_healthy && is_redis_healthy
    then record { status_code = 200; status = "UP"; details = none }
    else record {
      status_code = 503;
      status = "DOWN";
      details = some (up_or_down is_db_healthy, up_or_down is_redis_healthy);
    }
