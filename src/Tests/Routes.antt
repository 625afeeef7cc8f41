-- ===== src/Tests/Routes.antt =====
-- A request that reaches the authentication routes of the identity service.
use bankos.Prelude.{String, ◌≡◌, refl, false, none, List, [], ◌∷◌, ◌===◌}
use bankos.Controller.App.{
  IdentityRequest, IdentityPlatform, reached, auth_api, receive, pass_if, unless_error, route_of,
}
use bankos.Controller.App.Reaching.{receive_reaches}
use bankos.Controller.App.Accepted.{FromOrigin, HasContent, HasId}
use bankos.Controller.Filters.{
  cors_allows, method_allowed, content_type_allowed, content_listed, correlation_id, strip_headers,
  strip_all,
}
use bankos.Http.{Headers, header, delete_header, is_truthy}
use bankos.Text.{trim, trim_start, trim_end, until_semicolon, is_space}

abbrev platform : IdentityPlatform
platform = record {
  is_preflight = λ request. request.method === "OPTIONS";
  parse_error = λ request. none;
  gets = λ path request. false;
  under = λ prefix request. prefix === "/api/v1/auth";
  is_uuid = λ text. false;
  uuid = "fresh";
}

abbrev origins : List String
origins = "http://localhost:3000" ∷ []

abbrev forwarded : Headers
forwarded = ("x-user-id", "u1") ∷ ("content-type", "application/json; charset=utf-8") ∷ []

abbrev request : IdentityRequest
request = record { method = "POST"; headers = forwarded }

abbrev left : Headers
left = ("content-type", "application/json; charset=utf-8") ∷ []

request_received : receive platform origins request ≡ reached auth_api "fresh" left
unfolding receive pass_if unless_error route_of cors_allows method_allowed content_type_allowed
    content_listed correlation_id strip_headers strip_all header delete_header is_truthy trim
    trim_start trim_end until_semicolon is_space
request_received = refl

receive_reaches_example :
    (platform.is_preflight request ≡ false)
    × (platform.parse_error request ≡ none)
    × FromOrigin origins (header "origin" forwarded)
    × HasContent "POST" (header "content-type" forwarded)
    × HasId platform (header "x-correlation-id" forwarded) "fresh"
    × (header "x-user-id" left ≡ none)
    × (header "x-user-role" left ≡ none)
    × (header "x-user-roles" left ≡ none)
    × (header "x-authenticated-user" left ≡ none)
    × (header "x-forwarded-user" left ≡ none)
    × (header "x-internal-user" left ≡ none)
receive_reaches_example =
    receive_reaches auth_api "fresh" left platform origins request request_received
