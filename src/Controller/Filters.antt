-- ===== src/Controller/Filters.antt =====
-- middlewares/extractAuthToken.ts, extractClientMeta.ts, correlationId.ts, errorHandler.ts and the tests of
-- security.ts.
use bankos.Prelude.{
  ℕ, String, Bool, true, false, not, ◌&&◌, ◌||◌, ◌==◌, Option, none, some, List, [], ◌∷◌, ◌===◌,
  includes, if◌then◌else◌,
}
use bankos.Controller.Guard.{header_token}
use bankos.Http.{Headers, delete_header, is_truthy}
use bankos.Text.{starts_with, trim, until_semicolon}

-- `extractAuthToken`: the access token of the body, if the request goes on; else it is answered 401.
unfoldable pub extract_auth_token : Option String → Option (Option String)
extract_auth_token none = none
extract_auth_token (some authorization) =
    if starts_with authorization "Bearer " then some (header_token (some authorization)) else none

-- `value || 'unknown'`, for the address and the user agent of `extractClientMeta`.
unfoldable pub or_unknown : Option String → String
or_unknown none = "unknown"
or_unknown (some value) = if value === "" then "unknown" else value

-- `correlationIdMiddleware`; the test of the pattern is a parameter, and `uuid` is a fresh id.
unfoldable pub correlation_id : (is_uuid : String → Bool) (uuid : String) → Option String → String
correlation_id is_uuid uuid none = uuid
correlation_id is_uuid uuid (some existing) =
    if is_truthy (some existing) && is_uuid existing then existing else uuid

-- What the error handler reads of an error.
pub record RequestError : Type 0 where
  pub message : String
  pub error_type : Option String
  pub status : Option ℕ

unfoldable pub has_type : Option String → String → Bool
has_type none text = false
has_type (some value) text = value === text

unfoldable pub has_status : Option ℕ → ℕ → Bool
has_status none n = false
has_status (some value) n = value == n

-- `errorHandlerMiddleware`: the status and the message of the answer.
unfoldable pub answer_request_error : RequestError → ℕ × String
answer_request_error e =
    if e.message === "Not allowed by CORS"
    then (403, "Forbidden: CORS origin not allowed")
    else if has_type e.error_type "entity.too.large" || has_status e.status 413
    then (413, "Payload Too Large")
    else if has_type e.error_type "entity.parse.failed" || has_status e.status 400
    then (400, "Bad Request: Malformed payload")
    else (500, "Internal Server Error")

-- The callback of `cors`: whether the origin passes.
unfoldable pub cors_allows : (cors_allowed_origins : List String) → Option String → Bool
cors_allows cors_allowed_origins none = true
cors_allows cors_allowed_origins (some request_origin) =
    not (is_truthy (some request_origin))
    || includes cors_allowed_origins request_origin
    || includes cors_allowed_origins "*"

abbrev pub allowed_methods : List String
allowed_methods = "GET" ∷ "POST" ∷ "PUT" ∷ "PATCH" ∷ "DELETE" ∷ "OPTIONS" ∷ []

-- `methodValidationMiddleware`: whether the request goes on; else it is answered 405.
unfoldable pub method_allowed : String → Bool
method_allowed method = includes allowed_methods method

abbrev pub allowed_content_types : List String
allowed_content_types =
    "application/json" ∷ "application/x-www-form-urlencoded" ∷ "multipart/form-data" ∷ []

-- The type before the first `;`, trimmed.
unfoldable pub content_listed : Option String → Bool
content_listed none = false
content_listed (some content_type) =
    includes allowed_content_types (trim (until_semicolon content_type))

-- `contentTypeValidationMiddleware`: whether the request goes on; else it is answered 415.
unfoldable pub content_type_allowed : String → Option String → Bool
content_type_allowed method content_type =
    not (includes ("POST" ∷ "PUT" ∷ "PATCH" ∷ []) method) || content_listed content_type

abbrev pub headers_to_strip : List String
headers_to_strip =
    "x-user-id" ∷ "x-user-role" ∷ "x-user-roles" ∷ "x-authenticated-user" ∷ "x-forwarded-user"
    ∷ "x-internal-user" ∷ []

unfoldable pub strip_all : List String → Headers → Headers
strip_all [] headers = headers
strip_all (name ∷ names) headers = strip_all names (delete_header name headers)

-- `headerSanitizationMiddleware`: a header that is set to undefined reads as one that is not there.
unfoldable pub strip_headers : Headers → Headers
strip_headers headers = strip_all headers_to_strip headers
