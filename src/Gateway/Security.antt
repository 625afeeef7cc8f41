-- ===== src/Gateway/Security.antt =====
-- middlewares/security.ts: CORS, the headers that only the gateway may set, methods and content types.
use bankos.Prelude.{
  String, Bool, true, false, not, ◌&&◌, ◌||◌, Option, none, some, List, [], ◌∷◌, includes,
  if◌then◌else◌,
}
use Prim.Native.String
use bankos.Http.{Headers, header, delete_header, is_truthy, Answer}
use bankos.Text.{contains}

-- The callback of `cors`: whether the origin is allowed. `none` is the error "Not allowed by CORS".
unfoldable pub cors_origin : (allowed_origins : List String) → Option String → Option Bool
unfolding is_truthy
cors_origin allowed_origins none = some true
cors_origin allowed_origins (some origin) =
    if not (is_truthy (some origin))
    then some true
    else if includes allowed_origins "*" || includes allowed_origins origin
    then some true
    else none

abbrev pub disallowed_headers : List String
disallowed_headers =
    "x-user-id" ∷ "x-user-role" ∷ "x-user-email" ∷ "x-user-roles" ∷ "x-authenticated-user"
    ∷ "x-forwarded-user" ∷ []

-- `for (const header of names) if (req.headers[header]) delete req.headers[header]`
unfoldable pub delete_truthy : List String → Headers → Headers
delete_truthy [] headers = headers
delete_truthy (name ∷ names) headers =
    delete_truthy names
      (if is_truthy (header name headers) then delete_header name headers else headers)

-- `sanitizeHeadersMiddleware`
unfoldable pub sanitize_headers : Headers → Headers
unfolding delete_truthy
sanitize_headers headers = delete_truthy disallowed_headers headers

abbrev pub supported_methods : List String
supported_methods = "GET" ∷ "POST" ∷ "PUT" ∷ "PATCH" ∷ "DELETE" ∷ "OPTIONS" ∷ []

-- `validateHttpMethodMiddleware`: an answer ends the request, none passes it on.
unfoldable pub validate_http_method : String → Option Answer
validate_http_method method =
    if not (includes supported_methods method)
    then some (record {
      status = 405;
      error = "Method Not Allowed";
      message = String.◌++◌ "HTTP method " (String.◌++◌ method " is not supported.");
    })
    else none

abbrev pub body_methods : List String
body_methods = "POST" ∷ "PUT" ∷ "PATCH" ∷ []

unfoldable pub is_supported_content : Option String → Bool
is_supported_content none = false
is_supported_content (some content_type) =
    contains content_type "application/json"
    || contains content_type "application/x-www-form-urlencoded"
    || contains content_type "multipart/form-data"

-- `validateContentTypeMiddleware`
unfoldable pub validate_content_type : String → Headers → Option Answer
unfolding is_supported_content
validate_content_type method headers =
    if includes body_methods method && not (is_supported_content (header "content-type" headers))
    then some (record {
      status = 415;
      error = "Unsupported Media Type";
      message =
          "Content-Type must be application/json, application/x-www-form-urlencoded, or multipart/form-data.";
    })
    else none
