-- ===== src/Gateway/Auth.antt =====
-- middlewares/auth.ts. `jwt.verify` is a parameter: its claims, or the class of the error it gives.
pub mod Trust
use bankos.Prelude.{
  String, Bool, true, false, Option, none, some, List, [], ◌∷◌, ◌===◌, Result, if◌then◌else◌,
}
use bankos.Http.{Headers, header, set_header, is_truthy, Answer}
use bankos.Text.{split_spaces, join_commas}

-- `decoded.roles`: missing or falsy, an array, or another value.
pub data RolesClaim : Type 0 where
  no_roles : RolesClaim
  role_list : List String → RolesClaim
  other_roles : RolesClaim

-- `sub`, where it is a text, and `String(decoded.userId)`, where it is truthy.
pub record GatewayClaims : Type 0 where
  pub sub : Option String
  pub user_id : Option String
  pub roles : RolesClaim

pub data Verified : Type 0 where
  decoded : GatewayClaims → Verified
  token_expired_error : Verified
  json_web_token_error : Verified
  other_error : Verified

pub data Passed : Type 0 where
  next : Headers → Passed
  respond : Answer → Passed

abbrev unauthorized : String → Passed
unauthorized message = respond (record { status = 401; error = "Unauthorized"; message = message })

-- `typeof decoded.sub === 'string' ? decoded.sub : decoded.userId`
unfoldable pub user_id_of : GatewayClaims → Option String
user_id_of claims = elim claims.sub [ some sub ↦ some sub | none ↦ claims.user_id ]

-- `if (userId) …`
unfoldable pub set_user_id : Option String → Headers → Headers
set_user_id none headers = headers
set_user_id (some user_id) headers =
    if is_truthy (some user_id) then set_header "x-user-id" user_id headers else headers

-- A missing claim is taken as an empty list; another value sets no header.
unfoldable pub set_roles : RolesClaim → Headers → Headers
set_roles no_roles headers = set_header "x-user-roles" (join_commas []) headers
set_roles (role_list roles) headers = set_header "x-user-roles" (join_commas roles) headers
set_roles other_roles headers = headers

unfoldable pub inject : GatewayClaims → Headers → Headers
inject claims headers =
    set_header "x-authenticated-user" "true"
      (set_roles claims.roles (set_user_id (user_id_of claims) headers))

unfoldable pub admit : Verified → Headers → Passed
admit (decoded claims) headers = next (inject claims headers)
admit token_expired_error headers = unauthorized "Token has expired."
admit json_web_token_error headers = unauthorized "Invalid token signature or payload."
admit other_error headers = respond (record {
  status = 500;
  error = "Internal Server Error";
  message = "An error occurred during authentication.";
})

module _ (verify : String → Verified) where
  -- From `split(' ')` on.
  unfoldable pub check_parts : List String → Headers → Passed
  check_parts (scheme ∷ token ∷ []) headers =
      if scheme === "Bearer"
      then admit (verify token) headers
      else unauthorized "Malformed Authorization header. Expected Bearer token format."
  check_parts [] headers =
      unauthorized "Malformed Authorization header. Expected Bearer token format."
  check_parts (_ ∷ []) headers =
      unauthorized "Malformed Authorization header. Expected Bearer token format."
  check_parts (_ ∷ _ ∷ _ ∷ _) headers =
      unauthorized "Malformed Authorization header. Expected Bearer token format."

  unfoldable pub check_header : Option String → Headers → Passed
  check_header none headers = unauthorized "Missing Authorization header."
  check_header (some auth_header) headers =
      if is_truthy (some auth_header)
      then check_parts (split_spaces auth_header) headers
      else unauthorized "Missing Authorization header."

  -- `authMiddleware`
  unfoldable pub authenticate : Headers → Passed
  authenticate headers = check_header (header "authorization" headers) headers
