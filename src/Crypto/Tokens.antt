-- ===== src/Crypto/Tokens.antt =====
-- crypto/JwtTokenService.ts.
use Prim.Native.String
use bankos.Prelude.{String, Option, none, some, [], ◌∷◌, ◌===◌, if◌then◌else◌, Thrown, failure, err}
use bankos.Config.{Config}
use bankos.Crypto.Keys.{KeyPair, KeyManager, get_active_key_id, get_active_key, get_key}
use bankos.Runtime.Packages.{Packages, Payload, Claims, VerifyOptions}
use bankos.Runtime.Action.{Action, throw, now, generate_uuid, or_throw, ◌>>=◌}

abbrev pub jwt_error : Thrown
jwt_error = failure "JsonWebTokenError"

-- `activeKey.privateKey as string`: what is missing is refused by the package, as is no key at all.
unfoldable pub private_part : Option KeyPair → String
private_part none = ""
private_part (some pair) = elim pair.private_key [ none ↦ "" | some k ↦ k ]

module _ (env : Packages) (config : Config) (keys : KeyManager) where
  unfoldable pub sign : Payload → String → String → Action String
  sign payload subject expires_in = do
    jwtid ← generate_uuid env
    t ← now env
    or_throw
        (env.jwt.sign t payload (private_part (get_active_key keys)) (record {
          algorithm = "RS256";
          keyid = get_active_key_id keys;
          expires_in = expires_in;
          issuer = config.issuer;
          audience = config.audience;
          subject = subject;
          jwtid = jwtid;
        }))
        jwt_error

  unfoldable pub generate_access_token : Payload → String → Action String
  generate_access_token payload subject = sign payload subject config.access_expiration

  unfoldable pub generate_refresh_token : Payload → String → Action String
  generate_refresh_token payload subject = sign payload subject config.refresh_expiration

  unfoldable pub decode : String → Option Claims
  decode token = env.jwt.decode token

  unfoldable pub verify_options : VerifyOptions
  verify_options = record {
    algorithms = "RS256" ∷ [];
    issuer = config.issuer;
    audience = config.audience;
  }

  unfoldable pub verify_with : String → String → Option KeyPair → Action Claims
  verify_with token kid none w = (err (failure (String.◌++◌ "Unknown kid: " kid)), w)
  verify_with token kid (some pair) w =
      (do t ← now env; or_throw (env.jwt.verify t token pair.public_key verify_options) jwt_error) w

  -- The `kid` of the header chooses the public key; a missing or empty one is refused.
  unfoldable pub verify_kid : String → Option (Option String) → Action Claims
  verify_kid token none w = (err (failure "Invalid token structure"), w)
  verify_kid token (some none) w = (err (failure "Missing kid in JWT header"), w)
  verify_kid token (some (some kid)) w =
      (if kid === ""
          then throw (failure "Missing kid in JWT header")
          else verify_with token kid (get_key keys kid))
        w

  unfoldable pub verify : String → Action Claims
  verify token = verify_kid token (env.jwt.decode_header token)

  -- Access and refresh tokens are verified alike.
  unfoldable pub verify_access_token : String → Action Claims
  verify_access_token token = verify token

  unfoldable pub verify_refresh_token : String → Action Claims
  verify_refresh_token token = verify token
