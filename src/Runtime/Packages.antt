-- ===== src/Runtime/Packages.antt =====
-- The packages and the platform: jsonwebtoken, argon2, ioredis, node's crypto and the clock. Randomness
-- and time are functions of the number of draws and of clock readings so far; `none` is a call
-- that throws.
use bankos.Prelude.{ℕ, String, Bool, Option, List}
use bankos.Database.{Prisma}

-- The payload that the services sign.
pub record Payload : Type 0 where
  pub roles : List String
  pub permissions : List String
  pub session_id : String
  pub token_version : ℕ
  pub tenant_id : String

-- The claims of a decoded token that the code reads; any of them may be missing.
pub record Claims : Type 0 where
  pub sub : Option String
  pub session_id : Option String
  pub jti : Option String
  pub exp : Option ℕ
  pub roles : Option (List String)
  pub permissions : Option (List String)

pub record SignOptions : Type 0 where
  pub algorithm : String
  pub keyid : String
  pub expires_in : String
  pub issuer : String
  pub audience : String
  pub subject : String
  pub jwtid : String

pub record VerifyOptions : Type 0 where
  pub algorithms : List String
  pub issuer : String
  pub audience : String

-- `jwt.sign` and `jwt.verify` read the clock.
pub record Jwt : Type 0 where
  pub sign : (now : ℕ) → Payload → (private_key : String) → SignOptions → Option String
  pub verify : (now : ℕ) → (token public_key : String) → VerifyOptions → Option Claims
  pub decode : (token : String) → Option Claims
  -- `decode(token, { complete: true })`: the header's `kid`, if the token has a header.
  pub decode_header : (token : String) → Option (Option String)

pub record Entry : Type 0 where
  pub value : String
  pub expires_at : Option ℕ

-- The keys of the Redis server, by their names without the prefix.
abbrev pub Keyspace : Type 0
Keyspace = List (String × Entry)

-- What `TTL` answers: -2, -1, or the seconds that are left.
pub data Ttl : Type 0 where
  no_key : Ttl
  no_expiry : Ttl
  seconds : ℕ → Ttl

pub record Redis : Type 0 where
  pub set_ex : (now : ℕ) (key value : String) (ttl_seconds : ℕ) → Keyspace → Option Keyspace
  pub set_plain : (now : ℕ) (key value : String) → Keyspace → Option Keyspace
  pub get : (now : ℕ) (key : String) → Keyspace → Option (Option String)
  pub exists : (now : ℕ) (key : String) → Keyspace → Option ℕ
  pub del : (now : ℕ) (key : String) → Keyspace → Option Keyspace
  pub expire : (now : ℕ) (key : String) (ttl_seconds : ℕ) → Keyspace → Option Keyspace
  pub incr : (now : ℕ) (key : String) → Keyspace → Option (ℕ × Keyspace)
  -- `INCR` and `TTL` of the key in one transaction.
  pub multi_incr_ttl : (now : ℕ) (key : String) → Keyspace → Option ((ℕ × Ttl) × Keyspace)

pub record Packages : Type 0 where
  pub prisma : Prisma
  pub jwt : Jwt
  pub redis : Redis
  pub argon2_hash : (draw : ℕ) (password : String) → String
  pub argon2_verify : (hash plain : String) → Option Bool
  pub random_uuid : (draw : ℕ) → String
  pub random_bytes_hex : (draw length : ℕ) → String
  pub sha256_hex : String → String
  -- `parseInt(text, 10)`; `none` is NaN.
  pub parse_int : String → Option ℕ
  -- `toLowerCase`, by the Unicode tables of the platform.
  pub to_lower_case : String → String
  -- The milliseconds of the given reading of the clock.
  pub time : ℕ → ℕ
