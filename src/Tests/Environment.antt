-- ===== src/Tests/Environment.antt =====
-- A database in memory, packages that are functions, and a state with one account and one session.
use bankos.Prelude.{◌+◌, true, false, none, some, [], ◌∷◌, ◌===◌, ◌&&◌, if◌then◌else◌}
use bankos.Config.{Config}
use bankos.Crypto.Keys.{KeyManager}
use bankos.Database.{Prisma, IsPrisma}
use bankos.Database.Memory.{memory, memory-IsModel}
use bankos.Database.Rows.{
  UserRow, SessionRow, user_clash, role_clash, permission_clash, user_role_clash,
  role_permission_clash, session_clash, token_clash, audit_clash,
}
use bankos.Runtime.Packages.{Packages, Claims, Jwt, Redis, no_expiry}
use bankos.Runtime.World.{World}
use bankos.Service.Setup.{Setup}

abbrev pub prisma : Prisma
prisma = record {
  user = memory user_clash;
  role = memory role_clash;
  permission = memory permission_clash;
  user_role = memory user_role_clash;
  role_permission = memory role_permission_clash;
  device_session = memory session_clash;
  email_verification_token = memory token_clash;
  password_reset_token = memory token_clash;
  audit_event = memory audit_clash;
}

pub prisma-IsPrisma : IsPrisma prisma
prisma-IsPrisma = record {
  user_laws = memory-IsModel user_clash;
  role_laws = memory-IsModel role_clash;
  permission_laws = memory-IsModel permission_clash;
  user_role_laws = memory-IsModel user_role_clash;
  role_permission_laws = memory-IsModel role_permission_clash;
  device_session_laws = memory-IsModel session_clash;
  email_verification_token_laws = memory-IsModel token_clash;
  password_reset_token_laws = memory-IsModel token_clash;
  audit_event_laws = memory-IsModel audit_clash;
}

abbrev pub claims : Claims
claims = record {
  sub = some "u1";
  session_id = some "s1";
  jti = some "j1";
  exp = some 900;
  roles = some ("user" ∷ []);
  permissions = some ("accounts.*" ∷ []);
}

abbrev pub jwt : Jwt
jwt = record {
  sign = λ now payload private_key options. some "signed";
  verify = λ now token public_key options. if token === "good" then some claims else none;
  decode = λ token. some claims;
  decode_header = λ token. some (some "k1");
}

abbrev pub redis : Redis
redis = record {
  set_ex = λ now key value ttl keys. some keys;
  set_plain = λ now key value keys. some keys;
  get = λ now key keys. some none;
  exists = λ now key keys. some 0;
  del = λ now key keys. some keys;
  expire = λ now key ttl keys. some keys;
  incr = λ now key keys. some (1, keys);
  multi_incr_ttl = λ now key keys. some ((1, no_expiry), keys);
}

-- The hash of every password is its text with `#` before it.
abbrev pub packages : Packages
packages = record {
  prisma = prisma;
  jwt = jwt;
  redis = redis;
  argon2_hash = λ draw password. "#new";
  argon2_verify = λ hash plain. some ((hash === "#right") && (plain === "right"));
  random_uuid = λ draw. "fresh";
  random_bytes_hex = λ draw length. "00ff";
  sha256_hex = λ text. text;
  to_lower_case = λ text. text;
  parse_int = λ text. none;
  time = λ tick. 100000 + tick;
}

abbrev pub config : Config
config = record {
  access_expiration = "15m";
  refresh_expiration = "7d";
  issuer = "bankos:identity";
  audience = "bankos:gateway";
  pepper = none;
}

abbrev pub manager : KeyManager
manager = record {
  keys = ("k1", record { public_key = "public"; private_key = some "private" }) ∷ [];
  active_key_id = "k1";
}

abbrev pub setup : Setup
setup = record { env = packages; config = config; keys = manager }

abbrev pub ada : UserRow
ada = record {
  id = "u1";
  email = "ada@bank.org";
  password_hash = "#right";
  is_locked = false;
  failed_login_attempts = 3;
  email_verified = false;
}

abbrev pub session : SessionRow
session = record {
  id = "s1";
  user_id = "u1";
  refresh_token = "good";
  ip_address = "10.0.0.1";
  user_agent = "browser";
  expires_at = 500000;
  created_at = 1;
  is_revoked = true;
}

abbrev pub world : World
world = record {
  users = ada ∷ [];
  roles = [];
  permissions = [];
  user_roles = [];
  role_permissions = [];
  sessions = session ∷ [];
  email_tokens =
      record { token = "00ff"; user_id = "u1"; is_used = false; expires_at = 500000 } ∷ [];
  reset_tokens =
      record { token = "00ff"; user_id = "u1"; is_used = false; expires_at = 500000 } ∷ [];
  audit = [];
  keys = [];
  mails = [];
  ticks = 0;
  draws = 0;
}
