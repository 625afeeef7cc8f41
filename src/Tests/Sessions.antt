-- ===== src/Tests/Sessions.antt =====
-- Uses of the theorems on refresh, logout and registration.
use bankos.Prelude.{
  String, ◌≡◌, refl, true, false, some, [], ◌∷◌, first, any, ◌===◌, ok, err, domain_error,
}
use bankos.Cache.{blacklist_token, get_blacklist_key}
use bankos.Crypto.Tokens.{decode}
use bankos.Database.Rows.{SessionRow, UserRow}
use bankos.Runtime.World.{World}
use bankos.Service.Logout.{
  truthy, jti_claim, claimed_session, blacklist_for, blacklist_access, logout,
}
use bankos.Service.Logout.Authorized.{logout_refuses, logout_revokes, logged_out}
use bankos.Service.Register.{register}
use bankos.Service.Register.Conflict.{register_refuses_taken}
use bankos.Service.Setup.{LogoutRequest, RegisterUserRequest, expiry_claim}
use bankos.Tests.Environment.{packages, session, setup, world, prisma-IsPrisma}
use bankos.Text.{js_length, trim, trim_start, trim_end, is_space}
use bankos.Validator.Email.{normalize, is_valid, is_atom, ends_in_atoms, has_dot, local_part}
use bankos.Validator.Password.{validate, is_upper, is_lower, is_digit, is_special}

abbrev live : SessionRow
live = record session { is_revoked = false }

abbrev before : World
before = record world { sessions = live ∷ [] }

-- The clock was read twice, once for the lifetime and once by Redis.
abbrev after : World
after = record before { ticks = 2 }

abbrev request : String → LogoutRequest
request refresh_token = record { access_token = "access"; refresh_token = refresh_token }

bad_listed : blacklist_access setup (request "bad") "10.0.0.1" "browser" before ≡ (ok tt, after)
unfolding blacklist_access blacklist_for jti_claim truthy expiry_claim blacklist_token
    get_blacklist_key decode
bad_listed = refl

good_listed : blacklist_access setup (request "good") "10.0.0.1" "browser" before ≡ (ok tt, after)
unfolding blacklist_access blacklist_for jti_claim truthy expiry_claim blacklist_token
    get_blacklist_key decode
good_listed = refl

session_claimed :
    claimed_session
      (decode setup.env setup.config setup.keys "access")
      (decode setup.env setup.config setup.keys "bad")
    ≡ some "s1"
unfolding claimed_session truthy decode
session_claimed = refl

good_claimed :
    claimed_session
      (decode setup.env setup.config setup.keys "access")
      (decode setup.env setup.config setup.keys "good")
    ≡ some "s1"
unfolding claimed_session truthy decode
good_claimed = refl

logout_refuses_example :
    logout setup (request "bad") "10.0.0.1" "browser" before
    ≡ (err (domain_error "Invalid refresh token for session"), after)
logout_refuses_example =
    logout_refuses setup prisma-IsPrisma (request "bad") "10.0.0.1" "browser" before after "s1" live
      bad_listed session_claimed refl refl refl

logout_revokes_example :
    first
      (λ r. r.id === "s1")
      (logout setup (request "good") "10.0.0.1" "browser" before).1.sessions
    ≡ some (logged_out setup prisma-IsPrisma (request "good") "10.0.0.1" "browser" live)
logout_revokes_example =
    logout_revokes setup prisma-IsPrisma (request "good") "10.0.0.1" "browser" before after "s1"
      live good_listed good_claimed refl refl refl

abbrev taken : RegisterUserRequest
taken = record {
  email = " ada@bank.org ";
  password_raw = "Correct-Horse-7";
  ip_address = "10.0.0.1";
  user_agent = "browser";
}

taken_valid : is_valid (normalize packages " ada@bank.org ") ≡ true
unfolding normalize trim trim_start trim_end is_valid local_part has_dot ends_in_atoms is_atom
    is_space
taken_valid = refl

password_passes : validate "Correct-Horse-7" ≡ true
unfolding validate is_upper is_lower is_digit is_special js_length
password_passes = refl

ada_exists :
    any (λ (r : UserRow). r.email === normalize packages " ada@bank.org ") world.users ≡ true
unfolding normalize trim trim_start trim_end is_space
ada_exists = refl

register_refuses_taken_example :
    register setup taken world ≡ (err (domain_error "Email is already registered"), world)
register_refuses_taken_example =
    register_refuses_taken setup prisma-IsPrisma taken world taken_valid password_passes ada_exists
