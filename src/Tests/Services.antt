-- ===== src/Tests/Services.antt =====
-- Uses of the theorems on the services and on the guards of the routes.
use bankos.Prelude.{
  String, ◌≡◌, refl, inl, inr, true, false, none, some, List, [], ◌∷◌, arith, ok, err,
}
use bankos.Controller.Guard.{
  proceed, header_token, second, or_empty, decide, guard_token, require_permission,
}
use bankos.Controller.Guard.Admits.{require_permission_admits}
use bankos.Crypto.Keys.{get_key, key_of}
use bankos.Crypto.Passwords as Passwords
use bankos.Crypto.Tokens.{
  verify_access_token, verify_refresh_token, verify, verify_kid, verify_with, verify_options,
}
use bankos.Domain.Event.{Event}
use bankos.Engine.Evaluator.{has_permission, match_permission}
use bankos.Engine.Policy as Policy
use bankos.Http.{is_truthy}
use bankos.Runtime.Action.{Action, done}
use bankos.Runtime.World.{World}
use bankos.Service.Login.{login, invalid_credentials}
use bankos.Service.Login.Lockout.{login_all, login_all-locks, failed_world, login_counts_failure}
use bankos.Service.Login.Refusal.{account, login_refuses}
use bankos.Service.Recovery.{reset_password}
use bankos.Service.Recovery.Failure as Recovery
use bankos.Service.Recovery.Failure.{reset_password_fails}
use bankos.Service.Refresh.{refresh}
use bankos.Service.Refresh.Refusal.{refresh_answers, answer, stored_session}
use bankos.Service.Setup.{LoginRequest, ResetPasswordRequest, VerifyEmailRequest}
use bankos.Service.Verification.{verify_email_token}
use bankos.Service.Verification.Failure as Verification
use bankos.Service.Verification.Failure.{verify_email_token_fails}
use bankos.Tests.Environment.{ada, claims, packages, config, setup, world, prisma-IsPrisma}
use bankos.Text.{
  ends_with, starts_with, drop_end, split_spaces, grow_first, trim, trim_start, trim_end, is_space,
}
use bankos.Validator.Email.{normalize, is_valid, is_atom, ends_in_atoms, has_dot, local_part}

abbrev request : String → String → LoginRequest
request email password_raw = record {
  email = email;
  password_raw = password_raw;
  ip_address = "10.0.0.1";
  user_agent = "browser";
}

ada_normalized : normalize packages " ada@bank.org" ≡ "ada@bank.org"
unfolding normalize trim trim_start trim_end is_space
ada_normalized = refl

ada_valid : is_valid "ada@bank.org" ≡ true
unfolding is_valid local_part has_dot ends_in_atoms is_atom is_space
ada_valid = refl

wrong_refused : Passwords.verify packages config "#right" "wrong" ≡ false
unfolding Passwords.verify Passwords.apply_pepper Passwords.pepper_of
wrong_refused = refl

eve_unknown : account setup prisma-IsPrisma (request "eve@bank.org" "right") world ≡ none
unfolding normalize trim trim_start trim_end is_space
eve_unknown = refl

login_refuses_example :
    login setup (request "eve@bank.org" "right") world ≡ (err invalid_credentials, world)
login_refuses_example =
    login_refuses setup prisma-IsPrisma (request "eve@bank.org" "right") world
      (inr (inl eve_unknown))

ada_found : account setup prisma-IsPrisma (request " ada@bank.org" "wrong") world ≡ some ada
unfolding normalize trim trim_start trim_end is_space
ada_found = refl

ada_request_valid : is_valid (normalize packages " ada@bank.org") ≡ true
ada_request_valid = rw ada_normalized ada_valid

-- The fourth failure of the account.
login_counts_failure_example :
    login setup (request " ada@bank.org" "wrong") world
    ≡ (err invalid_credentials, failed_world world ada)
login_counts_failure_example =
    login_counts_failure setup prisma-IsPrisma (request " ada@bank.org" "wrong") world ada
      ada_request_valid ada_found refl wrong_refused

abbrev two_wrong : List LoginRequest
two_wrong = request " ada@bank.org" "wrong" ∷ request " ada@bank.org" "wrong" ∷ []

-- After three failures and two more, the right password is refused.
login_all-locks_example :
    login setup (request " ada@bank.org" "right") (login_all setup two_wrong world)
    ≡ (err invalid_credentials, login_all setup two_wrong world)
login_all-locks_example =
    login_all-locks setup prisma-IsPrisma "ada@bank.org" ada_valid two_wrong world ada
      ((ada_normalized, wrong_refused), ((ada_normalized, wrong_refused), tt)) refl refl
      (omega arith) (omega arith) (request " ada@bank.org" "right") ada_normalized

abbrev later : World
later = record world { ticks = 1 }

good_verifies :
    verify_refresh_token setup.env setup.config setup.keys "good" world ≡ (ok claims, later)
unfolding verify_refresh_token verify verify_kid verify_with verify_options get_key key_of
good_verifies = refl

refresh_answers_example :
    refresh setup "good" "10.0.0.2" "phone" world
    ≡ answer setup prisma-IsPrisma "good" "10.0.0.2" "phone" claims later
        (stored_session setup prisma-IsPrisma "good" "10.0.0.2" "phone" later)
refresh_answers_example =
    refresh_answers setup prisma-IsPrisma "good" "10.0.0.2" "phone" world later claims good_verifies

abbrev reset_request : ResetPasswordRequest
reset_request = record {
  token = "00ff";
  new_password_raw = "Correct-Horse-7";
  ip_address = "10.0.0.1";
  user_agent = "browser";
}

reset_password_fails_example : Recovery.FailsOn world (reset_password setup reset_request world)
reset_password_fails_example = reset_password_fails setup prisma-IsPrisma reset_request world

abbrev verify_request : VerifyEmailRequest
verify_request = record { token = "00ff"; ip_address = "10.0.0.1"; user_agent = "browser" }

verify_email_token_fails_example :
    Verification.FailsOn world (verify_email_token setup verify_request world)
verify_email_token_fails_example =
    verify_email_token_fails setup prisma-IsPrisma verify_request world

abbrev no_handlers : List Event → Action (Unit {0})
no_handlers events = done

reads_accounts :
    require_permission setup no_handlers "accounts.read" (some "Bearer good") world
    ≡ (proceed claims, later)
unfolding require_permission guard_token decide header_token second or_empty split_spaces grow_first
    is_truthy verify_access_token verify verify_kid verify_with verify_options get_key key_of
    Policy.require_permission has_permission match_permission ends_with starts_with drop_end
reads_accounts = refl

require_permission_admits_example :
    (t : String) × (header_token (some "Bearer good") ≡ some t)
    × (verify_access_token setup.env setup.config setup.keys t world ≡ (ok claims, later))
    × (Policy.require_permission (or_empty claims.permissions) "accounts.read" ≡ true)
require_permission_admits_example =
    require_permission_admits setup no_handlers "accounts.read" (some "Bearer good") world later
      claims reads_accounts
