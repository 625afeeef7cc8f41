-- ===== src/Tests/Core.antt =====
-- Uses of the theorems on the entities, the validators, the keys and the engine.
use bankos.Prelude.{
  String, ◌≡◌, ◌≢◌, refl, ◌↔◌, ◌<◌, ◌≤◌, ◌⊎◌, true, false, none, some, List, [], ◌∷◌, ◌++◌, Elem,
  ok, err, arith, includes, invalid_state, ◌===◌, if◌then◌else◌,
}
use bankos.Crypto.Keys.{
  KeyPair, KeyRecord, KeyManager, key_of, has_private, check_active, new_key_manager,
  get_active_key_id, get_active_key, get_key, build_jwks,
}
use bankos.Crypto.Keys.Laws.{new_key_manager_signs, build_jwks_public, public_parts}
use bankos.Domain.Access.{Role}
use bankos.Domain.Event.{new_event, user_logged_in, token_revoked}
use bankos.Domain.User.{User, unlock, record_login, reset_failed_attempts}
use bankos.Domain.User.Lockout.{fail_times, fail_times-locked, count_starts_over}
use bankos.Domain.Session.{DeviceSession, revoke, rotate_token, slide, is_expired}
use bankos.Domain.Session.Lifetime.{revoke_final, rotate_token-expires}
use bankos.Engine.Evaluator.{has_permission, match_permission}
use bankos.Engine.Evaluator.Laws.{match_permission_iff, has_permission_iff, Grants}
use bankos.Engine.Resolver.{
  resolve_effective_roles, resolve_effective_permissions, collect_all, collect_roles, parent_role,
  parent_from, role_map_get, add_each, permissions_from,
}
use bankos.Engine.Resolver.Closure.{resolve_effective_roles_iff, Inherits, Distinct}
use bankos.Engine.Resolver.Permissions.{resolve_effective_permissions_iff, IsInherited}
use bankos.Engine.Resolver.Termination.{resolve_effective_roles_total}
use bankos.Text.{codes}
use bankos.Validator.Email.{is_valid}
use bankos.Validator.Email.Format.{is_valid_iff, IsAddress}
use bankos.Validator.Password.{validate}
use bankos.Validator.Password.Policy.{validate_iff, IsStrong}

abbrev ada : User
ada = record {
  id = "u1";
  email = "ada@bank.org";
  password_hash = "#right";
  is_locked = false;
  failed_login_attempts = 3;
  email_verified = true;
  domain_events = [];
}

-- Two failures after three: the account is locked.
fail_times-locked_example :
    ((fail_times 2 5 ada).is_locked ≡ true)
    × (((fail_times 2 5 ada).is_locked ≡ true) ⊎ ((fail_times 2 5 ada).failed_login_attempts ≡ 5))
fail_times-locked_example = fail_times-locked 2 5 ada refl (omega arith)

abbrev ada_in : User
ada_in = record ada {
  failed_login_attempts = 0;
  domain_events = new_event (user_logged_in "u1" "10.0.0.1" "browser") ∷ [];
}

ada_logs_in : record_login "10.0.0.1" "browser" ada ≡ ok ada_in
unfolding record_login reset_failed_attempts
ada_logs_in = refl

abbrev ada_locked : User
ada_locked = record ada { is_locked = true; failed_login_attempts = 5 }

-- Four failures after a login at three failures do not lock, nor do four after an unlock.
count_starts_over_example :
    ((fail_times 4 5 ada_in).is_locked ≡ false)
    × ((fail_times 4 5 (unlock ada_locked)).is_locked ≡ false)
count_starts_over_example =
    count_starts_over ada ada_locked 4 5 "10.0.0.1" "browser" (omega arith) ada_logs_in

abbrev live : DeviceSession
live = record {
  id = "s1";
  user_id = "u1";
  ip_address = "10.0.0.1";
  user_agent = "browser";
  created_at = 1;
  refresh_token = "hash";
  expires_at = 500;
  is_revoked = false;
  domain_events = [];
}

abbrev revoked : DeviceSession
revoked = record live {
  is_revoked = true;
  domain_events = new_event (token_revoked "s1" "u1" "logout") ∷ [];
}

live_is_revoked : revoke "logout" live ≡ ok revoked
unfolding revoke
live_is_revoked = refl

revoke_final_example :
    (revoked.is_revoked ≡ true)
    × (revoked.domain_events
        ≡ live.domain_events ++ new_event (token_revoked "s1" "u1" "logout") ∷ [])
    × (revoke "again" revoked ≡ err (invalid_state "Session is already revoked"))
    × (rotate_token "new" 700 (some 700) revoked
        ≡ err (invalid_state "Cannot rotate token on a revoked session"))
revoke_final_example = revoke_final live "logout" "again" "new" 700 live_is_revoked

abbrev rotated : DeviceSession
rotated = record live { refresh_token = "new"; expires_at = 600 }

live_is_rotated : rotate_token "new" 700 (some 600) live ≡ ok rotated
unfolding rotate_token slide
live_is_rotated = refl

rotate_token-expires_example :
    ((rotated.expires_at ≡ 700) ⊎ (rotated.expires_at ≡ 600))
    × (rotated.expires_at ≤ 700)
    × (rotated.expires_at ≤ 600)
    × (rotated.refresh_token ≡ "new")
    × ((is_expired 601 rotated ≡ true) ↔ (rotated.expires_at < 601))
    × (rotated.is_revoked ≡ false)
rotate_token-expires_example = rotate_token-expires live "new" 700 600 601 live_is_rotated

match_permission_iff_example :
    (match_permission "accounts.*" "accounts.read" ≡ true) ↔ Grants "accounts.*" "accounts.read"
match_permission_iff_example = match_permission_iff "accounts.*" "accounts.read"

has_permission_iff_example :
    (has_permission ("users.read" ∷ "accounts.*" ∷ []) "accounts.read" ≡ true) ↔ (
      (granted : String) × Elem granted ("users.read" ∷ "accounts.*" ∷ [])
      × Grants granted "accounts.read")
has_permission_iff_example = has_permission_iff ("users.read" ∷ "accounts.*" ∷ []) "accounts.read"

abbrev role : String → String → String → Role
role id name parent_id = record {
  id = id;
  name = name;
  description = none;
  system_role = false;
  parent_id = some parent_id;
  created_at = 0;
  updated_at = 0;
}

-- Admin inherits from user and, by a cycle, user from admin.
abbrev roles : List Role
roles = role "r1" "admin" "r2" ∷ role "r2" "user" "r1" ∷ role "r3" "auditor" "" ∷ []

abbrev permissions_of : String → List String
permissions_of id = if id === "r2" then "accounts.read" ∷ [] else "users.read" ∷ []

resolved_roles : resolve_effective_roles roles ("admin" ∷ []) ≡ some ("admin" ∷ "user" ∷ [])
unfolding resolve_effective_roles collect_all collect_roles parent_role parent_from role_map_get
resolved_roles = refl

resolved_permissions :
    resolve_effective_permissions roles permissions_of ("admin" ∷ [])
    ≡ some ("users.read" ∷ "accounts.read" ∷ [])
unfolding resolve_effective_permissions resolve_effective_roles collect_all collect_roles
    parent_role parent_from role_map_get permissions_from add_each
resolved_permissions = refl

resolve_effective_roles_total_example :
    (result : List String) × (resolve_effective_roles roles ("admin" ∷ []) ≡ some result)
resolve_effective_roles_total_example = resolve_effective_roles_total roles ("admin" ∷ [])

resolve_effective_roles_iff_example :
    ((includes ("admin" ∷ "user" ∷ []) "user" ≡ true)
      ↔ ((name : String) × Elem name ("admin" ∷ []) × Inherits roles name "user"))
    × Distinct ("admin" ∷ "user" ∷ [])
resolve_effective_roles_iff_example =
    resolve_effective_roles_iff roles ("admin" ∷ []) ("admin" ∷ "user" ∷ []) "user" resolved_roles

resolve_effective_permissions_iff_example :
    (includes ("users.read" ∷ "accounts.read" ∷ []) "accounts.read" ≡ true)
    ↔ IsInherited roles permissions_of ("admin" ∷ []) "accounts.read"
resolve_effective_permissions_iff_example =
    resolve_effective_permissions_iff roles permissions_of ("admin" ∷ [])
      ("users.read" ∷ "accounts.read" ∷ []) "accounts.read" resolved_permissions

is_valid_iff_example : (is_valid "ada@bank.org" ≡ true) ↔ IsAddress (codes "ada@bank.org")
is_valid_iff_example = is_valid_iff "ada@bank.org"

validate_iff_example : (validate "Correct-Horse-7" ≡ true) ↔ IsStrong "Correct-Horse-7"
validate_iff_example = validate_iff "Correct-Horse-7"

abbrev keys : KeyRecord
keys = ("k1", record { public_key = "public"; private_key = some "private" }) ∷ []

abbrev manager : KeyManager
manager = record { keys = keys; active_key_id = "k1" }

manager_is_made : new_key_manager keys "k1" ≡ ok manager
unfolding new_key_manager check_active key_of has_private
manager_is_made = refl

new_key_manager_signs_example :
    (manager.keys ≡ keys)
    × (get_active_key_id manager ≡ "k1")
    × ((pair : KeyPair) × (private_key : String) × (get_active_key manager ≡ some pair)
        × (get_key manager (get_active_key_id manager) ≡ some pair)
        × (pair.private_key ≡ some private_key)
        × (private_key ≢ ""))
new_key_manager_signs_example = new_key_manager_signs keys "k1" manager_is_made

-- The same public key with another private one.
abbrev other_manager : KeyManager
other_manager = record {
  keys = ("k1", record { public_key = "public"; private_key = some "renewed" }) ∷ [];
  active_key_id = "k1";
}

same_public_parts : public_parts manager.keys ≡ public_parts other_manager.keys
unfolding public_parts
same_public_parts = refl

build_jwks_public_example :
    build_jwks (λ pem. record { kty = "RSA"; n = pem; e = "AQAB" }) manager
    ≡ build_jwks (λ pem. record { kty = "RSA"; n = pem; e = "AQAB" }) other_manager
build_jwks_public_example =
    build_jwks_public (λ pem. record { kty = "RSA"; n = pem; e = "AQAB" }) manager other_manager
      same_public_parts
