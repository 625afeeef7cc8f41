-- ===== src/Tests/Storage.antt =====
-- Uses of the theorems on what the repositories store.
use bankos.Prelude.{◌≡◌, refl, false, some, [], ◌∷◌, ◌++◌, ok}
use bankos.Database.Memory.{memory_create}
use bankos.Domain.Event.{new_event, user_registered}
use bankos.Database.Mapper.{user_columns, session_columns}
use bankos.Domain.Session as SessionEntity
use bankos.Domain.Session.{DeviceSession}
use bankos.Domain.User.{User, clear_events}
use bankos.Repository.RoundTrip.{saved_user_found, updated_user_found, saved_session_found}
use bankos.Repository.Sessions as Sessions
use bankos.Repository.Users as Users
use bankos.Runtime.World.{World}
use bankos.Tests.Environment.{ada, packages, world, prisma-IsPrisma}

abbrev bob : User
bob = record {
  id = "u2";
  email = "bob@bank.org";
  password_hash = "#secret";
  is_locked = false;
  failed_login_attempts = 0;
  email_verified = false;
  domain_events = new_event (user_registered "u2" "bob@bank.org") ∷ [];
}

abbrev with_bob : World
with_bob = record world { users = world.users ++ user_columns bob ∷ [] }

bob_is_saved : Users.save packages bob world ≡ (ok tt, with_bob)
unfolding Users.save user_columns memory_create
bob_is_saved = refl

saved_user_found_example :
    (Users.find_by_id packages "u2" with_bob ≡ (ok (some (clear_events bob)), with_bob))
    × (Users.find_by_email packages "bob@bank.org" with_bob
        ≡ (ok (some (clear_events bob)), with_bob))
saved_user_found_example = saved_user_found packages prisma-IsPrisma bob world with_bob bob_is_saved

-- Ada with another password.
abbrev ada_changed : User
ada_changed = record {
  id = "u1";
  email = "ada@bank.org";
  password_hash = "#changed";
  is_locked = false;
  failed_login_attempts = 3;
  email_verified = false;
  domain_events = [];
}

updated_user_found_example :
    (w' : World) × (Users.update packages ada_changed world ≡ (ok tt, w'))
    × (Users.find_by_id packages "u1" w' ≡ (ok (some (clear_events ada_changed)), w'))
updated_user_found_example =
    updated_user_found packages prisma-IsPrisma ada_changed world ada refl refl

abbrev fresh : DeviceSession
fresh = record {
  id = "s2";
  user_id = "u1";
  refresh_token = "hash2";
  ip_address = "10.0.0.1";
  user_agent = "browser";
  expires_at = 900;
  created_at = 5;
  is_revoked = false;
  domain_events = [];
}

abbrev with_fresh : World
with_fresh = record world { sessions = world.sessions ++ session_columns fresh ∷ [] }

fresh_is_saved : Sessions.save packages fresh world ≡ (ok tt, with_fresh)
unfolding Sessions.save session_columns memory_create
fresh_is_saved = refl

saved_session_found_example :
    Sessions.find_by_refresh_token packages "hash2" with_fresh
    ≡ (ok (some (SessionEntity.clear_events fresh)), with_fresh)
saved_session_found_example =
    saved_session_found packages prisma-IsPrisma fresh world with_fresh refl fresh_is_saved
