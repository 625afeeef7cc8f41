-- ===== src/Tests/Cache.antt =====
-- The blacklist and the rate limit on a server in memory, and the counters on some events.
use bankos.Prelude.{ℕ, ◌≤◌, ◌≡◌, refl, true, none, some, [], ◌∷◌, ok, arith, length, ltb}
use bankos.Cache.{get_blacklist_key, blacklist_token, is_blacklisted}
use bankos.Cache.Laws.{entry_at, while_alive, is_alive}
use bankos.Cache.Memory.{memory, memory-IsRedis}
use bankos.Cache.RateLimit.{increment_attempts, count_up, expire, is_endless}
use bankos.Cache.RateLimit.Window.{no_attempt, attempt, Attempts-count, count_from}
use bankos.Crypto.Tokens.{decode}
use bankos.Domain.Event.{new_event, role_created, authorization_denied}
use bankos.Events.Metrics.{Counters, metrics_handle_all, metrics_never_count}
use bankos.Runtime.Packages.{Packages, Keyspace}
use bankos.Runtime.World.{World}
use bankos.Repository.Sessions as Sessions
use bankos.Database.Mapper.{to_domain_device_session}
use bankos.Service.Logout.{
  jti_claim, truthy, claimed_session, blacklist_for, blacklist_access, revoke_found, revoke_claimed,
  logout,
}
use bankos.Service.Logout.Blacklisted.{logout_blacklists}
use bankos.Service.Setup.{Setup, LogoutRequest, expiry_claim}
use bankos.Tests.Environment.{packages, setup, world}

abbrev env : Packages
env = record packages { redis = memory }

abbrev caching : Setup
caching = record setup { env = env }

time_grows : (m n : ℕ) → m ≤ n → env.time m ≤ env.time n
time_grows m n le = omega (arith, le)

abbrev request : LogoutRequest
request = record { access_token = "access"; refresh_token = "good" }

abbrev listed : Keyspace
listed = ("bl:j1", record { value = "1"; expires_at = some 900001 }) ∷ []

abbrev later : World
later = record (logout caching request "10.0.0.1" "browser" world).1 { ticks = 50 }

jti_named : jti_claim (decode env caching.config caching.keys "access") ≡ some "j1"
unfolding decode truthy jti_claim
jti_named = refl

expires : expiry_claim (decode env caching.config caching.keys "access") ≡ some 900
unfolding decode expiry_claim
expires = refl

accepted : memory.set_ex 100001 (get_blacklist_key env "j1") "1" 800 [] ≡ some listed
unfolding get_blacklist_key
accepted = refl

later_answers : memory.exists 100050 (get_blacklist_key env "j1") later.keys ≡ some 1
unfolding logout blacklist_access blacklist_for jti_claim truthy expiry_claim blacklist_token
    get_blacklist_key decode claimed_session revoke_claimed Sessions.find_by_id revoke_found
    to_domain_device_session entry_at while_alive is_alive
later_answers = refl

logout_blacklists_example : is_blacklisted env "j1" later ≡ (ok true, record later { ticks = 51 })
logout_blacklists_example =
    logout_blacklists caching request "10.0.0.1" "browser" world "j1" 900 listed memory-IsRedis
      time_grows jti_named expires (omega arith) accepted later 1 refl (omega arith) (omega arith)
      later_answers

abbrev first_state : World
first_state = (increment_attempts env "login:ada" 60 world).1

abbrev second_state : World
second_state = (increment_attempts env "login:ada" 60 first_state).1

no_entry : entry_at 100000 "login:ada" [] ≡ none
unfolding entry_at
no_entry = refl

first_answers : increment_attempts env "login:ada" 60 world ≡ (ok 1, first_state)
unfolding increment_attempts count_up expire is_endless entry_at while_alive is_alive
first_answers = refl

second_answers : increment_attempts env "login:ada" 60 first_state ≡ (ok 2, second_state)
unfolding increment_attempts count_up expire is_endless entry_at while_alive is_alive
second_answers = refl

first_early : ltb (env.time first_state.ticks) 160001 ≡ true
unfolding increment_attempts count_up expire is_endless entry_at while_alive is_alive
first_early = refl

Attempts-count_example :
    (1 ∷ 2 ∷ [] ≡ count_from 1 (length {A = ℕ} (1 ∷ 2 ∷ [])))
    × ((t : ℕ)
        → env.time second_state.ticks ≤ t
        → entry_at t "login:ada" second_state.keys
          ≡ while_alive t (record { value = memory-IsRedis.numeral 2; expires_at = some 160001 }))
Attempts-count_example =
    Attempts-count env memory-IsRedis time_grows "login:ada" 60 1 (2 ∷ []) world first_state
      second_state no_entry first_answers (attempt first_early second_answers no_attempt)

abbrev counters : Counters
counters = record {
  roles_created = 0;
  permissions_created = 0;
  role_assignments = 0;
  permission_denied = 0;
}

metrics_never_count_example :
    metrics_handle_all
      (new_event (role_created "r1" "auditor")
        ∷ new_event (authorization_denied "u1" "roles.read" none)
        ∷ [])
      counters
    ≡ counters
metrics_never_count_example =
    metrics_never_count
      (new_event (role_created "r1" "auditor")
        ∷ new_event (authorization_denied "u1" "roles.read" none)
        ∷ [])
      counters
