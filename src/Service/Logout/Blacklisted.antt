-- ===== src/Service/Logout/Blacklisted.antt =====
-- A logout puts the access token on the blacklist for as long as it lives.
use bankos.Prelude.{
  ℕ, ◌+◌, ◌-◌, ◌*◌, ◌/◌, ◌≤◌, ◌<◌, String, ◌≡◌, refl, ap, ◌∙◌, inl, inr, true, Option, none, some,
  ◌===◌, ltb, ok, arith, Bool-cases,
}
use bankos.Cache.{get_blacklist_key, blacklist_token, is_blacklisted}
use bankos.Cache.Blacklist.{listed_until}
use bankos.Cache.Laws.{IsRedis}
use bankos.Crypto.Tokens.{decode}
use bankos.Domain.Session.{DeviceSession, revoke}
use bankos.Events.Untouched.{dispatch-Keeps}
use bankos.Repository.Sessions as Sessions
use bankos.Runtime.Action.{lift, hash_string, ◌>>◌, database_error}
use bankos.Runtime.Keeps.{Keeps, bind-Keeps, stored-Keeps}
use bankos.Runtime.Packages.{Keyspace}
use bankos.Runtime.World.{World}
use bankos.Service.Logout.{
  jti_claim, blacklist_for, blacklist_access, revoke_found, revoke_claimed, logout,
}
use bankos.Service.Setup.{Setup, LogoutRequest, expiry_claim, dispatch_from}

module _ (s : Setup) (request : LogoutRequest) (ip_address user_agent : String) where
  abbrev keys_of : World → Keyspace
  keys_of w = w.keys

  save-Keeps : (session : DeviceSession) → Keeps keys_of (Sessions.save s.env session)
  unfolding Sessions.save
  save-Keeps session w =
      stored-Keeps keys_of _ (λ t. record w { sessions = t }) database_error w (λ t. refl)

  dispatch_from-Keeps :
      (session : DeviceSession)
      → Keeps keys_of (dispatch_from s.env ip_address user_agent session.domain_events)
  unfolding dispatch_from
  dispatch_from-Keeps session w = dispatch-Keeps s.env keys_of (λ w log draws ticks. refl) _ w

  revoke_found-Keeps :
      (found : Option DeviceSession)
      → Keeps keys_of (revoke_found s request ip_address user_agent found)
  unfolding revoke_found
  revoke_found-Keeps none w = refl
  revoke_found-Keeps (some session) w = elim (Bool-cases session.is_revoked) [
    | inl gone ↦ simp gone refl
    | inr live ↦
        elim (Bool-cases (session.refresh_token === hash_string s.env request.refresh_token)) [
          | inl right ↦
              let kept =
                bind-Keeps keys_of (lift (revoke "User requested logout" session))
                  (λ a.
                    Sessions.save s.env a
                    >> dispatch_from s.env ip_address user_agent a.domain_events)
                  (λ w. refl)
                  (λ a.
                    bind-Keeps keys_of (Sessions.save s.env a)
                      (λ _. dispatch_from s.env ip_address user_agent a.domain_events)
                      (save-Keeps a) (λ _. dispatch_from-Keeps a))
                  w in
              simp (live, right) kept
          | inr wrong ↦ simp (live, wrong) refl
        ]
  ]

  revoke_claimed-Keeps :
      (id : Option String) → Keeps keys_of (revoke_claimed s request ip_address user_agent id)
  unfolding revoke_claimed Sessions.find_by_id
  revoke_claimed-Keeps none w = refl
  revoke_claimed-Keeps (some id) w = revoke_found-Keeps _ w

  module _ (w : World) (jti : String) (exp : ℕ) (keys : Keyspace) where
    abbrev ttl : ℕ
    ttl = exp - s.env.time w.ticks / 1000

    listed : World
    listed = record w { keys = keys; ticks = w.ticks + 1 + 1 }

    blacklist_access-lists :
        jti_claim (decode s.env s.config s.keys request.access_token) ≡ some jti
        → expiry_claim (decode s.env s.config s.keys request.access_token) ≡ some exp
        → ltb 0 ttl ≡ true
        → s.env.redis.set_ex (s.env.time (w.ticks + 1)) (get_blacklist_key s.env jti) "1" ttl w.keys
          ≡ some keys
        → blacklist_access s request ip_address user_agent w ≡ (ok tt, listed)
    unfolding blacklist_access blacklist_for blacklist_token listed
    blacklist_access-lists named expires lives accepted = rw (named, expires, lives, accepted) refl

    -- A logout with an access token that has an id and is alive leaves the token on the blacklist at least
    -- until it expires, whatever the logout answers: a later test of the token before that time, on
    -- the keys that the logout left, says that it is listed. The server accepts the entry and
    -- answers the test, it follows its laws, and the clock does not run backwards.
    pub logout_blacklists :
        IsRedis s.env.redis
        → ((m n : ℕ) → m ≤ n → s.env.time m ≤ s.env.time n)
        → jti_claim (decode s.env s.config s.keys request.access_token) ≡ some jti
        → expiry_claim (decode s.env s.config s.keys request.access_token) ≡ some exp
        → s.env.time w.ticks / 1000 < exp
        → s.env.redis.set_ex
            (s.env.time (w.ticks + 1))
            (get_blacklist_key s.env jti)
            "1"
            (exp - s.env.time w.ticks / 1000)
            w.keys
          ≡ some keys
        → (v : World) (n : ℕ) → v.keys ≡ (logout s request ip_address user_agent w).1.keys
        → w.ticks + 1 ≤ v.ticks
        → s.env.time v.ticks < exp * 1000
        → s.env.redis.exists (s.env.time v.ticks) (get_blacklist_key s.env jti) v.keys ≡ some n
        → is_blacklisted s.env jti v ≡ (ok true, record v { ticks = v.ticks + 1 })
    unfolding logout listed
    logout_blacklists laws monotone named expires lives accepted v n same later early answers =
        let positive : ltb 0 ttl ≡ true = ground (arith, lives) in
        let done = blacklist_access-lists named expires positive accepted in
        let kept : v.keys ≡ keys = same ∙ rw done (revoke_claimed-Keeps _ listed) in
        let now : World = record w { ticks = w.ticks + 1 } in
        let before = monotone w.ticks (w.ticks + 1) (omega arith) in
        let inside : ltb (s.env.time v.ticks) (s.env.time (w.ticks + 1) + ttl * 1000) ≡ true =
          ground (arith, early, before, lives) in
        listed_until s.env laws jti ttl n now v keys accepted kept
          (monotone (w.ticks + 1) v.ticks later) answers
        ∙ ap (λ b. (ok b, record v { ticks = v.ticks + 1 })) inside
