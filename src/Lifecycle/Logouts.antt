-- ===== src/Lifecycle/Logouts.antt =====
-- LogoutService and the life of the sessions.
use mathlib.Core.Option
use bankos.Prelude.{
  sym, ℕ, ◌-◌, ◌+◌, ◌/◌, String, ◌≡◌, refl, subst, inl, inr, true, Option, none, some, first, ◌===◌,
  ===-refl, ltb, Bool-cases, arith,
}
use bankos.Database.{IsPrisma}
use bankos.Database.Mapper.{to_domain_device_session}
use bankos.Database.Rows.{SessionRow}
use bankos.Domain.Session.{DeviceSession}
use bankos.Lifecycle.Lawful.{IsFresh, IsLawful, Revokes, bind_quiet-IsLawful, quiet-IsLawful, taken}
use bankos.Lifecycle.Lawful.Saved.{revoke_then-Revokes}
use bankos.Lifecycle.Parts.{blacklist-IsQuiet}
use bankos.Lifecycle.Quiet.{IsQuiet, dispatch_from-IsQuiet}
use bankos.Lifecycle.Spec.{Evolves, unchanged}
use bankos.Repository.Laws.{first-any, domain_session_id}
use bankos.Runtime.Action.{hash_string}
use bankos.Runtime.World.{World}
use bankos.Service.Logout.{blacklist_for, blacklist_access, revoke_found, revoke_claimed, logout}
use bankos.Service.Logout.Authorized.{find_session_lem}
use bankos.Service.Setup.{Setup, LogoutRequest, dispatch_from}

module _ (s : Setup) (request : LogoutRequest) (ip_address user_agent : String) where
  blacklist_for-IsQuiet :
      (jti : Option String) (exp : Option ℕ)
      → IsQuiet (blacklist_for s request ip_address user_agent jti exp)
  unfolding blacklist_for
  blacklist_for-IsQuiet none exp w = (refl, omega arith)
  blacklist_for-IsQuiet (some jti) none w = (refl, omega arith)
  blacklist_for-IsQuiet (some jti) (some exp) w =
      let ttl = exp - s.env.time w.ticks / 1000 in
      elim (Bool-cases (ltb 0 ttl)) [
        | inl alive ↦ rw alive (blacklist-IsQuiet s jti ttl (record w { ticks = w.ticks + 1 }))
        | inr over ↦ rw over (refl, omega arith)
      ]

  blacklist_access-IsQuiet : IsQuiet (blacklist_access s request ip_address user_agent)
  unfolding blacklist_access
  blacklist_access-IsQuiet w = blacklist_for-IsQuiet _ _ w

  module _ (laws : IsPrisma s.env.prisma)
      (distinct : (m n : ℕ) → (s.env.random_uuid m === s.env.random_uuid n) ≡ true → m ≡ n) where
    revoke_found-Revokes :
        (session : DeviceSession)
        → Revokes s.env session.id (revoke_found s request ip_address user_agent (some session))
    unfolding revoke_found
    revoke_found-Revokes session w fresh known = elim (Bool-cases session.is_revoked) [
      | inl gone ↦ simp gone (fresh, unchanged)
      | inr live ↦
          elim (Bool-cases (session.refresh_token === hash_string s.env request.refresh_token)) [
            | inl right ↦
                let revoked =
                  revoke_then-Revokes s.env laws distinct "User requested logout" session
                    (λ a. dispatch_from s.env ip_address user_agent a.domain_events)
                    (λ a.
                      quiet-IsLawful s.env
                        (dispatch_from s.env ip_address user_agent a.domain_events)
                        (dispatch_from-IsQuiet s.env ip_address user_agent a.domain_events))
                    w fresh known in
                simp (live, right) revoked
            | inr wrong ↦ simp (live, wrong) (fresh, unchanged)
          ]
    ]

    found-IsLawful :
        (id : String) (w : World) (found : Option SessionRow)
        → IsFresh s.env w
        → first (λ r. r.id === id) w.sessions ≡ found
        → let result =
            revoke_found s request ip_address user_agent
              (Option.map to_domain_device_session found)
              w in
          IsFresh s.env result.1 × Evolves w.sessions result.1.sessions
    unfolding revoke_found
    found-IsLawful id w none fresh known = (fresh, unchanged)
    found-IsLawful id w (some r) fresh known =
        let there' : taken r.id w.sessions ≡ true =
          first-any (λ (x : SessionRow). x.id === id) (λ x. x.id === r.id) w.sessions r known
            (===-refl r.id) in
        revoke_found-Revokes (to_domain_device_session r) w fresh
          (subst (λ i. taken i w.sessions ≡ true) (sym (domain_session_id r)) there')

    revoke_claimed-IsLawful :
        (id : Option String) → IsLawful s.env (revoke_claimed s request ip_address user_agent id)
    unfolding revoke_claimed
    revoke_claimed-IsLawful none w fresh = (fresh, unchanged)
    revoke_claimed-IsLawful (some id) w fresh =
        rw (find_session_lem s laws request ip_address user_agent id w)
          (found-IsLawful id w (first (λ r. r.id === id) w.sessions) fresh refl)

    pub logout-IsLawful : IsLawful s.env (logout s request ip_address user_agent)
    unfolding logout
    logout-IsLawful w fresh =
        bind_quiet-IsLawful s.env (blacklist_access s request ip_address user_agent) _
          blacklist_access-IsQuiet (λ _. revoke_claimed-IsLawful _) w fresh
