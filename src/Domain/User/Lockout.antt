-- ===== src/Domain/User/Lockout.antt =====
-- The lockout of a user: when it happens, and what undoes it.
use bankos.Prelude.{
  ℕ, zero, suc, ◌+◌, ◌<◌, String, ◌≡◌, refl, ap, ◌∙◌, ◌⊎◌, inl, inr, true, false, arith, ok, leb,
  Bool-cases, err, invalid_state,
}
use Prim.Native.Nat.add
use bankos.Domain.User.{
  User, lock, unlock, increment_failed_attempts, reset_failed_attempts, verify_email, record_login,
}

-- `incrementFailedAttempts(max)`, `n` times in a row.
unfoldable pub fail_times : ℕ → ℕ → User → User
fail_times zero max u = u
fail_times (suc n) max u = increment_failed_attempts max (fail_times n max u)

abbrev CountsTo : ℕ → User → Type 0
CountsTo k u = (u.is_locked ≡ true) ⊎ (u.failed_login_attempts ≡ k)

increment-locked :
    (k max : ℕ) (v : User)
    → v.is_locked ≡ leb max k
    → CountsTo k v
    → ((increment_failed_attempts max v).is_locked ≡ leb max (suc k))
      × CountsTo (suc k) (increment_failed_attempts max v)
unfolding increment_failed_attempts
increment-locked k max v locked count = elim (Bool-cases v.is_locked) [
  | inl shut ↦ (ground arith, inl (ground arith))
  | inr free ↦ (ground arith, inr (ground arith))
]

-- From an unlocked user below the maximum, `n` failures in a row lock the user exactly when they
-- bring the count to the maximum; as long as the user is not locked, the count is exact.
pub fail_times-locked :
    (n max : ℕ) (u : User)
    → u.is_locked ≡ false
    → u.failed_login_attempts < max
    → ((fail_times n max u).is_locked ≡ leb max (n + u.failed_login_attempts))
      × (((fail_times n max u).is_locked ≡ true)
          ⊎ ((fail_times n max u).failed_login_attempts ≡ n + u.failed_login_attempts))
unfolding fail_times
fail_times-locked zero max u free below = (ground arith, inr (ground arith))
fail_times-locked (suc n) max u free below =
    let (ih, count) = fail_times-locked n max u free below in
    rw (add.suc n u.failed_login_attempts)
      (increment-locked (n + u.failed_login_attempts) max (fail_times n max u) ih count)

-- No method but `unlock` frees a locked user: a failure, a reset of the count and a verification of
-- the e-mail leave the lock, and a login is refused.
pub locked_stays :
    (u : User) (max : ℕ) (ip_address user_agent reason : String)
    → u.is_locked ≡ true
    → (increment_failed_attempts max u ≡ u)
      × (lock reason u ≡ u)
      × ((reset_failed_attempts u).is_locked ≡ true)
      × ((verify_email u).is_locked ≡ true)
      × (record_login ip_address user_agent u
          ≡ err (invalid_state "User is locked and cannot log in"))
unfolding increment_failed_attempts lock reset_failed_attempts verify_email record_login
locked_stays u max ip_address user_agent reason h = ground arith

record_login-clears :
    (u : User) (ip_address user_agent : String) {u' : User}
    → record_login ip_address user_agent u ≡ ok u'
    → (u'.is_locked ≡ false) × (u'.failed_login_attempts ≡ 0)
unfolding record_login reset_failed_attempts
record_login-clears u ip_address user_agent e = ground arith

unlock-clears : (u : User) → ((unlock u).is_locked ≡ false) × ((unlock u).failed_login_attempts ≡ 0)
unfolding unlock
unlock-clears u = (refl, refl)

cleared_locks :
    (n max : ℕ) (u : User)
    → 0 < max
    → u.is_locked ≡ false
    → u.failed_login_attempts ≡ 0
    → (fail_times n max u).is_locked ≡ leb max n
cleared_locks n max u some_max free none_yet =
    let below : u.failed_login_attempts < max = omega (arith, some_max, none_yet) in
    let count : n + u.failed_login_attempts ≡ n = omega (arith, none_yet) in
    (fail_times-locked n max u free below).0 ∙ ap (leb max) count

-- A login that succeeds and an unlock start the count of the failures over, whatever it was before: for a
-- maximum of at least one, `n` failures in a row after either lock the user exactly where `n` is at
-- least the maximum.
pub count_starts_over :
    (u v : User) (n max : ℕ) (ip_address user_agent : String) {u' : User}
    → 0 < max
    → record_login ip_address user_agent u ≡ ok u'
    → ((fail_times n max u').is_locked ≡ leb max n)
      × ((fail_times n max (unlock v)).is_locked ≡ leb max n)
count_starts_over u v n max ip_address user_agent {u'} some_max logged_in =
    let (free, none_yet) = record_login-clears u ip_address user_agent logged_in in
    let (unlocked, cleared) = unlock-clears v in
    (
      cleared_locks n max u' some_max free none_yet,
      cleared_locks n max (unlock v) some_max unlocked cleared,
    )
