-- ===== src/Service/Login/Lockout.antt =====
-- What a run of wrong passwords does to an account.
use bankos.Prelude.{
  ◌+◌, ◌<◌, ◌≤◌, String, ◌≡◌, refl, ap, ◌∙◌, inl, inr, true, false, Option, some, List, [], ◌∷◌,
  first, ◌===◌, ===-refl, Bool-cases, arith, leb, All, length, err,
}
use bankos.Crypto.Passwords as Passwords
use bankos.Database.{IsPrisma}
use bankos.Database.Rows.{UserRow}
use bankos.Database.Mapper.{to_domain_user, user_columns}
use bankos.Domain.User.{increment_failed_attempts, lock}
use bankos.Database.Delegate.{update_where}
use bankos.Repository.Laws.{first-update_where}
use bankos.Repository.Users.{updated_columns}
use bankos.Runtime.World.{World}
use bankos.Service.Setup.{Setup, LoginRequest}
use bankos.Service.Login.{invalid_credentials, login}
use bankos.Service.Login.Refusal.{login_refuses, login_wrong, written}
use bankos.Validator.Email.{normalize, is_valid}

-- The row after one more wrong password.
unfoldable pub fail_row : UserRow → UserRow
fail_row r = record r {
  failed_login_attempts = r.failed_login_attempts + 1;
  is_locked = leb 5 (r.failed_login_attempts + 1);
}

columns_fail :
    (r : UserRow)
    → r.is_locked ≡ false
    → updated_columns (user_columns (increment_failed_attempts 5 (to_domain_user r))) r ≡ fail_row r
unfolding increment_failed_attempts to_domain_user user_columns lock fail_row
columns_fail r free = elim (Bool-cases (leb 5 (r.failed_login_attempts + 1))) [
  | inl full ↦ simp (free, full) refl
  | inr below ↦ simp (free, below) refl
]

-- The state with one more failed attempt in the account of a row: what its id names keeps its id and
-- e-mail, and is else the row with one more failure.
unfoldable pub failed_world : World → UserRow → World
failed_world w r = record w {
  users =
      update_where (λ x. x.id === r.id) (λ x. record (fail_row r) { id = x.id; email = x.email })
        w.users;
}

columns_failed :
    (r x : UserRow)
    → r.is_locked ≡ false
    → updated_columns (user_columns (increment_failed_attempts 5 (to_domain_user r))) x
      ≡ record (fail_row r) { id = x.id; email = x.email }
unfolding increment_failed_attempts to_domain_user user_columns lock fail_row
columns_failed r x free = elim (Bool-cases (leb 5 (r.failed_login_attempts + 1))) [
  | inl full ↦ simp (free, full) refl
  | inr below ↦ simp (free, below) refl
]

written_failed : (w : World) (r : UserRow) → r.is_locked ≡ false → written w r ≡ failed_world w r
unfolding written failed_world
written_failed w r free = λ i. record w {
  users = update_where (λ x. x.id === r.id) (λ x. columns_failed r x free i) w.users;
}

-- A wrong password for a valid e-mail whose account is not locked gets the same answer as a locked
-- account, and writes to the row of the account one more failed attempt, and the lock where this
-- is the fifth or a later one, and nothing else: no other row and no other table.
pub login_counts_failure :
    (s : Setup) (laws : IsPrisma s.env.prisma) (request : LoginRequest) (w : World) (r : UserRow)
    → is_valid (normalize s.env request.email) ≡ true
    → first (λ r. r.email === normalize s.env request.email) w.users ≡ some r
    → r.is_locked ≡ false
    → Passwords.verify s.env s.config r.password_hash request.password_raw ≡ false
    → login s request w ≡ (err invalid_credentials, failed_world w r)
login_counts_failure s laws request w r valid known free wrong =
    login_wrong s laws request w r valid known free wrong
    ∙ ap (λ v. (err invalid_credentials, v)) (written_failed w r free)

-- One request after the other, whatever each is answered.
unfoldable pub login_all : Setup → List LoginRequest → World → World
login_all s [] w = w
login_all s (request ∷ requests) w = login_all s requests (login s request w).1

-- A request for the account of an e-mail with a password that its hash does not verify.
abbrev pub IsWrong : Setup → String → String → LoginRequest → Type 0
IsWrong s email stored_hash request =
    (normalize s.env request.email ≡ email)
    × (Passwords.verify s.env s.config stored_hash request.password_raw ≡ false)

module _ (s : Setup) (laws : IsPrisma s.env.prisma) (email : String) where
  abbrev pub row_of : World → Option UserRow
  row_of w = first (λ r. r.email === email) w.users

  written-row :
      (w : World) (r : UserRow)
      → row_of w ≡ some r
      → r.is_locked ≡ false
      → row_of (written w r) ≡ some (fail_row r)
  unfolding written
  written-row w r known free =
      let f = updated_columns (user_columns (increment_failed_attempts 5 (to_domain_user r))) in
      first-update_where (λ x. x.email === email) (λ x. x.id === r.id) f w.users (λ x. refl)
      ∙ simp (known, ===-refl r.id) (ap some (columns_fail r free))

  stays :
      (requests : List LoginRequest) (stored_hash : String) (w : World) (r : UserRow)
      → All (IsWrong s email stored_hash) requests
      → row_of w ≡ some r
      → r.is_locked ≡ true
      → login_all s requests w ≡ w
  unfolding login_all
  stays [] stored_hash w r wrong known locked = refl
  stays (q ∷ requests) stored_hash w r ((same, _), wrong) known locked =
      let refused = login_refuses s laws q w (inr (inr (r, rw same known, locked))) in
      rw refused (stays requests stored_hash w r wrong known locked)

  module _ (valid : is_valid email ≡ true) where
    -- For a valid e-mail whose account is not locked and has fewer than five failed attempts:
    -- once wrong passwords bring these to five, however many wrong passwords follow, a login
    -- with that e-mail and any password is refused like one with a wrong password, and writes
    -- nothing.
    pub login_all-locks :
        (requests : List LoginRequest) (w : World) (r : UserRow)
        → All (IsWrong s email r.password_hash) requests
        → row_of w ≡ some r
        → r.is_locked ≡ false
        → r.failed_login_attempts < 5
        → 5 ≤ r.failed_login_attempts + length requests
        → (request : LoginRequest) → normalize s.env request.email ≡ email
        → login s request (login_all s requests w)
          ≡ (err invalid_credentials, login_all s requests w)
    unfolding login_all fail_row
    login_all-locks [] w r wrong known free below enough request target = ground arith
    login_all-locks (q ∷ requests) w r ((same, fails), wrong) known free below enough request
          target =
        let step = login_wrong s laws q w r (rw same valid) (rw same known) free fails in
        let row = written-row w r known free in
        elim (Bool-cases (leb 5 (r.failed_login_attempts + 1))) [
          | inl full ↦
              let unmoved =
                stays requests r.password_hash (written w r) (fail_row r) wrong row full in
              rw (step, unmoved)
                (login_refuses s laws request (written w r)
                  (inr (inr (fail_row r, rw target row, full))))
          | inr still ↦ rw step (
              login_all-locks requests (written w r) (fail_row r) wrong row still (ground arith)
                (ground arith) request target)
        ]
