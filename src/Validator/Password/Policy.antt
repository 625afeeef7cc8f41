-- ===== src/Validator/Password/Policy.antt =====
-- What the password policy asks for.
use bankos.Prelude.{ℕ, String, ◌≤◌, ◌≡◌, ◌↔◌, Bool, true, arith, any, any_sound, any_complete, Elem}
use bankos.Text.{codes, js_length}
use bankos.Validator.Password.{is_upper, is_lower, is_digit, is_special, validate}

-- Some character of the password is of the given kind.
pub record Has (kind : ℕ → Bool) (password : String) : Type 0 where
  pub char : ℕ
  pub within : Elem char (codes password)
  pub fits : kind char ≡ true

Has-iff :
    (kind : ℕ → Bool) (password : String) → (any kind (codes password) ≡ true) ↔ Has kind password
Has-iff kind password = (
  λ h.
      let (c, m, e) = any_sound kind (codes password) h in
      record { char = c; within = m; fits = e },
  λ h. any_complete kind h.char (codes password) h.within h.fits,
)

abbrev pub IsStrong : String → Type 0
IsStrong password =
    (12 ≤ js_length password)
    × Has is_upper password
    × Has is_lower password
    × Has is_digit password
    × Has is_special password

-- A password passes exactly when it has at least twelve UTF-16 units and among its characters an upper
-- case and a lower case letter of ASCII, a digit, and a character that is none of these.
pub validate_iff : (password : String) → (validate password ≡ true) ↔ IsStrong password
unfolding validate
validate_iff password = (
  λ h. (
    ground arith,
    (Has-iff is_upper password).0 (ground arith),
    (Has-iff is_lower password).0 (ground arith),
    (Has-iff is_digit password).0 (ground arith),
    (Has-iff is_special password).0 (ground arith),
  ),
  λ (size, upper, lower, digit, special). ground (
    arith,
    (Has-iff is_upper password).1 upper,
    (Has-iff is_lower password).1 lower,
    (Has-iff is_digit password).1 digit,
    (Has-iff is_special password).1 special,
  ),
)
