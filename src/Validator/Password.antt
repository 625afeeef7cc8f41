-- ===== src/Validator/Password.antt =====
-- validators/PasswordPolicy.ts. A regular expression that is a character class passes if one character of
-- the password is in the class.
pub mod Policy
use bankos.Prelude.{
  ℕ, String, Bool, true, false, not, ◌&&◌, ◌||◌, List, any, leb, ltb, if◌then◌else◌,
}
use bankos.Text.{codes, js_length}

unfoldable pub is_upper : ℕ → Bool
is_upper c = leb b'A' c && leb c b'Z'

unfoldable pub is_lower : ℕ → Bool
is_lower c = leb b'a' c && leb c b'z'

unfoldable pub is_digit : ℕ → Bool
is_digit c = leb b'0' c && leb c b'9'

-- `[^A-Za-z0-9]`
unfoldable pub is_special : ℕ → Bool
unfolding is_upper is_lower is_digit
is_special c = not (is_upper c || (is_lower c || is_digit c))

unfoldable pub validate : String → Bool
unfolding is_special js_length
validate password =
    if ltb (js_length password) 12
    then false
    else if not (any is_upper (codes password))
    then false
    else if not (any is_lower (codes password))
    then false
    else if not (any is_digit (codes password))
    then false
    else if not (any is_special (codes password))
    then false
    else true
