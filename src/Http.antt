-- ===== src/Http.antt =====
-- Requests and answers, as the middlewares of both services see them: the headers under their names
-- in small letters, the first value of each, as node gives them.
use bankos.Prelude.{
  ℕ, String, ◌≡◌, refl, Bool, false, not, Option, none, some, List, [], ◌∷◌, ◌===◌, ===_iff,
  ===-refl, if◌then◌else◌, Bool-cases, inl, inr,
}

abbrev pub Headers : Type 0
Headers = List (String × String)

-- `headers[name]`
unfoldable pub header : String → Headers → Option String
header name [] = none
header name ((key, value) ∷ rest) = if key === name then some value else header name rest

-- `delete headers[name]`
unfoldable pub delete_header : String → Headers → Headers
delete_header name [] = []
delete_header name ((key, value) ∷ rest) =
    if key === name then delete_header name rest else (key, value) ∷ delete_header name rest

-- `headers[name] = value`
unfoldable pub set_header : String → String → Headers → Headers
unfolding delete_header
set_header name value headers = (name, value) ∷ delete_header name headers

-- An undefined and an empty value are falsy.
unfoldable pub is_truthy : Option String → Bool
is_truthy none = false
is_truthy (some value) = not (value === "")

-- A JSON answer, by its status, the error it names and its message.
pub record Answer : Type 0 where
  pub status : ℕ
  pub error : String
  pub message : String

pub header_delete_same : (name : String) (h : Headers) → header name (delete_header name h) ≡ none
unfolding header delete_header
header_delete_same name [] = refl
header_delete_same name ((key, value) ∷ h) = elim (Bool-cases (key === name)) [
  | inl same ↦ rw same (header_delete_same name h)
  | inr other ↦ rw (other, other) (header_delete_same name h)
]

pub header_delete_other :
    (name key : String) (h : Headers)
    → (name === key) ≡ false
    → header name (delete_header key h) ≡ header name h
unfolding header delete_header
header_delete_other name key [] differ = refl
header_delete_other name key ((k, value) ∷ h) differ = elim (Bool-cases (k === key)) [
  | inl same ↦
      let is : k ≡ key = (===_iff k key).0 same in
      elim (Bool-cases (k === name)) [
        | inl clash ↦ let is' : k ≡ name = (===_iff k name).0 clash in cc (is', differ)
        | inr apart ↦ rw (same, apart) (header_delete_other name key h differ)
      ]
  | inr other ↦ elim (Bool-cases (k === name)) [
    | inl clash ↦ rw (other, clash) refl
    | inr apart ↦ rw (other, apart) (header_delete_other name key h differ)
  ]
]

pub header_set_same :
    (name value : String) (h : Headers) → header name (set_header name value h) ≡ some value
unfolding header set_header
header_set_same name value h = rw (===-refl name) refl

pub header_set_other :
    (name key value : String) (h : Headers)
    → (key === name) ≡ false
    → (name === key) ≡ false
    → header name (set_header key value h) ≡ header name h
unfolding header set_header
header_set_other name key value h apart differ = rw apart (header_delete_other name key h differ)
