-- ===== src/Gateway/Correlation.antt =====
-- middlewares/correlationId.ts: the id under which a request is traced.
use bankos.Prelude.{
  ℕ, zero, suc, String, Bool, true, false, ◌&&◌, ◌||◌, Option, none, some, List, [], ◌∷◌, ◌++◌, leb,
  ◌==◌, if◌then◌else◌,
}
use bankos.Http.{Headers, header}
use bankos.Text.{codes}

-- `[0-9a-f]` with the flag `i`.
unfoldable pub is_hex : ℕ → Bool
is_hex c = (leb 48 c && leb c 57) || (leb 97 c && leb c 102) || (leb 65 c && leb c 70)

abbrev is_dash : ℕ → Bool
is_dash c = c == 45

abbrev is_four : ℕ → Bool
is_four c = c == 52

-- `[89ab]` with the flag `i`.
unfoldable pub is_variant : ℕ → Bool
is_variant c = (c == 56) || (c == 57) || (c == 97) || (c == 98) || (c == 65) || (c == 66)

abbrev hex_run : ℕ → List (ℕ → Bool)
hex_run zero = []
hex_run (suc n) = is_hex ∷ hex_run n

-- One class for each character of the pattern.
abbrev uuid_classes : List (ℕ → Bool)
uuid_classes =
    hex_run 8
    ++ is_dash ∷ hex_run 4
    ++ is_dash ∷ is_four ∷ hex_run 3
    ++ is_dash ∷ is_variant ∷ hex_run 3
    ++ is_dash ∷ hex_run 12

-- Each code point in the class at its place, and none left over.
unfoldable pub fits : List (ℕ → Bool) → List ℕ → Bool
fits [] [] = true
fits [] (_ ∷ _) = false
fits (_ ∷ _) [] = false
fits (class ∷ classes) (c ∷ cs) = class c && fits classes cs

-- `UUIDV4_REGEX.test(text)`
unfoldable pub is_uuid_v4 : String → Bool
unfolding fits is_hex is_variant
is_uuid_v4 text = fits uuid_classes (codes text)

unfoldable pub choose_id : (generated : String) → Option String → String
choose_id generated none = generated
choose_id generated (some id) = if is_uuid_v4 id then id else generated

-- `correlationIdMiddleware`: the client's id where it is a UUID, and a generated one otherwise.
unfoldable pub correlation_id : (generated : String) → Headers → String
correlation_id generated headers = choose_id generated (header "x-correlation-id" headers)
