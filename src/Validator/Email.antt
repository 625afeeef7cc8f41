-- ===== src/Validator/Email.antt =====
-- validators/EmailValidator.ts: `isValid` is the regular expression ^[^\s@]+@[^\s@]+\.[^\s@]+$, read from
-- left to right.
pub mod Format
use Prim.Native.String
use bankos.Prelude.{
  ℕ, String, Bool, true, false, not, ◌&&◌, ◌||◌, List, [], ◌∷◌, all, leb, ◌==◌, if◌then◌else◌,
}
use bankos.Text.{codes, trim, is_space}
use bankos.Runtime.Packages.{Packages}

module _ (env : Packages) where
  unfoldable pub normalize : String → String
  normalize email = env.to_lower_case (trim email)

-- `[^\s@]`
unfoldable pub is_atom : ℕ → Bool
is_atom c = not (is_space c) && not (c == b'@')

-- `[^\s@]+$`
unfoldable pub ends_in_atoms : List ℕ → Bool
ends_in_atoms [] = false
ends_in_atoms (d ∷ ds) = is_atom d && all is_atom ds

-- `[^\s@]+\.[^\s@]+$`: the dot is tried at every place that the first part reaches; `seen` says whether
-- a character stands before.
unfoldable pub has_dot : Bool → List ℕ → Bool
has_dot seen [] = false
has_dot seen (c ∷ cs) = (seen && (c == b'.' && ends_in_atoms cs)) || (is_atom c && has_dot true cs)

-- `[^\s@]+@`, and then the domain.
unfoldable pub local_part : Bool → List ℕ → Bool
local_part seen [] = false
local_part seen (c ∷ cs) =
    if c == b'@' then seen && has_dot false cs else is_atom c && local_part true cs

unfoldable pub is_valid : String → Bool
is_valid email = local_part false (codes email)
