-- ===== src/Engine/Evaluator.antt =====
-- engine/RBACEvaluator.ts: does a granted permission, perhaps with a wildcard, satisfy a required one?
pub mod Laws
use Prim.Native.String
use bankos.Prelude.{String, Bool, true, false, List, any, ◌===◌, if◌then◌else◌}
use bankos.Text.{ends_with, drop_end, starts_with}

unfoldable pub match_permission : String → String → Bool
match_permission granted required =
    if granted === required
    then true
    else if granted === "*"
    then true
    else if ends_with granted ".*"
    then (let prefix = drop_end 2 granted in
        if starts_with required (String.◌++◌ prefix ".") then true else false)
    else false

unfoldable pub has_permission : List String → String → Bool
has_permission granted_permissions required_permission =
    any (λ granted. match_permission granted required_permission) granted_permissions
