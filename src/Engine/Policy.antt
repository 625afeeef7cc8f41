-- ===== src/Engine/Policy.antt =====
-- engine/PolicyEngine.ts: the policies that a route can require.
use bankos.Prelude.{String, Bool, not, List, includes, any, all}
use bankos.Engine.Evaluator.{has_permission}

unfoldable pub require_role : List String → String → Bool
require_role granted_roles required_role = includes granted_roles required_role

unfoldable pub require_permission : List String → String → Bool
require_permission granted required = has_permission granted required

unfoldable pub require_any : List String → List String → Bool
require_any granted required = any (λ req. has_permission granted req) required

unfoldable pub require_all : List String → List String → Bool
require_all granted required = all (λ req. has_permission granted req) required

-- `PolicyEngine.not`
unfoldable pub forbid : List String → String → Bool
forbid granted forbidden = not (has_permission granted forbidden)
