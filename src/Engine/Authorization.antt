-- ===== src/Engine/Authorization.antt =====
-- engine/AuthorizationEngine.ts, over the role repository.
use bankos.Prelude.{String, Option, none, some, List, []}
use bankos.Engine.Resolver.{resolve_effective_roles, resolve_effective_permissions}
use bankos.Repository.Roles as Roles
use bankos.Runtime.Packages.{Packages}
use bankos.Runtime.Action.{Action, pure, gets, ◌>>=◌}

-- `none` stands for fuel that ran out.
unfoldable pub resolved : Option (List String) → List String
resolved none = []
resolved (some names) = names

module _ (env : Packages) where
  unfoldable pub resolve_roles : List String → Action (List String)
  resolve_roles role_names = do
    roles ← Roles.find_all env
    pure (resolved (resolve_effective_roles roles role_names))

  unfoldable pub resolve_permissions : List String → Action (List String)
  resolve_permissions role_names = do
    roles ← Roles.find_all env
    gets λ w.
        resolved (resolve_effective_permissions roles (Roles.find_permissions_in env w) role_names)
