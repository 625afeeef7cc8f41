-- ===== src/Engine/Resolver.antt =====
-- engine/PermissionResolver.ts and engine/AuthorizationEngine.ts. `collectRoles` recurs along the
-- parents of a role; `fuel` bounds the calls, and running out is `none`.
pub mod Termination
pub mod Closure
pub mod Permissions
use bankos.Prelude.{
  ℕ, zero, suc, String, Bool, true, false, Option, none, some, List, [], ◌∷◌, ◌++◌, map, length,
  first, includes, set_add, ◌===◌, if◌then◌else◌,
}
use bankos.Domain.Access.{Role}

-- `new Map(roles.map(r => [r.name, r])).get(name)`: a later entry replaces an earlier one.
unfoldable pub role_map_get : List Role → String → Option Role
role_map_get [] name = none
role_map_get (r ∷ rs) name = elim (role_map_get rs name) [
  | some later ↦ some later
  | none ↦ if r.name === name then some r else none
]

-- `if (role.parentId)`, then `roles.find(r => r.id === role.parentId)`; "" is falsy.
unfoldable pub parent_from : List Role → Option String → Option Role
parent_from roles none = none
parent_from roles (some id) = if id === "" then none else first (λ (r : Role). r.id === id) roles

unfoldable pub parent_role : List Role → Role → Option Role
unfolding parent_from
parent_role roles role = parent_from roles role.parent_id

module _ (roles : List Role) where
  unfoldable pub collect_roles : ℕ → String → List String → Option (List String)
  collect_roles zero name effective = none
  collect_roles (suc fuel) name effective = elim (includes effective name) [
    | true ↦ some effective
    | false ↦ elim (role_map_get roles name) [
      | none ↦ some effective
      | some role ↦ elim (parent_role roles role) [
        | none ↦ some (effective ++ name ∷ [])
        | some parent ↦ collect_roles fuel parent.name (effective ++ name ∷ [])
      ]
    ]
  ]

  -- `for (const roleName of roleNames) collectRoles(roleName)`
  unfoldable pub collect_all : ℕ → List String → List String → Option (List String)
  collect_all fuel [] effective = some effective
  collect_all fuel (name ∷ names) effective = elim (collect_roles fuel name effective) [
    | none ↦ none
    | some effective' ↦ collect_all fuel names effective'
  ]

  -- One call of `collectRoles` adds a new name of a role, so one more than the roles is enough.
  unfoldable pub resolve_effective_roles : List String → Option (List String)
  resolve_effective_roles names = collect_all (suc (length roles)) names []

  module _ (find_permissions : String → List String) where
    -- `for (const p of perms) effectivePermissions.add(p)`
    unfoldable pub add_each : List String → List String → List String
    add_each [] permissions = permissions
    add_each (p ∷ ps) permissions = add_each ps (set_add p permissions)

    unfoldable pub permissions_from : List String → List String → List String
    permissions_from [] permissions = permissions
    permissions_from (name ∷ names) permissions = elim (role_map_get roles name) [
      | none ↦ permissions_from names permissions
      | some role ↦ permissions_from names (add_each (find_permissions role.id) permissions)
    ]

    unfoldable pub resolve_effective_permissions : List String → Option (List String)
    resolve_effective_permissions names = elim (resolve_effective_roles names) [
      | none ↦ none
      | some effective ↦ some (permissions_from effective [])
    ]
