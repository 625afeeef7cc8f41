-- ===== src/Controller/Roles.antt =====
-- controllers/RoleController.ts, PermissionController.ts and JwksController.ts. What the services throw
-- goes on to the error handler.
use bankos.Prelude.{String, Option, none, some, List, ◌===◌, if◌then◌else◌, ok}
use bankos.Domain.Access.{Role, Permission}
use bankos.Domain.Event.{Event}
use bankos.Repository.Permissions as Permissions
use bankos.Repository.Roles as Roles
use bankos.Runtime.Action.{Action, pure, ◌>>=◌, ◌>>◌}
use bankos.Runtime.Packages.{Packages}
use bankos.Service.Administration as Administration

-- What a route answers: a new id, a list, a role with its permissions, success, or an error.
pub data Shown : Type 0 where
  created : (id : String) → Shown
  all_roles : List Role → Shown
  all_permissions : List Permission → Shown
  role_with : Role → (permissions : List String) → Shown
  succeeded : Shown
  missing : (error : String) → Shown

module _ (env : Packages) (dispatch : List Event → Action (Unit {0})) where
  unfoldable pub create_role : Administration.CreateRoleDto → Action Shown
  create_role body = do id ← Administration.create_role env dispatch body; pure (created id)

  unfoldable pub get_all_roles : Action Shown
  get_all_roles = do roles ← Roles.find_all env; pure (all_roles roles)

  unfoldable pub show_role : Option Role → Action Shown
  show_role none w = (ok (missing "Role not found"), w)
  show_role (some role) w =
      (do permissions ← Roles.find_permissions env role.id; pure (role_with role permissions)) w

  unfoldable pub get_role : String → Action Shown
  get_role id = do role ← Roles.find_by_id env id; show_role role

  -- `update` changes nothing.
  unfoldable pub confirm_role : Option Role → Action Shown
  confirm_role none w = (ok (missing "Role not found"), w)
  confirm_role (some role) w = (ok succeeded, w)

  unfoldable pub update_role : String → Action Shown
  update_role id = do role ← Roles.find_by_id env id; confirm_role role

  unfoldable pub delete_role : String → Action Shown
  delete_role id = do Roles.delete env id; pure succeeded

  unfoldable pub assign_permission : String → String → Action Shown
  assign_permission id permission_id = do
    Administration.assign_permission env dispatch id permission_id
    pure succeeded

  unfoldable pub remove_permission : String → String → Action Shown
  remove_permission id permission_id = do
    Administration.remove_permission env dispatch id permission_id
    pure succeeded

  unfoldable pub create_permission : Administration.CreatePermissionDto → Action Shown
  create_permission body = do
    id ← Administration.create_permission env dispatch body
    pure (created id)

  unfoldable pub get_all_permissions : Action Shown
  get_all_permissions = do
    permissions ← Permissions.find_all env
    pure (all_permissions permissions)

-- What `JwksController` keeps: the text of the key set and the tag of it.
pub record JwksCache : Type 0 where
  pub cached_jwks : String
  pub etag : String

-- `getJwks`: the body, or nothing where the client has it already (304).
unfoldable pub get_jwks : JwksCache → Option String → Option String
get_jwks cache none = some cache.cached_jwks
get_jwks cache (some if_none_match) =
    if if_none_match === cache.etag then none else some cache.cached_jwks
