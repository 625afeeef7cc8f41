-- ===== src/Service/Administration.antt =====
-- services/CreateRoleService.ts, CreatePermissionService.ts, AssignPermissionService.ts,
-- RemovePermissionService.ts, AssignRoleService.ts and RemoveRoleService.ts. `dispatch` is the dispatcher
-- that they are given.
pub mod Assigned
use Prim.Native.String
use bankos.Prelude.{
  String, Bool, false, not, Option, none, some, List, [], ◌∷◌, is_some, ◌===◌, if◌then◌else◌,
  Thrown, failure, ok,
}
use bankos.Domain.Event.{
  Event, new_event, role_created, permission_created, permission_assigned, permission_removed,
  role_assigned_to_user, role_removed_from_user,
}
use bankos.Repository.Permissions as Permissions
use bankos.Repository.Roles as Roles
use bankos.Repository.Users as Users
use bankos.Runtime.Packages.{Packages}
use bankos.Runtime.Action.{Action, pure, throw_if, done, now, generate_uuid, ◌>>=◌, ◌>>◌}

pub record CreateRoleDto : Type 0 where
  pub name : String
  pub description : Option String
  pub system_role : Option Bool
  pub parent_id : Option String

pub record CreatePermissionDto : Type 0 where
  pub name : String
  pub resource : String
  pub action : String
  pub description : String

-- `x || null`: undefined and "" are null.
unfoldable pub or_null : Option String → Option String
or_null none = none
or_null (some text) = if text === "" then none else some text

-- `systemRole || false`
unfoldable pub or_false : Option Bool → Bool
or_false none = false
or_false (some b) = b

abbrev pub message : String → String → String → Thrown
message before name after = failure (String.◌++◌ before (String.◌++◌ name after))

module _ (env : Packages) (dispatch : List Event → Action (Unit {0})) where
  -- `if (dto.parentId)`: the parent has to exist.
  unfoldable pub check_parent : Option String → Action (Unit {0})
  check_parent none w = (ok tt, w)
  check_parent (some parent_id) w =
      (do
        parent ← Roles.find_by_id env parent_id
        throw_if (not (is_some parent)) (message "Parent role " parent_id " not found"))
        w

  unfoldable pub create_role : CreateRoleDto → Action String
  create_role dto = do
    existing ← Roles.find_by_name env dto.name
    throw_if (is_some existing) (message "Role " dto.name " already exists")
    check_parent (or_null dto.parent_id)
    id ← generate_uuid env
    created_at ← now env
    updated_at ← now env
    Roles.create env (record {
      id = id;
      name = dto.name;
      description = or_null dto.description;
      system_role = or_false dto.system_role;
      parent_id = or_null dto.parent_id;
      created_at = created_at;
      updated_at = updated_at;
    })
    dispatch (new_event (role_created id dto.name) ∷ [])
    pure id

  unfoldable pub create_permission : CreatePermissionDto → Action String
  create_permission dto = do
    existing ← Permissions.find_by_name env dto.name
    throw_if (is_some existing) (message "Permission " dto.name " already exists")
    id ← generate_uuid env
    created_at ← now env
    updated_at ← now env
    Permissions.create env (record {
      id = id;
      name = dto.name;
      resource = dto.resource;
      action = dto.action;
      description = dto.description;
      created_at = created_at;
      updated_at = updated_at;
    })
    dispatch (new_event (permission_created id dto.name dto.description) ∷ [])
    pure id

  unfoldable pub assign_permission : String → String → Action (Unit {0})
  assign_permission role_id permission_id = do
    role ← Roles.find_by_id env role_id
    throw_if (not (is_some role)) (message "Role " role_id " not found")
    Roles.assign_permission env role_id permission_id
    dispatch (new_event (permission_assigned role_id permission_id) ∷ [])

  unfoldable pub remove_permission : String → String → Action (Unit {0})
  remove_permission role_id permission_id = do
    Roles.remove_permission env role_id permission_id
    dispatch (new_event (permission_removed role_id permission_id) ∷ [])

  unfoldable pub assign_role : String → String → Action (Unit {0})
  assign_role user_id role_name = do
    user ← Users.find_by_id env user_id
    throw_if (not (is_some user)) (message "User " user_id " not found")
    role ← Roles.find_by_name env role_name
    throw_if (not (is_some role)) (message "Role " role_name " not found")
    Users.assign_role env user_id role_name
    dispatch (new_event (role_assigned_to_user user_id role_name) ∷ [])

  unfoldable pub remove_role : String → String → Action (Unit {0})
  remove_role user_id role_name = do
    role ← Roles.find_by_name env role_name
    if is_some role
        then (Users.remove_role env user_id role_name
            >> dispatch (new_event (role_removed_from_user user_id role_name) ∷ []))
        else done
