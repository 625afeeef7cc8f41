-- ===== src/Repository/Roles.antt =====
-- repositories/PrismaRoleRepository.ts. The dates of a new row are the database's: it is given those
-- of the entity.
use mathlib.Core.Option
use bankos.Prelude.{String, Bool, true, false, Option, none, some, List, map, ◌===◌, ◌&&◌, ok}
use bankos.Domain.Access.{Role}
use bankos.Database.Rows.{RoleRow, PermissionRow, RolePermissionRow}
use bankos.Database.Delegate.{update_where, remove_where}
use bankos.Database.Mapper.{to_domain_role}
use bankos.Repository.Users.{included}
use bankos.Runtime.Packages.{Packages}
use bankos.Runtime.World.{World}
use bankos.Runtime.Action.{Action, gets, stored, database_error}

unfoldable pub role_row : Role → RoleRow
role_row r = record {
  id = r.id;
  name = r.name;
  description = r.description;
  system_role = r.system_role;
  parent_id = r.parent_id;
  created_at = r.created_at;
  updated_at = r.updated_at;
}

unfoldable pub has_parent : String → Option String → Bool
has_parent id none = false
has_parent id (some parent) = parent === id

module _ (env : Packages) where
  unfoldable pub create : Role → Action (Unit {0})
  create role w =
      stored (env.prisma.role.create (role_row role) w.roles) (λ t. record w { roles = t })
        database_error w

  unfoldable pub update : Role → Action (Unit {0})
  update role w =
      stored
        (env.prisma.role.update (λ r. r.id === role.id)
          (λ r. record r {
            name = role.name;
            description = role.description;
            system_role = role.system_role;
            parent_id = role.parent_id;
          })
          w.roles)
        (λ t. record w { roles = t }) database_error w

  -- `onDelete` of the schema: the rows of the role in the join tables go with it, and its children
  -- lose their parent.
  unfoldable pub cascade : String → World → List RoleRow → World
  cascade id w t = record w {
    roles = update_where (λ r. has_parent id r.parent_id) (λ r. record r { parent_id = none }) t;
    user_roles = remove_where (λ r. r.role_id === id) w.user_roles;
    role_permissions = remove_where (λ r. r.role_id === id) w.role_permissions;
  }

  unfoldable pub delete : String → Action (Unit {0})
  delete id w =
      stored (env.prisma.role.delete (λ r. r.id === id) w.roles) (cascade id w) database_error w

  unfoldable pub assign_permission : String → String → Action (Unit {0})
  assign_permission role_id permission_id w =
      stored
        (env.prisma.role_permission.upsert
          (λ r. r.role_id === role_id && r.permission_id === permission_id) (λ r. r)
          (record { role_id = role_id; permission_id = permission_id }) w.role_permissions)
        (λ t. record w { role_permissions = t }) database_error w

  -- What the client throws is ignored: the row need not exist.
  unfoldable pub deleted_or_kept : Option (List RolePermissionRow) → Action (Unit {0})
  deleted_or_kept none w = (ok tt, w)
  deleted_or_kept (some t) w = (ok tt, record w { role_permissions = t })

  unfoldable pub remove_permission : String → String → Action (Unit {0})
  remove_permission role_id permission_id w =
      deleted_or_kept
        (env.prisma.role_permission.delete
          (λ r. r.role_id === role_id && r.permission_id === permission_id) w.role_permissions)
        w

  -- `include: { permission: true }`
  unfoldable pub included_permission : World → RolePermissionRow → Option PermissionRow
  included_permission w rp =
      env.prisma.permission.find_unique (λ p. p.id === rp.permission_id) w.permissions

  unfoldable pub find_permissions_in : World → String → List String
  find_permissions_in w role_id =
      included (λ rp. Option.map (λ (p : PermissionRow). p.name) (included_permission w rp))
        (env.prisma.role_permission.find_many (λ rp. rp.role_id === role_id) w.role_permissions)

  unfoldable pub find_permissions : String → Action (List String)
  find_permissions role_id = gets λ w. find_permissions_in w role_id

  unfoldable pub find_by_name : String → Action (Option Role)
  find_by_name name =
      gets
        λ w. Option.map to_domain_role (env.prisma.role.find_unique (λ r. r.name === name) w.roles)

  unfoldable pub find_by_id : String → Action (Option Role)
  find_by_id id =
      gets λ w. Option.map to_domain_role (env.prisma.role.find_unique (λ r. r.id === id) w.roles)

  unfoldable pub find_all : Action (List Role)
  find_all = gets λ w. map to_domain_role (env.prisma.role.find_many (λ _. true) w.roles)
