-- ===== src/Repository/Permissions.antt =====
-- repositories/PrismaPermissionRepository.ts. The dates of a new row are the database's: it is given
-- those of the entity.
use mathlib.Core.Option
use bankos.Prelude.{String, true, Option, List, map, ◌===◌}
use bankos.Domain.Access.{Permission}
use bankos.Database.Rows.{PermissionRow}
use bankos.Database.Delegate.{remove_where}
use bankos.Database.Mapper.{to_domain_permission}
use bankos.Runtime.Packages.{Packages}
use bankos.Runtime.Action.{Action, gets, stored, database_error}

unfoldable pub permission_row : Permission → PermissionRow
permission_row p = record {
  id = p.id;
  name = p.name;
  resource = p.resource;
  action = p.action;
  description = p.description;
  created_at = p.created_at;
  updated_at = p.updated_at;
}

module _ (env : Packages) where
  unfoldable pub create : Permission → Action (Unit {0})
  create permission w =
      stored (env.prisma.permission.create (permission_row permission) w.permissions)
        (λ t. record w { permissions = t }) database_error w

  unfoldable pub update : Permission → Action (Unit {0})
  update permission w =
      stored
        (env.prisma.permission.update (λ r. r.id === permission.id)
          (λ r. record r {
            name = permission.name;
            resource = permission.resource;
            action = permission.action;
            description = permission.description;
          })
          w.permissions)
        (λ t. record w { permissions = t }) database_error w

  -- `onDelete` of the schema: the rows of the permission in the join table go with it.
  unfoldable pub delete : String → Action (Unit {0})
  delete id w =
      stored (env.prisma.permission.delete (λ r. r.id === id) w.permissions)
        (λ t. record w {
          permissions = t;
          role_permissions = remove_where (λ r. r.permission_id === id) w.role_permissions;
        })
        database_error w

  unfoldable pub find_all : Action (List Permission)
  find_all =
      gets λ w. map to_domain_permission (env.prisma.permission.find_many (λ _. true) w.permissions)

  unfoldable pub find_by_name : String → Action (Option Permission)
  find_by_name name = gets λ w.
      Option.map to_domain_permission
        (env.prisma.permission.find_unique (λ r. r.name === name) w.permissions)
