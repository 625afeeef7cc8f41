-- ===== src/Database.antt =====
-- The database that the identity service stores its state in: the rows of prisma/schema.prisma and
-- the Prisma client, a package that is a parameter here. A table is the list of its rows.
pub mod Rows
pub mod Delegate
pub mod Memory
pub mod Mapper
use bankos.Database.Rows.{
  UserRow, RoleRow, PermissionRow, UserRoleRow, RolePermissionRow, SessionRow, TokenRow, AuditRow,
  user_clash, role_clash, permission_clash, user_role_clash, role_permission_clash, session_clash,
  token_clash, audit_clash,
}
use bankos.Database.Delegate.{Model, IsModel}

-- `PrismaClient`: a delegate for each model of the schema.
pub record Prisma : Type 0 where
  pub user : Model UserRow
  pub role : Model RoleRow
  pub permission : Model PermissionRow
  pub user_role : Model UserRoleRow
  pub role_permission : Model RolePermissionRow
  pub device_session : Model SessionRow
  pub email_verification_token : Model TokenRow
  pub password_reset_token : Model TokenRow
  pub audit_event : Model AuditRow

-- The client keeps its documented behaviour, with the unique columns of the schema.
pub record IsPrisma (p : Prisma) : Type 0 where
  pub user_laws : IsModel user_clash p.user
  pub role_laws : IsModel role_clash p.role
  pub permission_laws : IsModel permission_clash p.permission
  pub user_role_laws : IsModel user_role_clash p.user_role
  pub role_permission_laws : IsModel role_permission_clash p.role_permission
  pub device_session_laws : IsModel session_clash p.device_session
  pub email_verification_token_laws : IsModel token_clash p.email_verification_token
  pub password_reset_token_laws : IsModel token_clash p.password_reset_token
  pub audit_event_laws : IsModel audit_clash p.audit_event
