-- ===== src/Runtime/World.antt =====
-- The state around the services: the tables, the Redis keys, the mails that were sent, and how often
-- the clock was read and randomness drawn.
use bankos.Prelude.{ℕ, String, List}
use bankos.Database.Rows.{
  UserRow, RoleRow, PermissionRow, UserRoleRow, RolePermissionRow, SessionRow, TokenRow, AuditRow,
}
use bankos.Runtime.Packages.{Keyspace}

-- What `IMailer` is asked to send, with the raw token.
pub data Mail : Type 0 where
  verification : (email token : String) → Mail
  password_reset : (email token : String) → Mail

pub record World : Type 0 where
  pub users : List UserRow
  pub roles : List RoleRow
  pub permissions : List PermissionRow
  pub user_roles : List UserRoleRow
  pub role_permissions : List RolePermissionRow
  pub sessions : List SessionRow
  pub email_tokens : List TokenRow
  pub reset_tokens : List TokenRow
  pub audit : List AuditRow
  pub keys : Keyspace
  pub mails : List Mail
  pub ticks : ℕ
  pub draws : ℕ
