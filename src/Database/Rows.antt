-- ===== src/Database/Rows.antt =====
-- prisma/schema.prisma: the rows, and when two rows collide in a unique column. The columns
-- `createdAt` and `updatedAt` that the database sets and nothing reads are left out, and so are the
-- generated ids of the tokens.
use bankos.Prelude.{ℕ, String, Bool, ◌||◌, ◌&&◌, Option, List, ◌===◌}

pub record UserRow : Type 0 where
  pub id : String
  pub email : String
  pub password_hash : String
  pub is_locked : Bool
  pub failed_login_attempts : ℕ
  pub email_verified : Bool

abbrev pub user_clash : UserRow → UserRow → Bool
user_clash r s = r.id === s.id || r.email === s.email

pub record RoleRow : Type 0 where
  pub id : String
  pub name : String
  pub description : Option String
  pub system_role : Bool
  pub parent_id : Option String
  pub created_at : ℕ
  pub updated_at : ℕ

abbrev pub role_clash : RoleRow → RoleRow → Bool
role_clash r s = r.id === s.id || r.name === s.name

pub record PermissionRow : Type 0 where
  pub id : String
  pub name : String
  pub resource : String
  pub action : String
  pub description : String
  pub created_at : ℕ
  pub updated_at : ℕ

abbrev pub permission_clash : PermissionRow → PermissionRow → Bool
permission_clash r s =
    r.id === s.id || (r.name === s.name || (r.resource === s.resource && r.action === s.action))

pub record UserRoleRow : Type 0 where
  pub user_id : String
  pub role_id : String

abbrev pub user_role_clash : UserRoleRow → UserRoleRow → Bool
user_role_clash r s = r.user_id === s.user_id && r.role_id === s.role_id

pub record RolePermissionRow : Type 0 where
  pub role_id : String
  pub permission_id : String

abbrev pub role_permission_clash : RolePermissionRow → RolePermissionRow → Bool
role_permission_clash r s = r.role_id === s.role_id && r.permission_id === s.permission_id

pub record SessionRow : Type 0 where
  pub id : String
  pub user_id : String
  pub refresh_token : String
  pub ip_address : String
  pub user_agent : String
  pub is_revoked : Bool
  pub expires_at : ℕ
  pub created_at : ℕ

abbrev pub session_clash : SessionRow → SessionRow → Bool
session_clash r s = r.id === s.id || r.refresh_token === s.refresh_token

-- The models `EmailVerificationToken` and `PasswordResetToken` have the same columns.
pub record TokenRow : Type 0 where
  pub token : String
  pub user_id : String
  pub is_used : Bool
  pub expires_at : ℕ

abbrev pub token_clash : TokenRow → TokenRow → Bool
token_clash r s = r.token === s.token

pub record AuditRow : Type 0 where
  pub id : String
  pub event_type : String
  pub user_id : Option String
  pub payload : List (String × String)
  pub ip_address : String
  pub user_agent : String
  pub timestamp : ℕ

abbrev pub audit_clash : AuditRow → AuditRow → Bool
audit_clash r s = r.id === s.id
