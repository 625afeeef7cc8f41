-- ===== src/Database/Mapper.antt =====
-- infrastructure/database/mapper.ts: rows to entities and back. The rows of the model have no `createdAt`
-- and `updatedAt` of users and no `updatedAt` of sessions, which no repository writes or reads; what the
-- mapper gives has them beside the columns of the row. The time of the call is an argument.
use bankos.Prelude.{ℕ, false}
use bankos.Domain.Access.{Role, Permission}
use bankos.Domain.User.{User, new_user}
use bankos.Domain.Session.{DeviceSession, new_session}
use bankos.Domain.Audit.{AuditEvent}
use bankos.Database.Rows.{UserRow, RoleRow, PermissionRow, SessionRow, AuditRow}

unfoldable pub to_domain_user : UserRow → User
unfolding new_user
to_domain_user r =
    new_user r.id r.email r.password_hash r.is_locked r.failed_login_attempts r.email_verified false

-- The columns that the repositories store.
unfoldable pub user_columns : User → UserRow
user_columns u = record {
  id = u.id;
  email = u.email;
  password_hash = u.password_hash;
  is_locked = u.is_locked;
  failed_login_attempts = u.failed_login_attempts;
  email_verified = u.email_verified;
}

-- The type `PrismaUser` of the client: the columns, and the two times that nothing reads.
pub record PrismaUser : Type 0 where
  pub columns : UserRow
  pub created_at : ℕ
  pub updated_at : ℕ

abbrev pub to_prisma_user : (now : ℕ) → User → PrismaUser
to_prisma_user now u = record { columns = user_columns u; created_at = now; updated_at = now }

unfoldable pub to_domain_role : RoleRow → Role
to_domain_role r = record {
  id = r.id;
  name = r.name;
  description = r.description;
  system_role = r.system_role;
  parent_id = r.parent_id;
  created_at = r.created_at;
  updated_at = r.updated_at;
}

unfoldable pub to_domain_permission : PermissionRow → Permission
to_domain_permission r = record {
  id = r.id;
  name = r.name;
  resource = r.resource;
  action = r.action;
  description = r.description;
  created_at = r.created_at;
  updated_at = r.updated_at;
}

unfoldable pub to_domain_device_session : SessionRow → DeviceSession
unfolding new_session
to_domain_device_session r =
    new_session r.id r.user_id r.refresh_token r.ip_address r.user_agent r.expires_at r.created_at
      r.is_revoked

unfoldable pub session_columns : DeviceSession → SessionRow
session_columns s = record {
  id = s.id;
  user_id = s.user_id;
  refresh_token = s.refresh_token;
  ip_address = s.ip_address;
  user_agent = s.user_agent;
  is_revoked = s.is_revoked;
  expires_at = s.expires_at;
  created_at = s.created_at;
}

pub record PrismaDeviceSession : Type 0 where
  pub columns : SessionRow
  pub updated_at : ℕ

abbrev pub to_prisma_device_session : (now : ℕ) → DeviceSession → PrismaDeviceSession
to_prisma_device_session now s = record { columns = session_columns s; updated_at = now }

unfoldable pub to_prisma_audit_event : AuditEvent → AuditRow
to_prisma_audit_event e = record {
  id = e.id;
  event_type = e.event_type;
  user_id = e.user_id;
  payload = e.payload;
  ip_address = e.ip_address;
  user_agent = e.user_agent;
  timestamp = e.timestamp;
}
