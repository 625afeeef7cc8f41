-- ===== src/Repository.antt =====
-- The Prisma repositories (services/identity/src/modules/auth/repositories), over the client.
pub mod Users
pub mod Roles
pub mod Permissions
pub mod Sessions
pub mod EmailTokens
pub mod ResetTokens
pub mod AuditLog
pub mod Laws
pub mod Stored
pub mod RoundTrip
pub mod Membership
