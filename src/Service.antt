-- ===== src/Service.antt =====
-- The application services (services/identity/src/modules/auth/services), wired as auth.routes.ts and
-- rbac.routes.ts wire them.
pub mod Setup
pub mod Login
pub mod Refresh
pub mod Logout
pub mod Register
pub mod Recovery
pub mod Verification
pub mod Administration
