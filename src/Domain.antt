-- ===== src/Domain.antt =====
-- The domain of the identity service (services/identity/src/core): its entities and events.
pub mod Access
pub mod Event
pub mod User
pub mod Session
pub mod Token
pub mod Audit
