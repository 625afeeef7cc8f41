-- ===== src/Engine.antt =====
-- The authorization engine (services/identity/src/modules/auth/engine).
pub mod Evaluator
pub mod Policy
pub mod Resolver
pub mod Authorization
