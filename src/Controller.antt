-- ===== src/Controller.antt =====
-- The HTTP side of the identity service: controllers and the middlewares of its routes.
pub mod Auth
pub mod App
pub mod Guard
pub mod Roles
pub mod Filters
