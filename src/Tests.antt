-- ===== src/Tests.antt =====
-- Concrete packages and a concrete state, and runs of the code and uses of the theorems on them.
pub mod Environment
pub mod Core
pub mod Services
pub mod Storage
pub mod Sessions
pub mod Lifecycle
pub mod Gateway
pub mod App
pub mod Routes
pub mod Administration
pub mod Cache
