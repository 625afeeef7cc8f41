-- ===== src/Runtime.antt =====
-- What the services run in: the state of the world around them, the packages that they call, which
-- are parameters, and the actions that read and change the state or throw.
pub mod Packages
pub mod World
pub mod Action
pub mod Keeps
