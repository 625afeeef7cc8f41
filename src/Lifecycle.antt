-- ===== src/Lifecycle.antt =====
-- What the requests to the identity service do to the sessions. The specification is a relation on
-- tables of sessions: a session is opened under an id that no other has, or sessions are revoked;
-- nothing else happens to them.
pub mod Spec
pub mod Quiet
pub mod Lawful
pub mod Parts
pub mod Accounts
pub mod Registrations
pub mod Rotations
pub mod Logouts
pub mod Recoveries
pub mod Requests
